-- ===== src/ParticleInit/Tests.antt =====
-- Two regions of five and three particles in frames of four, and the theorems there.
use spearhed.Base.{
  true, ℕ, zero, suc, ◌+◌, ◌-◌, ◌*◌, ◌/◌, ◌<◌, ◌≡◌, ◌↔◌, refl, arith, Box, ◌==◌, some, [], ◌∷◌,
  if◌then◌else◌, prefix_sum,
}
use native.Mathlib.Nat.{div-add-mod', mod-lt}
use spearhed.RegionBuffer.{Region}
use spearhed.ParticleInit.{
  IsDivCeil, Slot, Created, find_frame_location, particles_in_frame, init_particle_regions,
}
use spearhed.ParticleInit.Search.{find_frame_location_inverse}
use spearhed.ParticleInit.Layout.{live_slot_iff}
use spearhed.ParticleInit.Launch.{Holds, init_particle_regions-Holds}

-- A division that meets what is asked of alpaka's.
unfoldable pub div_ceil : ℕ → ℕ → ℕ
div_ceil a b = (a + b - 1) / b

pub div_ceil-IsDivCeil : IsDivCeil div_ceil
unfolding div_ceil
div_ceil-IsDivCeil = record {
  enough = λ a b h. omega (arith, div-add-mod' (a + b - 1) b, mod-lt (a + b - 1) h);
  tight = λ a b h. omega (arith, div-add-mod' (a + b - 1) b, mod-lt (a + b - 1) h);
}

abbrev regions : Box (Region ℕ)
regions r = record { frames = []; num_particles = if r == 0 then 5 else 3; volume = 10 * r }

abbrev scan : Box ℕ
scan r = if r == 0 then 2 else 3

abbrev place : Region ℕ → ℕ → ℕ
place region j = region.volume + j

scanned : (m : ℕ) → m < 2 → scan m ≡ prefix_sum (λ r. div_ceil (regions r).num_particles 4) (suc m)
unfolding prefix_sum div_ceil
scanned zero lt = refl
scanned (suc zero) lt = refl
scanned (suc (suc m)) lt = absurd (omega arith)

abbrev start : Created ℕ
start = record { frames = λ _. []; next_id = 100 }

abbrev junk : Box (Slot ℕ)
junk _ = record { multi_mask = 77; particle_id = 0; particle = 0 }

find_frame_location_inverse_example :
    find_frame_location 2 scan 2
    ≡ some (record { region_idx = 1; local_frame_idx = 0; frames_in_region = 1 })
unfolding prefix_sum div_ceil
find_frame_location_inverse_example =
    find_frame_location_inverse (λ r. div_ceil (regions r).num_particles 4) scan 2 1 0 scanned
      (omega arith) (omega arith) (omega arith)

live_slot_iff_example : (0 < particles_in_frame 4 5 (div_ceil 5 4) 1) ↔ (1 * 4 + 0 < 5)
unfolding div_ceil
live_slot_iff_example =
    live_slot_iff 4 div_ceil-IsDivCeil (omega arith) 5 1 0 (omega arith) (omega arith)

-- The blocks run as 2, 0, 1 and the slots backwards.
init_particle_regions-Holds_example :
    (t : Created ℕ) × (init_particle_regions 4 place
        (λ b. true)
        regions
        2
        scan
        junk
        (3 ∷ 2 ∷ 1 ∷ 0 ∷ [])
        (2 ∷ 0 ∷ 1 ∷ [])
        start
      ≡ some t)
    × ((r j : ℕ)
        → r < 2
        → j < (regions r).num_particles
        → Holds 4 place div_ceil-IsDivCeil
            (omega arith)
            regions
            2
            scan
            junk
            (3 ∷ 2 ∷ 1 ∷ 0 ∷ [])
            r
            j
            t)
unfolding prefix_sum div_ceil
init_particle_regions-Holds_example =
    init_particle_regions-Holds 4 place div_ceil-IsDivCeil (omega arith) regions 2 scan junk
      (3 ∷ 2 ∷ 1 ∷ 0 ∷ []) scanned (omega arith) (λ b. true) (λ b. refl) (2 ∷ 0 ∷ 1 ∷ []) start
      (λ b lt. ground arith) (λ b lt. ground arith) (omega arith)
