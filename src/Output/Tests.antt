-- ===== src/Output/Tests.antt =====
-- Two regions with three frames of two slots, of which one is half full.
use spearhed.Base.{
  ℕ, ◌+◌, ◌*◌, ◌<◌, ◌≡◌, refl, arith, Box, ◌==◌, some, List, [], ◌∷◌, length, get_or, if◌then◌else◌,
}
use spearhed.RegionBuffer.{Region}
use spearhed.ParticleInit.Tests.{div_ceil}
use spearhed.Output.{HostFrame, copy_particles}
use spearhed.Output.Copied.{packed, all_frames, copy_particles-packed}

-- The heap's copy lies 100 further on; the first frame of the first region has one particle.
abbrev heap : Box (HostFrame ℕ)
heap a = record { live_particles = if a == 105 then 1 else 2; particles_soa = λ i. a * 10 + i }

abbrev regions : List (Region ℕ)
regions =
    record { frames = 5 ∷ 6 ∷ []; num_particles = 3; volume = 0 }
    ∷ record { frames = 7 ∷ []; num_particles = 2; volume = 0 }
    ∷ []

copy_particles-packed_example :
    (out : Box ℕ) × (copy_particles div_ceil 2 heap 100 regions (λ j. 9)
      ≡ some (length (packed (all_frames div_ceil 2 heap 100 regions)), out))
    × ((j d : ℕ)
        → j < length (packed (all_frames div_ceil 2 heap 100 regions))
        → out j ≡ get_or (packed (all_frames div_ceil 2 heap 100 regions)) j d)
unfolding div_ceil
copy_particles-packed_example =
    copy_particles-packed div_ceil 2 heap 100 regions (λ j. 9)
      (
        record { enough_frames = refl; all_live = refl },
        (record { enough_frames = refl; all_live = refl }, tt),
      )
      (omega arith)

five_packed :
    packed (all_frames div_ceil 2 heap 100 regions) ≡ 1050 ∷ 1060 ∷ 1061 ∷ 1070 ∷ 1071 ∷ []
five_packed = refl
