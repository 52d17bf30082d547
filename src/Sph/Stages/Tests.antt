-- ===== src/Sph/Stages/Tests.antt =====
-- Three particles on a line in two frames of one region, and the region itself as its neighbour.
use spearhed.Base.{
  ℕ, zero, suc, ◌+◌, ◌-◌, ◌<◌, ◌≡◌, refl, sym, ◌∙◌, arith, prefix_sum, get_or, Box, ◌==◌, true,
  some, [], ◌∷◌, if◌then◌else◌, upwards, upwards-has, upwards-Distinct, Covers,
}
use spearhed.RegionBuffer.{Region, RegionBuffer, Storage}
use spearhed.FrameIndex.{FrameIndex, is_fresh}
use spearhed.FrameIndex.Fill.{start}
use spearhed.FrameIndex.Rebuild.{IsExact, lists}
use spearhed.FrameSchedule.{default_for_each}
use spearhed.FrameSchedule.Launch.{Apart, IsRun}
use spearhed.FrameSchedule.Tests.{strided_map, strided_map-SharesOut}
use spearhed.Interaction.{SourceView, squares}
use spearhed.Interaction.Sweep.{IsCulled, seen}
use spearhed.Sph.{
  Arithmetic, Particle, density_init_self, zero_derivatives, accumulate_density, hydro_interaction,
}
use spearhed.Sph.Tests.{naturals, corner, left, right}
use spearhed.Sph.Stages.{StageRun, update_density, update_hydro_forces}
use spearhed.Sph.Stages.Summed.{
  IsStageRun, Summed, summed, update_density-Summed, update_hydro_forces-Summed,
}

abbrev distance : ℕ → ℕ → ℕ
distance a b = (a - b) + (b - a)

abbrev on_a_line : Arithmetic ℕ
on_a_line = record naturals { minus = distance }

abbrev line : Region ℕ
line = record { frames = 5 ∷ 6 ∷ []; num_particles = 3; volume = 0 }

abbrev storage : Storage (Region ℕ)
storage = record { host = λ r. line; slots = λ r. line; capacity = 1 }

abbrev buffer : RegionBuffer (Region ℕ)
buffer = record { buffer = some storage; size = 1; topology_version = 3; address = 7 }

abbrev index : FrameIndex
index = record {
  frame_ptrs = some (λ g. g + 5);
  region_idx_per_frame = some (λ g. 0);
  frames_per_region = some (λ r. 2);
  total_frames = 2;
  frame_capacity = 2;
  region_capacity = 1;
  built_version = 3;
  built_buffer = 7;
  has_build = true;
}

abbrev source : SourceView ℕ
source = record { regions = λ r. line; neighbour_regions = λ n. 0; region_offsets = λ r. r }

-- Frame 6 has a dead second slot.
abbrev memory : Box (Box (Particle ℕ))
memory f i =
    if f == 5 then (if i == 0 then left else right) else record right { multi_mask = i == 0 }

abbrev density_run : StageRun (accumulate_density on_a_line corner)
density_run = record {
  idx_map = strided_map;
  slot_order = 1 ∷ 0 ∷ [];
  init_order = λ grid. upwards grid 0;
  order = λ k. 1 ∷ 0 ∷ [];
  junk = (
    λ i. record { valid = true; rel = λ tag. 9; reads = 9; acc = 9; prep = tt },
    record { pos_cache = λ i tag. 9; nb_cache = λ i. 9 },
  );
}

covers : Covers 2 (1 ∷ 0 ∷ [])
covers b lt = ground arith

launches : IsRun 2 strided_map default_for_each (1 ∷ 0 ∷ []) (λ grid. upwards grid 0)
launches = record {
  shares_out = strided_map-SharesOut;
  matches = tt;
  slots_once = (refl, (refl, tt));
  slots_covered = covers;
  blocks_once = λ grid. upwards-Distinct grid 0;
  blocks_covered = λ grid b lt. upwards-has grid 0 b ∙ ground arith;
}

density_run-IsStageRun : IsStageRun (accumulate_density on_a_line corner) density_run 2
density_run-IsStageRun = record {
  launches = launches;
  covers = λ k. covers;
  once = λ k. (refl, (refl, tt));
}

frame_at : (i : ℕ) → i < 2 → i + 5 ≡ get_or (5 ∷ 6 ∷ []) i 0
frame_at zero lt = refl
frame_at (suc zero) lt = refl
frame_at (suc (suc i)) lt = absurd (omega arith)

index_filled :
    (r i : ℕ) → r < 1 → i < 2 → (start (lists buffer) r + i + 5 ≡ get_or (5 ∷ 6 ∷ []) i 0) × (0 ≡ r)
unfolding prefix_sum
index_filled zero i lt i_lt = (omega (arith, frame_at i i_lt), refl)
index_filled (suc r) i lt i_lt = absurd (omega arith)

index_scanned : (r : ℕ) → r < 1 → 2 ≡ start (lists buffer) (suc r)
unfolding prefix_sum
index_scanned zero lt = refl
index_scanned (suc r) lt = absurd (omega arith)

index-IsExact : IsExact (lists buffer) 1 index
unfolding prefix_sum
index-IsExact = record {
  ptrs = λ g. g + 5;
  owners = λ g. 0;
  scan = λ r. 2;
  has_ptrs = refl;
  has_owners = refl;
  has_scan = refl;
  filled = λ r lt i i_lt. index_filled r i lt i_lt;
  scanned = index_scanned;
  total = refl;
  fits = omega arith;
}

buffer-Apart : Apart (lists buffer) 1
buffer-Apart r s i j r_lt s_lt i_lt j_lt e =
    let same : i + 5 ≡ j + 5 = frame_at i i_lt ∙ e ∙ sym (frame_at j j_lt) in
    (omega arith, omega arith)

density-IsCulled :
    IsCulled
      (accumulate_density on_a_line corner)
      36
      (λ g. g + 5)
      2
      (λ f i. seen (accumulate_density on_a_line corner) (memory f i))
unfolding squares
density-IsCulled zero zero lt i_lt live = refl
density-IsCulled zero (suc zero) lt i_lt live = refl
density-IsCulled zero (suc (suc i)) lt i_lt live = absurd (omega arith)
density-IsCulled (suc zero) zero lt i_lt live = refl
density-IsCulled (suc zero) (suc zero) lt i_lt live = cc
density-IsCulled (suc zero) (suc (suc i)) lt i_lt live = absurd (omega arith)
density-IsCulled (suc (suc b)) i lt i_lt live = absurd (omega arith)

update_density-Summed_example :
    Summed
      (accumulate_density on_a_line corner)
      (density_init_self on_a_line)
      density_run
      6
      buffer
      storage
      (source ∷ [])
      memory
      (update_density on_a_line corner 2 density_run buffer index 3 (source ∷ []) memory)
unfolding is_fresh index-IsExact
update_density-Summed_example =
    update_density-Summed on_a_line corner 2 3 buffer storage index (source ∷ []) memory density_run
      density_run-IsStageRun refl (unfold prefix_sum in omega arith) buffer-Apart index-IsExact
      density-IsCulled refl

abbrev forces_run : StageRun (hydro_interaction on_a_line corner 5)
forces_run = record {
  idx_map = strided_map;
  slot_order = 1 ∷ 0 ∷ [];
  init_order = λ grid. upwards grid 0;
  order = λ k. 1 ∷ 0 ∷ [];
  junk = (
    λ i. record {
      valid = true;
      rel = λ tag. 9;
      reads = record {
        own_smoothing_length = 9;
        own_density = 9;
        own_internal_energy = 9;
        own_vel = λ tag. 9;
      };
      acc = record { acc_dvdt = λ tag. 9; acc_dudt = 9 };
      prep = 9;
    },
    record {
      pos_cache = λ i tag. 9;
      nb_cache = λ i. record {
        p_over_rho2 = 9;
        staged_mass = 9;
        staged_smoothing_length = 9;
        staged_vel = λ tag. 9;
      };
    },
  );
}

forces_run-IsStageRun : IsStageRun (hydro_interaction on_a_line corner 5) forces_run 2
forces_run-IsStageRun = record {
  launches = launches;
  covers = λ k. covers;
  once = λ k. (refl, (refl, tt));
}

forces-IsCulled :
    IsCulled
      (hydro_interaction on_a_line corner 5)
      36
      (λ g. g + 5)
      2
      (λ f i. seen (hydro_interaction on_a_line corner 5) (memory f i))
unfolding squares
forces-IsCulled zero zero lt i_lt live = refl
forces-IsCulled zero (suc zero) lt i_lt live = refl
forces-IsCulled zero (suc (suc i)) lt i_lt live = absurd (omega arith)
forces-IsCulled (suc zero) zero lt i_lt live = refl
forces-IsCulled (suc zero) (suc zero) lt i_lt live = cc
forces-IsCulled (suc zero) (suc (suc i)) lt i_lt live = absurd (omega arith)
forces-IsCulled (suc (suc b)) i lt i_lt live = absurd (omega arith)

update_hydro_forces-Summed_example :
    Summed
      (hydro_interaction on_a_line corner 5)
      (zero_derivatives on_a_line)
      forces_run
      6
      buffer
      storage
      (source ∷ [])
      memory
      (update_hydro_forces on_a_line corner 2 5 forces_run buffer index 3 (source ∷ []) memory)
unfolding is_fresh index-IsExact
update_hydro_forces-Summed_example =
    update_hydro_forces-Summed on_a_line corner 2 3 buffer storage index (source ∷ []) memory 5
      forces_run forces_run-IsStageRun refl (unfold prefix_sum in omega arith) buffer-Apart
      index-IsExact forces-IsCulled refl

-- The left particle sees itself at 2 * 3 and the two at distance 1 at 3 * 2 each.
left_density :
    (summed
      (accumulate_density on_a_line corner)
      (density_init_self on_a_line)
      density_run
      6
      buffer
      storage
      (source ∷ [])
      memory
      0
      5
      0).density
    ≡ 18
unfolding squares density_init_self
left_density = refl
