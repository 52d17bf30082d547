-- ===== src/Neighbourhood.antt =====
-- packages/pmacc/include/spmacc/particles/regions/NeighbourRegions.hpp over the volumes that
-- RegionBoundsUpdate.hpp leaves: which source regions a target's list holds, by the particles.
mod Tests
use native.Mathlib.Decide.{ℕ_discrete}
use spearhed.Base.{
  ℕ, ◌+◌, ◌<◌, ◌≤◌, ◌≡◌, refl, sym, Box, Bool, true, Option, some, List, has, Covers, if◌then◌else◌,
  prefix_sum_mono, u32,
}
use spearhed.BoundingBox.{Scalar, Aabb, expand, intersects}
use spearhed.BoundingBox.Extend.{AtMost, IsTotal, Within}
use spearhed.BoundingBox.Meet.{IsProper}
use spearhed.RegionBuffer.{Region, Storage, RegionBuffer}
use spearhed.RegionBounds.{Run, update_volumes}
use spearhed.RegionBounds.Hull.{IsBounded, IsFair}
use spearhed.NeighbourRegions
use spearhed.NeighbourRegions.Lists
use spearhed.NeighbourRegions.{NeighbourEntry}
use spearhed.NeighbourRegions.Count.{one_if}
use spearhed.NeighbourRegions.Lists.{Lists}

-- The test of the two kernels: the searched volume of target `b` against the volume of source `i`.
unfoldable pub region_meets :
    {A : Type 0} → Scalar A → A → Box (Region (Aabb A)) → Box (Region (Aabb A)) → ℕ → Box Bool
region_meets sc smoothing_length targets sources b i =
    let search_volume = expand sc smoothing_length (targets b).volume in
    intersects sc search_volume (sources i).volume

-- What rounding keeps of a shift by the radius.
pub record IsMonotone {A : Type 0} (sc : Scalar A) (h : A) : Type 0 where
  pub plus_mono : (a b : A) → AtMost sc a b → AtMost sc (sc.plus a h) (sc.plus b h)
  pub minus_mono : (a b : A) → AtMost sc a b → AtMost sc (sc.minus a h) (sc.minus b h)

module _ {A P : Type 0} (sc : Scalar A) (total : IsTotal sc) (h : A) (mono : IsMonotone sc h)
    (frame_size : ℕ) (is_valid : P → Bool) (relative_pos : P → Box A) (memory : Box (Box P)) where
  -- A live particle in one of the frames.
  pub record Holds (frames : List ℕ) (vec : Box A) : Type 0 where
    pub frame : ℕ
    pub slot : ℕ
    pub listed : has frame frames ≡ true
    pub below_size : slot < frame_size
    pub live : is_valid (memory frame slot) ≡ true
    pub here : relative_pos (memory frame slot) ≡ vec

  -- No more than the radius apart, on every axis.
  abbrev pub Near : Box A → Box A → Type 0
  Near u v =
      (tag : ℕ)
      → tag < sc.dim
      → AtMost sc (sc.minus (u tag) h) (v tag) × AtMost sc (v tag) (sc.plus (u tag) h)

  -- The entry lists source `i` for target `b`.
  pub record IsListed (entry : NeighbourEntry) (b i : ℕ) : Type 0 where
    pub at : ℕ
    pub from_start : entry.region_offsets b ≤ at
    pub before_end : at < entry.region_offsets (b + 1)
    pub same : entry.neighbour_regions at ≡ i

  module _ (bounded : IsBounded sc) (bounds_run : Run A)
      (bounds_fair : IsFair sc total frame_size is_valid relative_pos memory bounds_run)
      (covers : (grid : ℕ) → Covers grid (bounds_run.block_order grid))
      (run : NeighbourRegions.Run) where
    abbrev updated : RegionBuffer (Region (Aabb A)) → Option (RegionBuffer (Region (Aabb A)))
    updated = update_volumes sc frame_size is_valid relative_pos memory bounds_run

    abbrev renewed :
        RegionBuffer (Region (Aabb A))
        → Storage (Region (Aabb A))
        → Box (Region (Aabb A))
        → RegionBuffer (Region (Aabb A))
    renewed b s slots = record b { buffer = some (record s { slots = slots }) }
