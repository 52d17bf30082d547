-- ===== src/RegionBounds/Update.antt =====
-- What a launch leaves in the regions.
use mathlib.Core.Path.{subst}
use native.Mathlib.Decide.{ℕ_discrete}
use spearhed.Base.{
  ℕ, ◌+◌, ◌*◌, ◌<◌, ◌≤◌, ◌≡◌, refl, sym, arith, Box, update, Bool, some, ==_self, ne→==, u32,
}
use spearhed.BoundingBox.{Scalar, Aabb}
use spearhed.BoundingBox.Extend.{IsTotal}
use spearhed.RegionBuffer.{Region, RegionBuffer}
use spearhed.RegionBounds.{Run, threads_per_block, max_blocks, num_blocks, update_region}
use spearhed.RegionBounds.Hull.{IsBounded, IsHull, IsFair, Done, update_region-IsHull}

-- For fewer than 2^32 - 256 regions the grid holds at least one block and at most 1024. With some
-- regions no block is left without one of the 256s that it is there for, and below 1024 blocks the
-- 256s cover all regions.
pub num_blocks-bounds :
    (size : ℕ)
    → size + threads_per_block < u32
    → (0 < num_blocks size)
      × (num_blocks size ≤ max_blocks)
      × (0 < size → num_blocks size * threads_per_block < size + threads_per_block)
      × ((num_blocks size < max_blocks) → size ≤ num_blocks size * threads_per_block)
unfolding num_blocks
num_blocks-bounds size small = ground arith

module _ {A P : Type 0} (sc : Scalar A) (total : IsTotal sc) (bounded : IsBounded sc)
    (frame_size : ℕ) (is_valid : P → Bool) (relative_pos : P → Box A) (memory : Box (Box P))
    (run : Run A) (fair : IsFair sc total frame_size is_valid relative_pos memory run)
    (original : Box (Region (Aabb A))) where
  abbrev Ready : Region (Aabb A) → Region (Aabb A) → Type 0
  Ready old new = Done sc total frame_size is_valid relative_pos memory old new

  abbrev Kept : Region (Aabb A) → Region (Aabb A) → Type 0
  Kept old new = (volume : Aabb A) × (new ≡ record old { volume = volume })

  -- A state that is reached from `regions`: nothing is undone, and nothing behind the last region
  -- changes.
  record After (num_regions : ℕ) (regions out : Box (Region (Aabb A))) : Type 0 where
    kept : (r : ℕ) → Kept (original r) (out r)
    done : (r : ℕ) → Ready (original r) (regions r) → Ready (original r) (out r)
    beyond : (r : ℕ) → num_regions ≤ r → out r ≡ regions r

  one_region :
      (num_regions idx : ℕ) (regions : Box (Region (Aabb A))) (s_bounds : Box (Aabb A))
      → idx < num_regions
      → ((r : ℕ) → Kept (original r) (regions r))
      → (out : Box (Region (Aabb A))) × (shared : Box (Aabb A)) × (update_region sc frame_size
            is_valid relative_pos memory run idx
            (regions, s_bounds)
          ≡ some (out, shared))
        × After num_regions regions out
        × Ready (original idx) (out idx)
  one_region num_regions idx regions s_bounds lt kept =
      let (volume, shared, e, hull) =
        update_region-IsHull sc total frame_size is_valid relative_pos memory bounded run fair idx
          regions s_bounds in
      let new : Box (Region (Aabb A)) =
        update regions idx (record (regions idx) { volume = volume }) in
      let (old_volume, same) = kept idx in
      let finished : Ready (original idx) (new idx) = (
        volume,
        rw (==_self idx, same) refl,
        subst (λ r. IsHull sc total frame_size is_valid relative_pos memory r.frames volume) same
            hull,
      ) in
      (
        new,
        shared,
        e,
        record {
          kept = λ r. elim (ℕ_discrete r idx) [
            | yes here ↦ subst (λ i. Kept (original i) (new i)) (sym here) (finished.0, finished.1)
            | no ne ↦ rw (ne→== r idx ne) (kept r)
          ];
          done = λ r h. elim (ℕ_discrete r idx) [
            | yes here ↦ subst (λ i. Ready (original i) (new i)) (sym here) finished
            | no ne ↦ rw (ne→== r idx ne) h
          ];
          beyond = λ r le. rw (ne→== r idx (λ here. omega arith)) refl;
        },
        finished,
      )
