-- ===== src/RegionBounds.antt =====
-- packages/pmacc/include/spmacc/particles/regions/RegionBoundsUpdate.hpp: the update of the
-- regions' volumes. How PMacc hands a frame's slots out to the threads is a parameter; the blocks,
-- and the threads between two barriers, run in a given order.
pub mod Hull
pub mod Update
pub mod Tests
use spearhed.Base.{
  ℕ, zero, suc, ◌+◌, ◌-◌, ◌/◌, ◌%◌, Box, update, u32, ltb, leb, ◌==◌, Bool, Option, none, some,
  List, [], ◌∷◌, if◌then◌else◌, run_blocks,
}
use spearhed.BoundingBox.{Scalar, Aabb, default_box, extend_vec, extend_box}
use spearhed.FrameSchedule.{lockstep_for_each_particle}
use spearhed.Hierarchy.{View, frame_view, region_view, frame_level, device_heap, for_each}
use spearhed.RegionBuffer.{Region, Storage, RegionBuffer}
use spearhed.TreeReduce.{tree_reduce}

-- The run of a launch: the threads of a block, their order between two barriers and the slots that
-- each works off, the order of the blocks, and what the shared memory of a block holds at first.
pub record Run (A : Type 0) : Type 0 where
  pub num_workers : ℕ
  pub thread_order : List ℕ
  pub slots : ℕ → List ℕ
  pub block_order : ℕ → List ℕ
  pub shared : ℕ → Box (Aabb A)

abbrev pub max_block_size : ℕ
max_block_size = 512

abbrev pub threads_per_block : ℕ
threads_per_block = 256

abbrev pub max_blocks : ℕ
max_blocks = 1024

-- The grid of a launch over `size` regions, in `unsigned` arithmetic.
unfoldable pub num_blocks : ℕ → ℕ
num_blocks size =
    let enough = ((size + threads_per_block - 1) % u32) / threads_per_block in
    let capped = if ltb max_blocks enough then max_blocks else enough in
    if capped == 0 then 1 else capped

module _ {A P : Type 0} (sc : Scalar A) (frame_size : ℕ) (is_valid : P → Bool)
    (relative_pos : P → Box A) (memory : Box (Box P)) where
  abbrev pub occupied : Aabb A → ℕ → ℕ → Bool
  occupied bounds frame slot = is_valid (memory frame slot)

  abbrev pub extend_by : ℕ → ℕ → Aabb A → Aabb A
  extend_by frame slot bounds = extend_vec sc (relative_pos (memory frame slot)) bounds

  -- What a thread does with a frame.
  unfoldable pub frame_body : List ℕ → View (Aabb A) → Aabb A → Aabb A
  frame_body slots (frame_view frame) bounds =
      lockstep_for_each_particle occupied slots extend_by frame bounds
  frame_body slots view bounds = bounds

  unfoldable pub local_bounds : List ℕ → Region (Aabb A) → Aabb A
  local_bounds slots region =
      for_each frame_size occupied 4 frame_level device_heap (region_view region) (frame_body slots)
        (default_box sc)

  module _ (run : Run A) where
    -- The load into shared memory, by one thread.
    unfoldable pub load_bounds : Region (Aabb A) → ℕ → Box (Aabb A) → Box (Aabb A)
    load_bounds region thread s_bounds =
        if ltb thread max_block_size
        then update s_bounds thread (local_bounds (run.slots thread) region)
        else s_bounds

    -- The body of the loop over the regions, with the shared memory that a block keeps; `none`
    -- means that the reduction ran out of fuel.
    unfoldable pub update_region :
        ℕ → Box (Region (Aabb A)) × Box (Aabb A) → Option (Box (Region (Aabb A)) × Box (Aabb A))
    update_region region_idx (regions, s_bounds) =
        let region = regions region_idx in
        elim (tree_reduce (λ a b. extend_box sc b a) run.num_workers run.thread_order
          (run_blocks (load_bounds region) run.thread_order s_bounds)) [
            | none ↦ none
            | some reduced ↦
                some (update regions region_idx (record region { volume = reduced 0 }), reduced)
          ]

    -- `for(regionIdx = blockIdx; regionIdx < numParticleRegions; regionIdx += gridDomSize)`
    unfoldable pub update_regions :
        ℕ
        → ℕ
        → ℕ
        → ℕ
        → Box (Region (Aabb A)) × Box (Aabb A)
        → Option (Box (Region (Aabb A)) × Box (Aabb A))
    update_regions zero grid num_regions region_idx s = none
    update_regions (suc fuel) grid num_regions region_idx s =
        if leb num_regions region_idx then some s else elim (update_region region_idx s) [
          | none ↦ none
          | some s' ↦ update_regions fuel grid num_regions (region_idx + grid) s'
        ]

    -- UpdateRegionBounds, block after block.
    unfoldable pub update_region_bounds :
        ℕ → ℕ → List ℕ → Box (Region (Aabb A)) → Option (Box (Region (Aabb A)))
    update_region_bounds grid num_regions [] regions = some regions
    update_region_bounds grid num_regions (block ∷ order) regions =
        elim (update_regions (num_regions + 1) grid num_regions block (regions, run.shared block)) [
          | none ↦ none
          | some s' ↦ update_region_bounds grid num_regions order s'.0
        ]

    -- UpdateVolumes; `none` too where the buffer has regions and no storage.
    unfoldable pub update_volumes :
        RegionBuffer (Region (Aabb A)) → Option (RegionBuffer (Region (Aabb A)))
    update_volumes b =
        if ltb 0 b.size
        then elim b.buffer [
          | none ↦ none
          | some s ↦
              elim (update_region_bounds (num_blocks b.size) b.size
                (run.block_order (num_blocks b.size)) s.slots) [
                  | none ↦ none
                  | some slots ↦ some (record b { buffer = some (record s { slots = slots }) })
                ]
        ]
        else some b
