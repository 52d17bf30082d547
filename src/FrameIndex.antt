-- ===== src/FrameIndex.antt =====
-- packages/pmacc/include/spmacc/particles/algorithms/FrameIndex.hpp: the flat index of a buffer's
-- frames, its (re)build and its refresh. A rebuild's count, scan, growth and fill follow one
-- another as the sender chain orders them; the blocks of a launch run in any given order.
pub mod Fill
pub mod Capacity
pub mod Rebuild
pub mod History
mod Tests
use spearhed.Base.{
  ℕ, zero, suc, ◌-◌, ◌*◌, ◌%◌, Box, update, u32, i31, ltb, leb, ◌&&◌, ◌==◌, Bool, true, false,
  Option, none, some, List, [], ◌∷◌, if◌then◌else◌, run_blocks,
}
use spearhed.FrameDispatch.{count_frames, inclusive_scan_host}
use spearhed.RegionBuffer.{Region, RegionBuffer, get_device_data_box}
use Prim.Native.Nat.{max}

pub record FrameIndex : Type 0 where
  pub frame_ptrs : Option (Box ℕ)
  pub region_idx_per_frame : Option (Box ℕ)
  pub frames_per_region : Option (Box ℕ)
  pub total_frames : ℕ
  pub frame_capacity : ℕ
  pub region_capacity : ℕ
  pub built_version : ℕ
  pub built_buffer : ℕ
  pub has_build : Bool

-- What buffers hold when they are allocated, and the order in which the blocks of the two kernels
-- run.
pub record Device : Type 0 where
  pub fresh_ptrs : Box ℕ
  pub fresh_owners : Box ℕ
  pub fresh_counts : Box ℕ
  pub count_order : List ℕ
  pub fill_order : List ℕ

infixl 5 ◌>>=◌
abbrev pub ◌>>=◌ : {A B : Type 0} → Option A → (A → Option B) → Option B
none >>= f = none
some a >>= f = f a

-- The default constructor.
unfoldable pub empty : FrameIndex
empty = record {
  frame_ptrs = none;
  region_idx_per_frame = none;
  frames_per_region = none;
  total_frames = 0;
  frame_capacity = 0;
  region_capacity = 0;
  built_version = 0;
  built_buffer = 0;
  has_build = false;
}

-- The master's loop of BuildFrameIndexKernel over one frame list: the two boxes, slot by slot.
pub fill_frames : List ℕ → ℕ → ℕ → Box ℕ × Box ℕ → Box ℕ × Box ℕ
fill_frames [] slot block boxes = boxes
fill_frames (frame ∷ rest) slot block (ptrs, owners) =
    fill_frames rest (suc slot) block (update ptrs slot frame, update owners slot block)

-- BuildFrameIndexKernel, for one block.
pub build_frame_index : Box (List ℕ) → ℕ → Box ℕ → ℕ → Box ℕ × Box ℕ → Box ℕ × Box ℕ
build_frame_index frames num_regions scan block boxes =
    if leb num_regions block
    then boxes
    else fill_frames (frames block) (if block == 0 then 0 else scan (block - 1)) block boxes

-- ensureRegionCapacity
pub ensure_region_capacity : Box ℕ → ℕ → FrameIndex → FrameIndex
ensure_region_capacity fresh needed idx = elim idx.frames_per_region [
  | none ↦ record idx { region_capacity = needed; frames_per_region = some fresh }
  | some counts ↦
      if leb needed idx.region_capacity
      then idx
      else record idx { region_capacity = needed; frames_per_region = some fresh }
]

-- `while(newCapacity < needed) newCapacity *= 2u;` in uint32_t; `none` means that the fuel ran out.
pub grow : ℕ → ℕ → ℕ → Option ℕ
grow zero capacity needed = if ltb capacity needed then none else some capacity
grow (suc fuel) capacity needed =
    let next = grow fuel ((capacity * 2) % u32) needed in
    if ltb capacity needed then next else some capacity

-- The capacity that a request for `needed` slots leads to. 32 rounds shift every bit out.
pub new_capacity : ℕ → ℕ → Option ℕ
unfolding grow
new_capacity capacity needed = grow 32 (if capacity == 0 then needed else capacity) needed

-- ensureFrameCapacity; `none` where the loop does not end, or the buffers' size, as an `int`, is
-- negative.
pub ensure_frame_capacity : Device → ℕ → FrameIndex → Option FrameIndex
ensure_frame_capacity dev needed idx = elim idx.frame_ptrs [
  | none ↦ allocate
  | some ptrs ↦ if leb needed idx.frame_capacity then some idx else allocate
]
  where
    allocate : Option FrameIndex
    allocate = do
      capacity ← new_capacity idx.frame_capacity needed
      (if ltb capacity i31
          then some (record idx {
            frame_capacity = capacity;
            frame_ptrs = some dev.fresh_ptrs;
            region_idx_per_frame = some dev.fresh_owners;
          })
          else none)

module _ {V : Type 0} where
  abbrev pub frames_of : Box (Region V) → Box (List ℕ)
  frames_of regions r = (regions r).frames

  -- The count kernel, if there are regions; else the host writes a zero.
  pub count : Device → RegionBuffer (Region V) → Box ℕ → Option (Box ℕ)
  count dev b counts =
      if ltb 0 b.size
      then (do
        regions ← get_device_data_box b
        some (run_blocks (count_frames (frames_of regions) b.size) dev.count_order counts))
      else some (update counts 0 0)

  -- The fill kernel, if there are regions and frames.
  pub fill : Device → RegionBuffer (Region V) → ℕ → Box ℕ → Box ℕ × Box ℕ → Option (Box ℕ × Box ℕ)
  fill dev b total scan boxes =
      if ltb 0 b.size && ltb 0 total
      then (do
        regions ← get_device_data_box b
        some (run_blocks (build_frame_index (frames_of regions) b.size scan) dev.fill_order boxes))
      else some boxes

  -- rebuildSender, run to its completion.
  pub rebuild : Device → RegionBuffer (Region V) → FrameIndex → Option FrameIndex
  rebuild dev b idx = do
    let sized = ensure_region_capacity dev.fresh_counts (max b.size 1) idx
    zeroed ← sized.frames_per_region
    counts ← count dev b zeroed
    let scanned = inclusive_scan_host counts b.size
    let totalled = record sized { frames_per_region = some scanned.0; total_frames = scanned.1 }
    grown ← ensure_frame_capacity dev (max scanned.1 1) totalled
    ptrs ← grown.frame_ptrs
    owners ← grown.region_idx_per_frame
    filled ← fill dev b scanned.1 scanned.0 (ptrs, owners)
    some (record grown {
      frame_ptrs = some filled.0;
      region_idx_per_frame = some filled.1;
      built_version = b.topology_version;
      built_buffer = b.address;
      has_build = true;
    })

  unfoldable pub is_fresh : RegionBuffer (Region V) → FrameIndex → Bool
  is_fresh b idx =
      idx.has_build && (idx.built_buffer == b.address) && (idx.built_version == b.topology_version)

  -- refreshIfStale, and the start of the sender of refreshIfStaleSender.
  pub refresh_if_stale : Device → RegionBuffer (Region V) → FrameIndex → Option FrameIndex
  unfolding is_fresh
  refresh_if_stale dev b idx = if is_fresh b idx then some idx else rebuild dev b idx
