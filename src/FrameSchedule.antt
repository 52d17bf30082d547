-- ===== src/FrameSchedule.antt =====
-- packages/pmacc/include/spmacc/particles/algorithms/FrameSchedule.hpp and LaunchForEach.hpp, with
-- the indexed launch of FrameDispatch.hpp: which block handles which frame, and the launch that
-- calls a body once for each particle. alpaka's makeIdxMap and PMacc's distribution of a frame's
-- slots over the workers are parameters; the blocks of a launch run in any given order.
pub mod Update
pub mod Launch
pub mod Keeps
pub mod Tests
use spearhed.Base.{
  ℕ, zero, suc, Box, ltb, leb, ◌==◌, ◌||◌, Bool, Option, none, some, List, [], ◌∷◌, if◌then◌else◌,
  run_blocks, i31,
}
use spearhed.FrameDispatch.{Grid, one_block_per_frame, num_blocks}
use spearhed.FrameIndex.{FrameIndex, Device, empty, rebuild, is_fresh}
use spearhed.RegionBuffer.{Region, RegionBuffer}

-- The layouts that the schedules ask alpaka for.
pub data Layout : Type 0 where
  strided contiguous_layout : Layout

pub data Schedule : Type 0 where
  one_to_one grid_stride contiguous : Schedule

-- The indices that `makeIdxMap` gives a block, by the layout, the range, the grid and the block.
abbrev pub IdxMap : Type 0
IdxMap = Layout → ℕ → ℕ → ℕ → List ℕ

-- The indices that a schedule has a block handle, in their order.
unfoldable pub schedule_frames : IdxMap → Schedule → ℕ → ℕ → ℕ → List ℕ
schedule_frames idx_map one_to_one total grid block = if ltb block total then block ∷ [] else []
schedule_frames idx_map grid_stride total grid block = idx_map strided total grid block
schedule_frames idx_map contiguous total grid block = idx_map contiguous_layout total grid block

pub record ForEachConfig : Type 0 where
  pub schedule : Schedule
  pub grid : Grid

abbrev pub default_for_each : ForEachConfig
default_for_each = record { schedule = grid_stride; grid = one_block_per_frame }

module _ {S : Type 0} where
  -- forEachBlockFrame; the count is an `int`, negative from 2 ^ 31 on.
  unfoldable pub for_each_block_frame : IdxMap → Schedule → Box ℕ → ℕ → ℕ → ℕ → (ℕ → S → S) → S → S
  for_each_block_frame idx_map schedule frame_ptrs total grid block frame_body s =
      if (total == 0) || leb i31 total
      then s
      else run_blocks (λ g. frame_body (frame_ptrs g))
          (schedule_frames idx_map schedule total grid block) s

  -- lockstepForEachParticle: the slots of a frame in the order that they are worked off.
  unfoldable pub lockstep_for_each_particle :
      (S → ℕ → ℕ → Bool) → List ℕ → (ℕ → ℕ → S → S) → ℕ → S → S
  lockstep_for_each_particle occupied slot_order body frame s =
      run_blocks (λ slot t. if occupied t frame slot then body frame slot t else t) slot_order s

  -- launchForEachFrameInBlockIndexed for the frames alone; `none` where the assertion fails or the
  -- index has no boxes. `order` is the order of the blocks of a grid.
  unfoldable pub launch_for_each_frame_in_block_indexed :
      {V : Type 0}
      → Grid
      → RegionBuffer (Region V)
      → FrameIndex
      → (ℕ → List ℕ)
      → (Box ℕ → ℕ → ℕ → ℕ → S → S)
      → S
      → Option S
  launch_for_each_frame_in_block_indexed grid b idx order kernel s =
      if is_fresh b idx
      then if idx.total_frames == 0 then some s else elim idx.frame_ptrs [
        | none ↦ none
        | some ptrs ↦
            let size = num_blocks grid idx.total_frames in
            some (run_blocks (kernel ptrs idx.total_frames size) (order size) s)
      ]
      else none

  -- HierarchyForEachKernel at the particles
  unfoldable pub for_each_kernel :
      IdxMap
      → ForEachConfig
      → (S → ℕ → ℕ → Bool)
      → List ℕ
      → (ℕ → ℕ → S → S)
      → Box ℕ
      → ℕ
      → ℕ
      → ℕ
      → S
      → S
  for_each_kernel idx_map cfg occupied slot_order body ptrs total grid block =
      for_each_block_frame idx_map cfg.schedule ptrs total grid block
        (lockstep_for_each_particle occupied slot_order body)

  -- launchForEach at the particles
  unfoldable pub launch_for_each :
      {V : Type 0}
      → IdxMap
      → ForEachConfig
      → (S → ℕ → ℕ → Bool)
      → List ℕ
      → (ℕ → List ℕ)
      → RegionBuffer (Region V)
      → FrameIndex
      → (ℕ → ℕ → S → S)
      → S
      → Option S
  launch_for_each idx_map cfg occupied slot_order order b idx body s =
      launch_for_each_frame_in_block_indexed cfg.grid b idx order
        (for_each_kernel idx_map cfg occupied slot_order body) s

  -- launchForEach with an index of its own, which is rebuilt from an empty one.
  unfoldable pub launch_for_each_once :
      {V : Type 0}
      → Device
      → IdxMap
      → ForEachConfig
      → (S → ℕ → ℕ → Bool)
      → List ℕ
      → (ℕ → List ℕ)
      → RegionBuffer (Region V)
      → (ℕ → ℕ → S → S)
      → S
      → Option S
  launch_for_each_once dev idx_map cfg occupied slot_order order b body s =
      if b.size == 0 then some s else elim (rebuild dev b empty) [
        | none ↦ none
        | some idx ↦ launch_for_each idx_map cfg occupied slot_order order b idx body s
      ]
