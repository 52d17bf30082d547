-- ===== src/TreeReduce.antt =====
-- The block-wide tree reduction in shared memory that
-- packages/pmacc/include/spmacc/particles/regions/NeighbourRegions.hpp and RegionBoundsUpdate.hpp
-- share. Between two barriers the threads run one after another, in a given order.
pub mod Tree
use spearhed.Base.{
  ℕ, zero, suc, ◌+◌, ◌/◌, Box, update, ltb, ◌==◌, Option, none, some, List, if◌then◌else◌,
  run_blocks,
}

module _ {X : Type 0} (op : X → X → X) where
  -- A thread's turn between two barriers.
  unfoldable pub reduce_step : ℕ → ℕ → Box X → Box X
  reduce_step s thread box =
      if ltb thread s then update box thread (op (box thread) (box (thread + s))) else box

  -- `for(s = ...; s > 0; s >>= 1)`; `none` means that the fuel ran out.
  unfoldable pub reduce_loop : ℕ → List ℕ → ℕ → Box X → Option (Box X)
  reduce_loop zero order s box = none
  reduce_loop (suc fuel) order s box =
      let rest = reduce_loop fuel order (s / 2) (run_blocks (reduce_step s) order box) in
      if s == 0 then some box else rest

  -- The reduction of the entries of `workers` threads.
  unfoldable pub tree_reduce : ℕ → List ℕ → Box X → Option (Box X)
  tree_reduce workers order box = reduce_loop (workers + 1) order (workers / 2) box
