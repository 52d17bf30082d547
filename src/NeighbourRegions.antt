-- ===== src/NeighbourRegions.antt =====
-- packages/pmacc/include/spmacc/particles/regions/NeighbourRegions.hpp and NeighbourEntry.hpp: the
-- neighbour lists of a target's regions in a source, as offsets and one array of region indices. A
-- kernel counts, the host scans, a second kernel writes. Whether two regions meet is a parameter.
-- The workers of a block interleave freely; a schedule names the worker of each turn.
pub mod Count
pub mod Stride
pub mod Write
pub mod Schedule
pub mod Lists
mod Tests
use spearhed.Base.{
  ℕ, zero, suc, ◌+◌, ◌%◌, Box, update, u32, i31, ltb, leb, ◌&&◌, Bool, true, false, Option, none,
  some, List, [], ◌∷◌, if◌then◌else◌, run_blocks,
}
use spearhed.FrameDispatch.{inclusive_scan_host}
use spearhed.TreeReduce.{tree_reduce}
use spearhed.TreeReduce.Tree.{add_u32}

-- `for(otherIdx = threadIdx; otherIdx < numSourceRegions; otherIdx += numWorkers)` of the counting
-- kernel; `none` means that the fuel ran out.
unfoldable pub count_strided : ℕ → Box Bool → ℕ → ℕ → ℕ → ℕ → Option ℕ
count_strided zero meets num_sources workers other count = none
count_strided (suc fuel) meets num_sources workers other count =
    let rest =
      count_strided fuel meets num_sources workers (other + workers)
        (if meets other then (count + 1) % u32 else count) in
    if ltb other num_sources then rest else some count

-- kMaxThreads, the entries of the shared array.
abbrev pub max_threads : ℕ
max_threads = 64

-- The workers' local counts in shared memory; `none` where a worker's loop ran out of fuel, or its
-- count has no place in the shared array.
unfoldable pub local_counts : Box Bool → ℕ → ℕ → ℕ → Box ℕ → Option (Box ℕ)
local_counts meets num_sources workers zero counts = some counts
local_counts meets num_sources workers (suc thread) counts =
    elim (local_counts meets num_sources workers thread counts) [
      | none ↦ none
      | some filled ↦ elim (count_strided (num_sources + 1) meets num_sources workers thread 0) [
        | none ↦ none
        | some n ↦ if ltb thread max_threads then some (update filled thread n) else none
      ]
    ]

-- FindNeighbourRegionsFunctor<OpMode::Count>, for one block; `shared` is what the shared memory
-- held.
unfoldable pub count_block :
    (ℕ → Box Bool) → ℕ → ℕ → ℕ → List ℕ → Box ℕ → ℕ → Box ℕ → Option (Box ℕ)
count_block meets num_targets num_sources workers order shared block offsets =
    if leb num_targets block
    then some offsets
    else elim (local_counts (meets block) num_sources workers workers shared) [
      | none ↦ none
      | some counts ↦ elim (tree_reduce add_u32 workers order counts) [
        | none ↦ none
        | some reduced ↦ some (update offsets (block + 1) (reduced 0))
      ]
    ]

-- A block of the writing kernel that is under way: every worker's `otherIdx`, the shared counter
-- and the array.
pub record Writer : Type 0 where
  pub cursor : Box ℕ
  pub write_ptr : ℕ
  pub neighbours : Box ℕ

-- One round of a worker's loop.
unfoldable pub write_turn : Box Bool → ℕ → ℕ → ℕ → Writer → Writer
write_turn meets num_sources workers thread w =
    if ltb (w.cursor thread) num_sources
    then if meets (w.cursor thread)
      then record {
        cursor = update w.cursor thread (w.cursor thread + workers);
        write_ptr = (w.write_ptr + 1) % u32;
        neighbours = update w.neighbours w.write_ptr (w.cursor thread);
      }
      else record w { cursor = update w.cursor thread (w.cursor thread + workers) }
    else w

-- FindNeighbourRegionsFunctor<OpMode::Write>, for one block whose region's offset is `start`: the
-- turns of the schedule after the first barrier.
unfoldable pub write_block : Box Bool → ℕ → ℕ → List ℕ → ℕ → Box ℕ → Writer
write_block meets num_sources workers schedule start neighbours =
    run_blocks (write_turn meets num_sources workers) schedule
      (record { cursor = λ thread. thread; write_ptr = start; neighbours = neighbours })

-- What a build of the lists runs on: the workers of a block, their order between barriers, the
-- shared memory's and the array's old content, the order of the blocks, and each block's schedule.
pub record Run : Type 0 where
  pub workers : ℕ
  pub thread_order : List ℕ
  pub shared : Box ℕ
  pub fresh : Box ℕ
  pub count_order : List ℕ
  pub write_order : List ℕ
  pub schedule : ℕ → List ℕ

-- NeighbourEntry, less the pointer to the source.
pub record NeighbourEntry : Type 0 where
  pub neighbour_regions : Box ℕ
  pub region_offsets : Box ℕ

module _ (run : Run) (meets : ℕ → Box Bool) (num_targets num_sources : ℕ) where
  unfoldable pub count_launch : List ℕ → Box ℕ → Option (Box ℕ)
  count_launch [] offsets = some offsets
  count_launch (b ∷ order) offsets =
      elim (count_block meets num_targets num_sources run.workers run.thread_order run.shared b
        offsets) [ none ↦ none | some counted ↦ count_launch order counted ]

  unfoldable pub write_step : Box ℕ → ℕ → Box ℕ → Box ℕ
  write_step offsets block neighbours =
      if leb num_targets block
      then neighbours
      else (write_block (meets block) num_sources run.workers (run.schedule block) (offsets block)
          neighbours).neighbours

  -- The counting launch of calculateNeighbourEntrySender, over offsets that were set to zero.
  unfoldable pub count_pairs : Option (Box ℕ)
  count_pairs =
      if ltb 0 num_targets && ltb 0 num_sources
      then count_launch run.count_order (λ j. 0)
      else some (λ j. 0)

  -- What follows it: the scan and the writing launch; `none` where the size of the array, as an
  -- `int`, is negative.
  unfoldable pub write_pairs : Box ℕ → Option NeighbourEntry
  write_pairs counts =
      let (offsets, total) = inclusive_scan_host counts (num_targets + 1) in
      if ltb total i31
      then some (record {
        neighbour_regions =
            if ltb 0 num_targets && ltb 0 total
            then run_blocks (write_step offsets) run.write_order run.fresh
            else run.fresh;
        region_offsets = offsets;
      })
      else none

  -- calculateNeighbourEntrySender
  unfoldable pub calculate_neighbour_entry : Option NeighbourEntry
  calculate_neighbour_entry = elim count_pairs [ none ↦ none | some counts ↦ write_pairs counts ]
