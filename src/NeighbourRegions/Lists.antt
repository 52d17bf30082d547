-- ===== src/NeighbourRegions/Lists.antt =====
-- The build of the neighbour lists: every target's slice holds the sources that it meets.
use spearhed.Base.{
  ℕ, suc, ◌+◌, ◌≤◌, ◌<◌, ◌≡◌, Box, update, leb, Bool, true, if◌then◌else◌, All, Covers, Distinct,
  prefix_sum, u32, i31,
}
use spearhed.TreeReduce.Tree.{pow2}
use spearhed.NeighbourRegions.{Run, NeighbourEntry, max_threads, write_step}
use spearhed.NeighbourRegions.Count.{num_meets}
use spearhed.NeighbourRegions.Schedule.{turns}

-- The slots from `low` to `high` list the first `n` sources that meet, each once.
pub record IsSlice (meets : Box Bool) (n low high : ℕ) (box : Box ℕ) : Type 0 where
  pub sound : (j : ℕ) → low ≤ j → j < high → (box j < n) × (meets (box j) ≡ true)
  pub complete : (i : ℕ) → i < n → meets i ≡ true → (j : ℕ) × (low ≤ j) × (j < high) × (box j ≡ i)
  pub once : (j k : ℕ) → low ≤ j → j < high → low ≤ k → k < high → box j ≡ box k → j ≡ k

-- What a build takes for granted of its run.
pub record IsFair (run : Run) (num_targets num_sources : ℕ) : Type 0 where
  pub exponent : ℕ
  pub power_of_two : run.workers ≡ pow2 exponent
  pub few_workers : run.workers ≤ max_threads
  pub threads_covered : Covers run.workers run.thread_order
  pub threads_once : Distinct run.thread_order
  pub counts_covered : Covers num_targets run.count_order
  pub writes_covered : Covers num_targets run.write_order
  pub writes_once : Distinct run.write_order
  pub own_workers : (b : ℕ) → All (λ t. t < run.workers) (run.schedule b)
  pub enough_turns : (b t : ℕ) → t < run.workers → num_sources ≤ turns t (run.schedule b)

module _ (run : Run) (meets : ℕ → Box Bool) (num_targets num_sources : ℕ)
    (fair : IsFair run num_targets num_sources) (small : num_sources + max_threads ≤ i31) where
  abbrev nums : Box ℕ
  nums b = num_meets (meets b) num_sources

  abbrev count_step : ℕ → Box ℕ → Box ℕ
  count_step b offsets = if leb num_targets b then offsets else update offsets (b + 1) (nums b)

  -- What the counts are before the scan.
  abbrev Counted : Box ℕ → Type 0
  Counted counts = (counts 0 ≡ 0) × ((b : ℕ) → b < num_targets → counts (suc b) ≡ nums b)

  module _ (fits : prefix_sum nums num_targets < u32) (offsets : Box ℕ)
      (scanned : (j : ℕ) → j ≤ num_targets → offsets j ≡ prefix_sum nums j) where
    abbrev Slice : ℕ → Box ℕ → Type 0
    Slice b = IsSlice (meets b) num_sources (prefix_sum nums b) (prefix_sum nums b + nums b)

    abbrev step : ℕ → Box ℕ → Box ℕ
    step = write_step run meets num_targets num_sources offsets

  abbrev pub Lists : NeighbourEntry → Type 0
  Lists entry =
      (b : ℕ)
      → b < num_targets
      → IsSlice (meets b) num_sources (entry.region_offsets b) (entry.region_offsets (b + 1))
          entry.neighbour_regions
