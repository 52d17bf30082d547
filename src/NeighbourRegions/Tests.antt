-- ===== src/NeighbourRegions/Tests.antt =====
-- Three targets and three sources on a line, two workers; and the theorems there.
use spearhed.Base.{
  ℕ, suc, ◌+◌, ◌-◌, ◌≤◌, ◌≡◌, refl, arith, Box, update, leb, ◌==◌, ◌&&◌, Bool, true, Option, some,
  List, [], ◌∷◌, if◌then◌else◌, Covers, Distinct, ◌≤◌,
}
use spearhed.NeighbourRegions.{Run, count_block, write_block}
use spearhed.NeighbourRegions.Count.{num_meets, count_block-num_meets}
use spearhed.NeighbourRegions.Lists.{Lists}

-- Regions at most one apart meet.
abbrev close : ℕ → Box Bool
close b i = leb b (i + 1) && leb i (b + 1)

-- Two workers that take turns out of step.
abbrev schedule : List ℕ
schedule = 1 ∷ 0 ∷ 0 ∷ 1 ∷ 1 ∷ 0 ∷ []

threads : Covers 2 (1 ∷ 0 ∷ [])
threads b lt = ground arith

count_block-num_meets_example :
    count_block close 3 3 2 (1 ∷ 0 ∷ []) (λ t. 9) 0 (λ j. 0)
    ≡ some (update (λ j. 0) 1 (num_meets (close 0) 3))
count_block-num_meets_example =
    count_block-num_meets close 3 3 1 (1 ∷ 0 ∷ []) (λ t. 9) 0 (λ j. 0) (omega arith) (omega arith)
      threads (refl, (refl, tt)) (omega arith)

-- Source 1 is written first here.
first_entry : (write_block (close 0) 3 2 schedule 5 (λ j. 9)).neighbours 5 ≡ 1
unfolding write_block spearhed.Base.run_blocks spearhed.NeighbourRegions.write_turn
first_entry = refl

abbrev run : Run
run = record {
  workers = 2;
  thread_order = 1 ∷ 0 ∷ [];
  shared = λ t. 9;
  fresh = λ j. 9;
  count_order = 2 ∷ 0 ∷ 1 ∷ [];
  write_order = 1 ∷ 2 ∷ 0 ∷ [];
  schedule = λ b. schedule;
}
