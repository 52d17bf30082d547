-- ===== src/Neighbourhood/Tests.antt =====
-- Two regions on a line that look for their neighbours.
use spearhed.Base.{ℕ, List, [], ◌∷◌}
use spearhed.NeighbourRegions
use spearhed.NeighbourRegions.Lists

abbrev schedule : List ℕ
schedule = 1 ∷ 0 ∷ 0 ∷ 1 ∷ []

abbrev lists_run : NeighbourRegions.Run
lists_run = record {
  workers = 2;
  thread_order = 1 ∷ 0 ∷ [];
  shared = λ t. 9;
  fresh = λ j. 9;
  count_order = 0 ∷ 1 ∷ [];
  write_order = 1 ∷ 0 ∷ [];
  schedule = λ b. schedule;
}
