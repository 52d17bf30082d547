-- ===== src/NeighbourRegions/Schedule.antt =====
-- The writing kernel: whatever the interleaving of its workers, a block writes the sources that its
-- region meets, each once.
use spearhed.Base.{
  ℕ, ◌+◌, ◌≤◌, ◌<◌, ◌≡◌, ◌⊎◌, Box, ◌==◌, Bool, true, List, [], ◌∷◌, if◌then◌else◌, u32,
}
use spearhed.NeighbourRegions.{Writer}
use spearhed.NeighbourRegions.Count.{num_meets}
use spearhed.NeighbourRegions.Write.{Inv}

-- How many turns a worker has.
abbrev pub turns : ℕ → List ℕ → ℕ
turns t [] = 0
turns t (c ∷ cs) = (if t == c then 1 else 0) + turns t cs

module _ (meets : Box Bool) (n workers : ℕ) (positive : 0 < workers) (start : ℕ) (junk : Box ℕ)
    (fits : start + num_meets meets n < u32) where
  abbrev Holds : Writer → Type 0
  Holds = Inv meets n workers positive start junk fits

  -- The entries that a block left.
  pub record IsExact (w : Writer) : Type 0 where
    pub filled : w.write_ptr ≡ start + num_meets meets n
    pub sound :
        (j : ℕ)
        → start ≤ j
        → j < start + num_meets meets n
        → (w.neighbours j < n) × (meets (w.neighbours j) ≡ true)
    pub complete :
        (i : ℕ)
        → i < n
        → meets i ≡ true
        → (j : ℕ) × (start ≤ j) × (j < start + num_meets meets n) × (w.neighbours j ≡ i)
    pub once :
        (j k : ℕ)
        → start ≤ j
        → j < start + num_meets meets n
        → start ≤ k
        → k < start + num_meets meets n
        → w.neighbours j ≡ w.neighbours k
        → j ≡ k
    pub others : (j : ℕ) → (j < start) ⊎ (start + num_meets meets n ≤ j) → w.neighbours j ≡ junk j
