-- ===== src/Lattice/Tests.antt =====
-- A lattice of 3 by 2 cells, with whole numbers for scalars.
use spearhed.Base.{
  ℕ, ◌+◌, ◌-◌, ◌*◌, ◌/◌, ◌<◌, ◌≡◌, refl, zero, suc, arith, u32, ltb, leb, List, [], ◌∷◌, length,
  get_or,
}
use spearhed.Lattice.{Float, num_sc_lattice_sites, cell_centre, place, compute_sc_cell_counts}
use spearhed.Lattice.Sites.{product, Positive}
use spearhed.Lattice.Placed.{KeepsApart, place-injective, compute_sc_cell_counts-Positive}

abbrev whole : Float ℕ
whole = record {
  below = ltb;
  at_most = leb;
  plus = λ a b. a + b;
  minus = λ a b. a - b;
  times = λ a b. a * b;
  divide = λ a b. a / b;
  pow = λ a b. a;
  of_count = λ n. n * 2;
  to_count = λ a. a / 2;
  zero_scalar = 0;
  half = 1;
  one_scalar = 2;
  four_epsilon = 0;
}

abbrev counts : List ℕ
counts = 3 ∷ 2 ∷ []

positive : Positive counts
positive = (omega arith, (omega arith, tt))

middles_apart :
    (tag j k : ℕ)
    → tag < 2
    → cell_centre whole 0 60 (get_or counts tag 0) j
      ≡ cell_centre whole 0 60 (get_or counts tag 0) k
    → j ≡ k
unfolding cell_centre
middles_apart zero j k lt e = omega arith
middles_apart (suc zero) j k lt e = omega arith
middles_apart (suc (suc tag)) j k lt e = absurd (omega arith)

apart : KeepsApart whole (λ tag. 0) (λ tag. 60) counts
apart = record { apart = λ tag j k t_lt j_lt k_lt e. middles_apart tag j k t_lt e }

place-injective_example : ¬ (
    (tag : ℕ)
    → tag < 2
    → place whole (λ _. 0) (λ _. 60) 4 counts (λ _. 0) tag
      ≡ place whole (λ _. 0) (λ _. 60) 1 counts (λ _. 0) tag)
place-injective_example =
    place-injective whole (λ _. 0) (λ _. 60) counts 4 1 (λ _. 0) positive (omega arith) apart
      (unfold num_sc_lattice_sites in omega arith) (unfold num_sc_lattice_sites in omega arith)
      (λ e. omega arith)

placed : place whole (λ _. 0) (λ _. 60) 4 counts (λ _. 0) 1 ≡ 45
unfolding place spearhed.Lattice.place_axes cell_centre
placed = refl

compute_sc_cell_counts-Positive_example :
    (length (compute_sc_cell_counts whole 60 (40 ∷ []) 20) ≡ 2)
    × Positive (compute_sc_cell_counts whole 60 (40 ∷ []) 20)
    × (product (compute_sc_cell_counts whole 60 (40 ∷ []) 20) < u32
        → 0 < num_sc_lattice_sites (compute_sc_cell_counts whole 60 (40 ∷ []) 20))
compute_sc_cell_counts-Positive_example = compute_sc_cell_counts-Positive whole 60 (40 ∷ []) 20
