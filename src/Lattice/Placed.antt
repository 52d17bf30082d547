-- ===== src/Lattice/Placed.antt =====
-- Particles on a lattice.
use native.Mathlib.Nat.{div-div-eq-div-mul, mod-lt}
use spearhed.Base.{
  ℕ, zero, suc, ◌+◌, ◌*◌, ◌/◌, ◌%◌, ◌<◌, ◌≡◌, ◌≢◌, refl, sym, ap, ◌∙◌, arith, u32, Box, List, [],
  ◌∷◌, length, get_or, ==_self, ne→==,
}
use spearhed.Lattice.{
  Float, num_sc_lattice_sites, cell_centre, place_axes, place, truncate_near_integer, at_least_one,
  transverse_counts, compute_sc_cell_counts,
}
use spearhed.Lattice.Sites.{
  product, cells, Positive, mul_le, product-Positive, num_sc_lattice_sites-product, cells-injective,
}

module _ {A : Type 0} (fl : Float A) where
  place_axes-below :
      (low high : Box A) (idx : ℕ) (counts : List ℕ) (tag accum : ℕ) (pos : Box A) (t : ℕ)
      → t < tag
      → place_axes fl low high idx counts tag accum pos t ≡ pos t
  unfolding place_axes
  place_axes-below low high idx [] tag accum pos t lt = refl
  place_axes-below low high idx (n ∷ counts) tag accum pos t lt =
      place_axes-below low high idx counts (suc tag) _ _ t (omega arith)
      ∙ rw (ne→== t tag (λ e. omega arith)) refl

  -- What the loop writes on its axes.
  place_axes-cells :
      (low high : Box A) (idx : ℕ) (counts : List ℕ) (tag accum : ℕ) (pos : Box A)
      → Positive counts
      → accum * product counts < u32
      → (j : ℕ) → j < length counts
      → place_axes fl low high idx counts tag accum pos (tag + j)
        ≡ cell_centre fl
            (low (tag + j))
            (high (tag + j))
            (get_or counts j 0)
            (get_or (cells counts (idx / accum)) j 0)
  unfolding place_axes
  place_axes-cells low high idx [] tag accum pos h lt j j_lt = elim j_lt [ ]
  place_axes-cells low high idx (n ∷ counts) tag accum pos h lt zero j_lt =
      let e : tag + 0 ≡ tag = omega arith in
      rw e (
        place_axes-below low high idx counts (suc tag) _ _ tag (omega arith)
        ∙ rw (==_self tag) refl)
  place_axes-cells low high idx (n ∷ counts) tag accum pos (n_pos, rest) lt (suc j) j_lt =
      let e : tag + suc j ≡ suc tag + j = omega arith in
      let split : accum * (n * product counts) ≡ (accum * n) * product counts = grind arith in
      let below = mul_le (accum * n) (product counts) (product-Positive counts rest) in
      let same : (accum * n) % u32 ≡ accum * n = omega (arith, split, below, lt) in
      rw (e, same, div-div-eq-div-mul idx accum n)
        (place_axes-cells low high idx counts (suc tag) (accum * n) _ rest
          (omega (arith, split, lt)) j (omega arith))

  -- Rounding keeps the middles of an axis' cells apart.
  pub record KeepsApart (low high : Box A) (counts : List ℕ) : Type 0 where
    pub apart :
        (tag j k : ℕ)
        → tag < length counts
        → j < get_or counts tag 0
        → k < get_or counts tag 0
        → cell_centre fl (low tag) (high tag) (get_or counts tag 0) j
          ≡ cell_centre fl (low tag) (high tag) (get_or counts tag 0) k
        → j ≡ k

  cells_lt :
      (counts : List ℕ) (idx j : ℕ)
      → Positive counts
      → j < length counts
      → get_or (cells counts idx) j 0 < get_or counts j 0
  cells_lt [] idx j h lt = elim lt [ ]
  cells_lt (n ∷ counts) idx zero (pos, rest) lt = mod-lt idx pos
  cells_lt (n ∷ counts) idx (suc j) (pos, rest) lt = cells_lt counts (idx / n) j rest (omega arith)

  -- No two particles of a lattice are placed at one position: with positive counts whose product
  -- fits in 32 bits, and middles of cells that rounding keeps apart, the positions of two different
  -- numbers below the number of sites do not agree on every axis.
  pub place-injective :
      (low high : Box A) (counts : List ℕ) (a b : ℕ) (pos : Box A)
      → Positive counts
      → product counts < u32
      → KeepsApart low high counts
      → a < num_sc_lattice_sites counts
      → b < num_sc_lattice_sites counts
      → a ≢ b
      → ¬ (
          (tag : ℕ)
          → tag < length counts
          → place fl low high a counts pos tag ≡ place fl low high b counts pos tag)
  unfolding place
  place-injective low high counts a b pos positive fits keeps a_lt b_lt differ same =
      let (e, _) = num_sc_lattice_sites-product counts positive fits in
      differ (
        cells-injective counts a b positive (rw e at a_lt) (rw e at b_lt) (λ j lt.
          keeps.apart j _ _ lt (cells_lt counts a j positive lt) (cells_lt counts b j positive lt)
            (sym (written a j lt) ∙ same j lt ∙ written b j lt)))
    where
      written :
          (idx j : ℕ)
          → j < length counts
          → place_axes fl low high idx counts 0 1 pos j
            ≡ cell_centre fl (low j) (high j) (get_or counts j 0) (get_or (cells counts idx) j 0)
      written idx j lt =
          let e : 0 + j ≡ j = omega arith in
          let d : idx / 1 ≡ idx = omega arith in
          rw (e, d) at (place_axes-cells low high idx counts 0 1 pos positive (omega arith) j lt)

  at_least_one_pos : (n : ℕ) → 0 < at_least_one n
  at_least_one_pos n = ground arith

  transverse-Positive :
      (spacing : A) (extents : List A) → Positive (transverse_counts fl spacing extents)
  unfolding transverse_counts
  transverse-Positive spacing [] = tt
  transverse-Positive spacing (l ∷ extents) = (
    at_least_one_pos (fl.to_count (fl.plus (fl.divide l spacing) fl.half)),
    transverse-Positive spacing extents,
  )

  transverse-length :
      (spacing : A) (extents : List A)
      → length (transverse_counts fl spacing extents) ≡ length extents
  unfolding transverse_counts
  transverse-length spacing [] = refl
  transverse-length spacing (l ∷ extents) = ap suc (transverse-length spacing extents)

  -- The counts for a spacing are one per axis and never zero, whatever the scalars do; so while
  -- their product fits in 32 bits the lattice has a site.
  pub compute_sc_cell_counts-Positive :
      (lx : A) (extents : List A) (spacing : A)
      → (length (compute_sc_cell_counts fl lx extents spacing) ≡ suc (length extents))
        × Positive (compute_sc_cell_counts fl lx extents spacing)
        × (product (compute_sc_cell_counts fl lx extents spacing) < u32
            → 0 < num_sc_lattice_sites (compute_sc_cell_counts fl lx extents spacing))
  unfolding compute_sc_cell_counts
  compute_sc_cell_counts-Positive lx extents spacing =
      let positive : Positive (compute_sc_cell_counts fl lx extents spacing) = (
        at_least_one_pos (truncate_near_integer fl (fl.divide lx spacing)),
        transverse-Positive spacing extents,
      ) in
      let counts = compute_sc_cell_counts fl lx extents spacing in
      (
        ap suc (transverse-length spacing extents),
        positive,
        λ fits.
            let (e, _) = num_sc_lattice_sites-product counts positive fits in
            rw e (product-Positive counts positive),
      )
