-- ===== src/Domain/Layout.antt =====
-- Ranks on a grid: what the sums over all ranks amount to.
use native.Mathlib.Nat.{mul-div_cancel_left}
use native.Mathlib.Decide.{dec_lt, ℕ_discrete}
use spearhed.Base.{
  ℕ, zero, suc, ◌+◌, ◌-◌, ◌*◌, ◌/◌, ◌%◌, ◌<◌, ◌≤◌, ◌≡◌, refl, sym, ap, ◌∙◌, arith, Box, ltb, ◌==◌,
  u32, u64, i31, List, [], ◌∷◌, All, if◌then◌else◌, prefix_sum, prefix_sum_congr, prefix_sum_mono,
  lt→ltb, le→ltb, ==_self, ne→==,
}
use spearhed.TreeReduce.Tree.{prefix_sum_plus}
use spearhed.Domain.{
  Rank, Adjuster, int_div, sum_local_sizes, sum_below, ranks_per_slice, valid_global_grid_size,
}
use spearhed.Domain.Adjust.{offset}

-- How many ranks have the position.
abbrev pub ranks_at : ℕ → ℕ → List Rank → ℕ
ranks_at dim q [] = 0
ranks_at dim q (r ∷ ranks) = (if r.position dim == q then 1 else 0) + ranks_at dim q ranks

-- The slice's size, for as many ranks as it has.
abbrev weight : Box ℕ → ℕ → List Rank → Box ℕ
weight size dim ranks q = ranks_at dim q ranks * size q

one_rank :
    (size : Box ℕ) (p n : ℕ)
    → prefix_sum (λ q. (if p == q then 1 else 0) * size q) n ≡ (if ltb p n then size p else 0)
unfolding prefix_sum
one_rank size p zero = rw (le→ltb p 0 (omega arith)) refl
one_rank size p (suc n) = elim (ℕ_discrete p n) [
  | yes e ↦
      let before : prefix_sum (λ q. (if p == q then 1 else 0) * size q) n ≡ 0 =
        rw (le→ltb p n (omega arith)) at (one_rank size p n) in
      rw (e, ==_self n, lt→ltb n (suc n) (omega arith)) (omega (arith, before))
  | no ne ↦ rw (ne→== p n ne) (elim (dec_lt p n) [
    | yes lt ↦
        rw (lt→ltb p (suc n) (omega arith))
          (omega (arith, rw (lt→ltb p n lt) at (one_rank size p n)))
    | no ge ↦
        rw (le→ltb p (suc n) (omega arith))
          (omega (arith, rw (le→ltb p n (omega arith)) at (one_rank size p n)))
  ])
]

no_ranks : (size : Box ℕ) (n : ℕ) → prefix_sum (λ q. 0 * size q) n ≡ 0
unfolding prefix_sum
no_ranks size zero = refl
no_ranks size (suc n) = omega (arith, no_ranks size n)

weight-cons :
    (size : Box ℕ) (dim : ℕ) (r : Rank) (ranks : List Rank) (n : ℕ)
    → prefix_sum (weight size dim (r ∷ ranks)) n
      ≡ (if ltb (r.position dim) n then size (r.position dim) else 0)
        + prefix_sum (weight size dim ranks) n
weight-cons size dim r ranks n =
    prefix_sum_congr _ _ n
      (λ q lt. times_plus (if r.position dim == q then 1 else 0) (ranks_at dim q ranks) (size q))
    ∙ prefix_sum_plus (λ q. (if r.position dim == q then 1 else 0) * size q) (weight size dim ranks)
        n
    ∙ ap (λ k. k + prefix_sum (weight size dim ranks) n) (one_rank size (r.position dim) n)
  where
    times_plus : (a b c : ℕ) → (a + b) * c ≡ a * c + b * c
    times_plus a b c = grind arith

-- Every rank has the size of its slice.
abbrev pub BySlice : Box ℕ → ℕ → List Rank → Type 0
BySlice size dim ranks = All {0, 0} (λ r. r.local_size dim ≡ size (r.position dim)) ranks

abbrev Within : ℕ → ℕ → List Rank → Type 0
Within dim n ranks = All {0, 0} (λ r. r.position dim < n) ranks

sum_local_sizes-weight :
    (size : Box ℕ) (dim n : ℕ) (ranks : List Rank)
    → BySlice size dim ranks
    → Within dim n ranks
    → prefix_sum (weight size dim ranks) n < u32
    → sum_local_sizes dim ranks ≡ prefix_sum (weight size dim ranks) n
unfolding sum_local_sizes
sum_local_sizes-weight size dim n [] h w small = sym (no_ranks size n)
sum_local_sizes-weight size dim n (r ∷ ranks) (same, h) (lt, w) small =
    let cons = rw (lt→ltb (r.position dim) n lt) at (weight-cons size dim r ranks n) in
    omega (
      arith,
      cons,
      same,
      small,
      sum_local_sizes-weight size dim n ranks h w (omega (arith, cons, small)),
    )

sum_below-weight :
    (size : Box ℕ) (dim n acc : ℕ) (ranks : List Rank)
    → BySlice size dim ranks
    → acc + prefix_sum (weight size dim ranks) n < u64
    → sum_below dim n ranks acc ≡ acc + prefix_sum (weight size dim ranks) n
unfolding sum_below
sum_below-weight size dim n acc [] h small = omega (arith, no_ranks size n)
sum_below-weight size dim n acc (r ∷ ranks) (same, h) small = elim (dec_lt (r.position dim) n) [
  | yes lt ↦
      let cons = rw (lt→ltb (r.position dim) n lt) at (weight-cons size dim r ranks n) in
      let next : (acc + r.local_size dim) % u64 ≡ acc + r.local_size dim =
        omega (arith, cons, same, small) in
      rw (lt→ltb (r.position dim) n lt, next)
        (sum_below-weight size dim n (acc + r.local_size dim) ranks h
            (omega (arith, cons, same, small))
          ∙ omega (arith, cons, same))
  | no ge ↦
      let over = le→ltb (r.position dim) n (omega arith) in
      let cons = rw over at (weight-cons size dim r ranks n) in
      rw over
        (sum_below-weight size dim n acc ranks h (omega (arith, cons, small)) ∙ omega (arith, cons))
]

scaled_sum :
    (size count : Box ℕ) (m n : ℕ)
    → ((q : ℕ) → q < n → count q ≡ m)
    → prefix_sum (λ q. count q * size q) n ≡ m * prefix_sum size n
unfolding prefix_sum
scaled_sum size count m zero h = omega arith
scaled_sum size count m (suc n) h =
    let ih = scaled_sum size count m n (λ q lt. h q (omega arith)) in
    let e : m * (prefix_sum size n + size n) ≡ m * prefix_sum size n + m * size n = grind arith in
    rw (h n (omega arith)) (omega (arith, ih, e))

module _ (a : Adjuster) (world : List Rank) (dim : ℕ) (size : Box ℕ) where
  -- The ranks fill the grid of devices, and those of a slice have one size.
  pub record IsGrid : Type 0 where
    pub populated : 0 < ranks_per_slice a world dim
    pub in_grid : Within dim (a.num_devices dim) world
    pub slices :
        (q : ℕ) → q < a.num_devices dim → ranks_at dim q world ≡ ranks_per_slice a world dim
    pub by_slice : BySlice size dim world

  -- On a grid of ranks that is filled, with one local size per slice and sums below 2^31, a
  -- dimension's global size is the sum of its slices' sizes, and the local offset the sum of the
  -- sizes of the slices before.
  pub sizes-IsGrid :
      IsGrid
      → a.position dim < a.num_devices dim
      → ranks_per_slice a world dim * prefix_sum size (a.num_devices dim) < i31
      → (valid_global_grid_size a world dim ≡ prefix_sum size (a.num_devices dim))
        × (offset a world dim ≡ prefix_sum size (a.position dim))
  unfolding valid_global_grid_size int_div
  sizes-IsGrid grid inside small =
      let m = ranks_per_slice a world dim in
      let pos = a.position dim in
      let every = scaled_sum size (λ q. ranks_at dim q world) m (a.num_devices dim) grid.slices in
      let total =
        sum_local_sizes-weight size dim (a.num_devices dim) world grid.by_slice grid.in_grid
          (omega (arith, every, small))
        ∙ every in
      let scaled =
        scaled_sum size (λ q. ranks_at dim q world) m pos (λ q lt. grid.slices q (omega arith)) in
      let mono =
        mul_mono m (prefix_sum size pos) (prefix_sum size (a.num_devices dim))
          (prefix_sum_mono size pos (a.num_devices dim) (omega arith)) in
      let below =
        sum_below-weight size dim pos 0 world grid.by_slice (omega (arith, scaled, mono)) in
      (
        ap (λ s. int_div s m) total
            ∙ rw (lt→ltb (m * prefix_sum size (a.num_devices dim)) i31 small)
                (mul-div_cancel_left _ grid.populated),
        ap (λ s. (s / m) % u32) (below ∙ omega (arith, scaled))
            ∙ ap (λ s. s % u32) (mul-div_cancel_left (prefix_sum size pos) grid.populated)
            ∙ low m (prefix_sum size pos) grid.populated (omega (arith, mono, small)),
      )
    where
      low : (m x : ℕ) → 0 < m → m * x < i31 → x % u32 ≡ x
      low zero x positive lt = elim positive [ ]
      low (suc m) x positive lt = let e : suc m * x ≡ x + m * x = grind arith in omega (arith, e)

      mul_mono : (m x y : ℕ) → x ≤ y → m * x ≤ m * y
      mul_mono m x y le =
          let (d, e) : (d : ℕ) × (y ≡ x + d) = (y - x, omega arith) in
          let s : m * (x + d) ≡ m * x + m * d = grind arith in rw e (omega (arith, s))
