-- ===== src/NeighbourRegions/Count.antt =====
-- The counting kernel: a block counts the source regions that its region meets.
use native.Mathlib.Decide.{ℕ_discrete}
use spearhed.Base.{
  ℕ, zero, suc, ◌+◌, ◌-◌, ◌*◌, ◌%◌, ◌≤◌, ◌<◌, ◌≡◌, refl, sym, ap, ◌∙◌, arith, inl, inr, Box, update,
  ltb, Bool, some, List, if◌then◌else◌, Covers, Distinct, prefix_sum, prefix_sum_congr, u32, i31,
  Bool-cases, ne→==, ==_self, lt→ltb, lt→leb, le→ltb, ltb→le,
}
use spearhed.TreeReduce.Tree.{
  pow2, pow2_gt, add_u32, tree_reduce-tree, tree-prefix_sum, prefix_sum_plus, prefix_sum_split,
  prefix_sum_entry,
}
use spearhed.NeighbourRegions.{max_threads, count_strided, local_counts, count_block}

abbrev pub one_if : Bool → ℕ
one_if b = if b then 1 else 0

-- How many of the first `n` sources meet.
abbrev pub num_meets : Box Bool → ℕ → ℕ
num_meets meets n = prefix_sum (λ i. one_if (meets i)) n

sum_swap :
    (f : ℕ → Box ℕ) (m n : ℕ)
    → prefix_sum (λ t. prefix_sum (f t) n) m ≡ prefix_sum (λ i. prefix_sum (λ t. f t i) m) n
unfolding prefix_sum
sum_swap f zero n = sym (zeros n)
  where
    zeros : (k : ℕ) → prefix_sum (λ i. 0) k ≡ 0
    zeros zero = refl
    zeros (suc k) = omega (arith, zeros k)
sum_swap f (suc m) n =
    ap (λ k. k + prefix_sum (f m) n) (sum_swap f m n)
    ∙ sym (prefix_sum_plus (λ i. prefix_sum (λ t. f t i) m) (f m) n)

-- Rows of width `w` sum to the whole.
sum_rows :
    (f : Box ℕ) (w rows : ℕ)
    → prefix_sum (λ t. prefix_sum (λ q. f (t + q * w)) rows) w ≡ prefix_sum f (rows * w)
unfolding prefix_sum
sum_rows f w rows = sum_swap (λ t q. f (t + q * w)) w rows ∙ columns rows
  where
    columns : (k : ℕ) → prefix_sum (λ q. prefix_sum (λ t. f (t + q * w)) w) k ≡ prefix_sum f (k * w)
    columns zero = let e : 0 * w ≡ 0 = omega arith in sym (ap (prefix_sum f) e)
    columns (suc k) =
        let e : k * w + w ≡ suc k * w = grind arith in
        ap (λ s. s + prefix_sum (λ t. f (t + k * w)) w) (columns k)
        ∙ sym (prefix_sum_split f (k * w) w)
        ∙ ap (prefix_sum f) e

-- The first entry of a column, and the rest.
sum_first :
    (f : Box ℕ) (w o k : ℕ)
    → prefix_sum (λ q. f (o + q * w)) (suc k) ≡ f o + prefix_sum (λ q. f (o + w + q * w)) k
unfolding prefix_sum
sum_first f w o zero = let e : f (o + 0 * w) ≡ f o = ap f (omega arith) in omega (arith, e)
sum_first f w o (suc k) =
    let e : f (o + suc k * w) ≡ f (o + w + k * w) = ap f (grind arith) in
    omega (arith, e, sum_first f w o k)

module _ (meets : Box Bool) (n w : ℕ) (positive : 0 < w) where
  -- What source `i` adds to the counts, if there is one.
  abbrev adds : Box ℕ
  adds i = if ltb i n then one_if (meets i) else 0

  adds_beyond : (first k : ℕ) → n ≤ first → prefix_sum (λ q. adds (first + q * w)) k ≡ 0
  unfolding prefix_sum
  adds_beyond first zero le = refl
  adds_beyond first (suc k) le =
      let none : adds (first + k * w) ≡ 0 = rw (le→ltb (first + k * w) n (omega arith)) refl in
      omega (arith, adds_beyond first k le, none)

  count_strided-adds :
      (rounds other count : ℕ)
      → n ≤ other + rounds * w
      → count + prefix_sum (λ q. adds (other + q * w)) (suc rounds) < u32
      → count_strided (suc rounds) meets n w other count
        ≡ some (count + prefix_sum (λ q. adds (other + q * w)) (suc rounds))
  unfolding count_strided
  count_strided-adds zero other count le small =
      let done : n ≤ other = omega arith in
      rw (le→ltb other n done) (ap some (omega (arith, adds_beyond other 1 done)))
  count_strided-adds (suc rounds) other count le small = elim (Bool-cases (ltb other n)) [
    | inr over ↦
        rw over
          (ap some (omega (arith, adds_beyond other (suc (suc rounds)) (ltb→le other n over))))
    | inl in_range ↦
        let first = sum_first adds w other (suc rounds) in
        let now : adds other ≡ one_if (meets other) = rw in_range refl in
        let next_count : (if meets other then (count + 1) % u32 else count) ≡ count + adds other =
          ground arith in
        rw in_range (
          ap (count_strided (suc rounds) meets n w (other + w)) next_count
          ∙ count_strided-adds rounds (other + w) (count + adds other) (grind arith) (omega arith)
          ∙ ap some (omega (arith, first)))
  ]

  -- What worker `t` counts.
  abbrev column : Box ℕ
  column t = prefix_sum (λ q. adds (t + q * w)) (n + 1)

  adds_total : prefix_sum column w ≡ num_meets meets n
  unfolding prefix_sum
  adds_total =
      let e : (n + 1) * w ≡ n + (w + n * w - n) = grind arith in
      sum_rows adds w (n + 1)
      ∙ ap (prefix_sum adds) e
      ∙ prefix_sum_split adds n (w + n * w - n)
      ∙ omega (arith, tail (w + n * w - n), below)
    where
      below : prefix_sum adds n ≡ num_meets meets n
      below = prefix_sum_congr _ _ n (λ i lt. rw (lt→ltb i n lt) refl)

      tail : (k : ℕ) → prefix_sum (λ i. adds (i + n)) k ≡ 0
      tail zero = refl
      tail (suc k) =
          let none : adds (k + n) ≡ 0 = rw (le→ltb (k + n) n (omega arith)) refl in
          omega (arith, tail k, none)

  column_small : (t : ℕ) → t < w → column t ≤ num_meets meets n
  column_small t lt = omega (arith, adds_total, prefix_sum_entry column w t lt)

  -- Every worker's loop ends, and together they count every source that meets once.
  local_counts-column :
      w ≤ max_threads
      → num_meets meets n < u32
      → (threads : ℕ) (counts : Box ℕ) → threads ≤ w
      → (filled : Box ℕ) × (local_counts meets n w threads counts ≡ some filled)
        × ((t : ℕ) → t < threads → filled t ≡ column t)
  unfolding local_counts
  local_counts-column room small zero counts le = (counts, refl, λ t lt. elim lt [ ])
  local_counts-column room small (suc thread) counts le =
      let (filled, e, columns) = local_counts-column room small thread counts (omega arith) in
      let counted : count_strided (n + 1) meets n w thread 0 ≡ some (column thread) =
        counts_up thread le in
      (
        update filled thread (column thread),
        rw (e, local_counts, counted, lt→ltb thread max_threads (omega arith)) refl,
        λ t lt. elim (ℕ_discrete t thread) [
          | yes same ↦ rw (same, ==_self thread) refl
          | no ne ↦ rw (ne→== t thread ne) (columns t (omega arith))
        ],
      )
    where
      counts_up : (t : ℕ) → t < w → count_strided (n + 1) meets n w t 0 ≡ some (column t)
      counts_up t lt =
          let e : n + 1 ≡ suc n = omega arith in
          rw e (
            count_strided-adds n t 0 (grind arith) (omega (arith, rw e at (column_small t lt)))
            ∙ ap some (omega arith))

num_meets_le : (meets : Box Bool) (n : ℕ) → num_meets meets n ≤ n
unfolding prefix_sum
num_meets_le meets zero = omega arith
num_meets_le meets (suc n) = ground (arith, num_meets_le meets n)

-- With a power of two of at most 64 workers, and at most 2^31 - 64 sources, a block of the counting
-- kernel leaves in the slot after its region's the number of the sources that the region meets,
-- whatever the order of its threads.
pub count_block-num_meets :
    (meets : ℕ → Box Bool) (num_targets num_sources k : ℕ) (order : List ℕ) (shared : Box ℕ)
    (block : ℕ) (offsets : Box ℕ)
    → pow2 k ≤ max_threads
    → num_sources + max_threads ≤ i31
    → Covers (pow2 k) order
    → Distinct order
    → block < num_targets
    → count_block meets num_targets num_sources (pow2 k) order shared block offsets
      ≡ some (update offsets (block + 1) (num_meets (meets block) num_sources))
unfolding count_block
count_block-num_meets meets num_targets num_sources k order shared block offsets room small covers
      distinct lt =
    let w : ℕ = pow2 k in
    let positive : 0 < pow2 k = omega (arith, pow2_gt k) in
    let fits : num_meets (meets block) num_sources < u32 =
      omega (arith, num_meets_le (meets block) num_sources) in
    let (counts, e, columns) =
      local_counts-column (meets block) num_sources (pow2 k) positive room fits (pow2 k) shared
        (omega arith) in
    let (reduced, e', first) = tree_reduce-tree add_u32 k order counts covers distinct in
    let total : prefix_sum counts (pow2 k) ≡ num_meets (meets block) num_sources =
      prefix_sum_congr _ _ (pow2 k) columns
      ∙ adds_total (meets block) num_sources (pow2 k) positive in
    let value : reduced 0 ≡ num_meets (meets block) num_sources =
      first ∙ tree-prefix_sum k counts (omega arith) ∙ total in
    rw (lt→leb num_targets block lt, e, count_block, e', count_block)
      (ap (λ v. some (update offsets (block + 1) v)) value)
