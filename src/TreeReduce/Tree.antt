-- ===== src/TreeReduce/Tree.antt =====
-- The reduction combines the entries of all threads, for a power of two of them.
use spearhed.Base.{
  ℕ, zero, suc, ◌+◌, ◌/◌, ◌%◌, ◌≤◌, ◌<◌, ◌≡◌, ◌≢◌, refl, ap, ◌∙◌, arith, inl, inr, Box, ltb, ◌==◌,
  false, some, List, Covers, Distinct, run_blocks, run_blocks_once, prefix_sum, prefix_sum_mono,
  prefix_sum_congr, u32, Bool-cases, ne→==, ==_self, lt→ltb,
}
use spearhed.TreeReduce.{reduce_step, reduce_loop, tree_reduce}

abbrev pub pow2 : ℕ → ℕ
pow2 zero = 1
pow2 (suc k) = pow2 k + pow2 k

pub pow2_gt : (k : ℕ) → k < pow2 k
pow2_gt zero = omega arith
pow2_gt (suc k) = omega (arith, pow2_gt k)

module _ {X : Type 0} (op : X → X → X) where
  -- The first `pow2 k` entries, halves first.
  abbrev pub tree : ℕ → Box X → X
  tree zero box = box 0
  tree (suc k) box = tree k (λ t. op (box t) (box (t + pow2 k)))

  tree_congr : (k : ℕ) (a b : Box X) → ((t : ℕ) → t < pow2 k → a t ≡ b t) → tree k a ≡ tree k b
  tree_congr zero a b h = h 0 (omega arith)
  tree_congr (suc k) a b h =
      tree_congr k _ _ (λ t lt i. op (h t (omega arith) i) (h (t + pow2 k) (omega arith) i))

  round :
      (s t : ℕ) (order : List ℕ) (box : Box X)
      → Covers s order
      → Distinct order
      → t < s
      → run_blocks (reduce_step op s) order box t ≡ op (box t) (box (t + s))
  unfolding reduce_step
  round s t order box covers distinct lt =
      run_blocks_once (λ b. (j : ℕ) → s ≤ j → b j ≡ box j) (λ b. b t ≡ box t)
        (λ b. b t ≡ op (box t) (box (t + s))) (reduce_step op s) t upper other
        (λ b same e. rw (lt→ltb t s lt, ==_self t) (λ i. op (e i) (same (t + s) (omega arith) i)))
        other order box distinct (covers t lt) (λ j le. refl) refl
    where
      upper :
          (c : ℕ) (b : Box X)
          → ((j : ℕ) → s ≤ j → b j ≡ box j)
          → (j : ℕ) → s ≤ j
          → reduce_step op s c b j ≡ box j
      upper c b same j le = elim (Bool-cases (ltb c s)) [
        | inl inside ↦ rw (inside, ne→== j c (λ e. ground arith)) (same j le)
        | inr outside ↦ rw outside (same j le)
      ]

      other :
          {v : X} (c : ℕ) (b : Box X)
          → t ≢ c
          → ((j : ℕ) → s ≤ j → b j ≡ box j)
          → b t ≡ v
          → reduce_step op s c b t ≡ v
      other c b ne same e = elim (Bool-cases (ltb c s)) [
        | inl inside ↦ rw (inside, ne→== t c ne) e
        | inr outside ↦ rw outside e
      ]

  reduce_loop-tree :
      (k fuel : ℕ) (order : List ℕ) (box : Box X)
      → Covers (pow2 k / 2) order
      → Distinct order
      → k < fuel
      → (out : Box X) × (reduce_loop op fuel order (pow2 k / 2) box ≡ some out)
        × (out 0 ≡ tree k box)
  unfolding reduce_loop
  reduce_loop-tree k zero order box covers distinct lt = elim lt [ ]
  reduce_loop-tree zero (suc fuel) order box covers distinct lt = (box, refl, refl)
  reduce_loop-tree (suc k) (suc fuel) order box covers distinct lt =
      let half : (pow2 k + pow2 k) / 2 ≡ pow2 k = omega arith in
      let test : (pow2 k == 0) ≡ false = ground (arith, pow2_gt k) in
      let (out, e, v) =
        reduce_loop-tree k fuel order (run_blocks (reduce_step op (pow2 k)) order box)
          (λ b lt'. covers b (omega arith)) distinct (omega arith) in
      rw (half, test)
        (
          out,
          e,
          v
              ∙ tree_congr k _ _ (λ t lt'.
                round (pow2 k) t order box (λ b l. covers b (omega arith)) distinct lt'),
        )

  -- With a power of two of threads the reduction ends, and the first entry combines all of them.
  pub tree_reduce-tree :
      (k : ℕ) (order : List ℕ) (box : Box X)
      → Covers (pow2 k) order
      → Distinct order
      → (out : Box X) × (tree_reduce op (pow2 k) order box ≡ some out) × (out 0 ≡ tree k box)
  unfolding tree_reduce
  tree_reduce-tree k order box covers distinct =
      reduce_loop-tree k (pow2 k + 1) order box (λ b lt. covers b (omega arith)) distinct
        (omega (arith, pow2_gt k))

pub prefix_sum_split :
    (box : Box ℕ) (m n : ℕ)
    → prefix_sum box (m + n) ≡ prefix_sum box m + prefix_sum (λ i. box (i + m)) n
unfolding prefix_sum
prefix_sum_split box m zero = let e : m + 0 ≡ m = omega arith in ap (prefix_sum box) e ∙ omega arith
prefix_sum_split box m (suc n) =
    let e : m + suc n ≡ suc (m + n) = omega arith in
    let last : box (m + n) ≡ box (n + m) = ap box (omega arith) in
    ap (prefix_sum box) e ∙ omega (arith, prefix_sum_split box m n, last)

pub prefix_sum_plus :
    (a b : Box ℕ) (n : ℕ) → prefix_sum (λ i. a i + b i) n ≡ prefix_sum a n + prefix_sum b n
unfolding prefix_sum
prefix_sum_plus a b zero = refl
prefix_sum_plus a b (suc n) = omega (arith, prefix_sum_plus a b n)

-- The addition of an `unsigned int`.
abbrev pub add_u32 : ℕ → ℕ → ℕ
add_u32 a b = (a + b) % u32

pub prefix_sum_entry : (box : Box ℕ) (n i : ℕ) → i < n → box i ≤ prefix_sum box n
unfolding prefix_sum
prefix_sum_entry box zero i lt = elim lt [ ]
prefix_sum_entry box (suc n) i lt = omega (arith, prefix_sum_mono box (suc i) (suc n) lt)

-- Summed counts, while the total fits.
pub tree-prefix_sum :
    (k : ℕ) (box : Box ℕ)
    → prefix_sum box (pow2 k) < u32
    → tree add_u32 k box ≡ prefix_sum box (pow2 k)
unfolding prefix_sum
tree-prefix_sum zero box small = omega arith
tree-prefix_sum (suc k) box small =
    let total = prefix_sum_split box (pow2 k) (pow2 k) in
    let halves = prefix_sum_plus box (λ t. box (t + pow2 k)) (pow2 k) in
    let exact : prefix_sum (λ t. add_u32 (box t) (box (t + pow2 k))) (pow2 k)
        ≡ prefix_sum (λ t. box t + box (t + pow2 k)) (pow2 k) =
      prefix_sum_congr _ _ (pow2 k) (λ t lt.
        let bound = prefix_sum_entry (λ t. box t + box (t + pow2 k)) (pow2 k) t lt in
        omega arith) in
    tree-prefix_sum k _ (omega arith) ∙ exact ∙ omega arith
