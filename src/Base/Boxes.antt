-- ===== src/Base/Boxes.antt =====
-- A data box of pmacc seen as a table: the content of every slot. Sizes are kept beside it.
use Prim.Native.Nat.{ℕ, zero, suc, ◌+◌, ◌≤◌, ◌<◌}
use mathlib.Core.Path.{◌≡◌, refl, sym, subst, ap, ◌∙◌}
use mathlib.Core.Logic.{◌≢◌, ◌⊎◌, inl, inr}
use mathlib.Core.Bool.{Bool, true, false, ◌&&◌, ◌||◌}
use mathlib.Core.List.{List, [], ◌∷◌}
use native.Mathlib.Omega.{arith}
use native.Mathlib.Decide.{dec_lt, ℕ_discrete}
use spearhed.Base.Lists.{visit}
use spearhed.Base.Tests.{ltb, leb, ◌==◌, if◌then◌else◌, Bool-cases, ==_iff, ==_self, ne→==}

abbrev pub Box {ℓ} : Type ℓ → Type ℓ
Box A = ℕ → A

-- `box[i] = v`
abbrev pub update {ℓ} : {A : Type ℓ} → Box A → ℕ → A → Box A
update box i v j = if j == i then v else box j

-- Sum of the first `n` entries.
unfoldable pub prefix_sum : Box ℕ → ℕ → ℕ
prefix_sum box zero = 0
prefix_sum box (suc n) = prefix_sum box n + box n

pub prefix_sum_mono : (box : Box ℕ) (m n : ℕ) → m ≤ n → prefix_sum box m ≤ prefix_sum box n
unfolding prefix_sum
prefix_sum_mono box zero n h = omega arith
prefix_sum_mono box (suc m) zero h = elim h [ ]
prefix_sum_mono box (suc m) (suc n) h = elim (dec_lt m n) [
  | yes lt ↦ omega (arith, prefix_sum_mono box (suc m) n lt)
  | no ge ↦ let e : m ≡ n = omega arith in subst_le e
]
  where
    subst_le : m ≡ n → prefix_sum box (suc m) ≤ prefix_sum box (suc n)
    subst_le e = ground (arith)

-- Equal entries have equal sums.
pub prefix_sum_congr :
    (a b : Box ℕ) (n : ℕ) → ((i : ℕ) → i < n → a i ≡ b i) → prefix_sum a n ≡ prefix_sum b n
unfolding prefix_sum
prefix_sum_congr a b zero h = refl
prefix_sum_congr a b (suc n) h =
    omega (arith, h n (omega arith), prefix_sum_congr a b n (λ i lt. h i (omega arith)))

-- The blocks of a launch, one after another in some order.
unfoldable pub run_blocks {ℓ} : {S : Type ℓ} → (ℕ → S → S) → List ℕ → S → S
run_blocks kernel [] s = s
run_blocks kernel (b ∷ bs) s = run_blocks kernel bs (kernel b s)

pub visit-run_blocks {ℓ} :
    {S : Type ℓ} (kernel : ℕ → S → S) (order : List ℕ) (s : S)
    → visit kernel order s ≡ run_blocks kernel order s
unfolding visit run_blocks
visit-run_blocks kernel [] s = refl
visit-run_blocks kernel (b ∷ order) s = visit-run_blocks kernel order (kernel b s)

abbrev pub has : ℕ → List ℕ → Bool
has b [] = false
has b (c ∷ bs) = (b == c) || has b bs

-- Every block below `n` runs; nothing is said of the order.
abbrev pub Covers : ℕ → List ℕ → Type 0
Covers n order = (b : ℕ) → b < n → has b order ≡ true

-- The `n` numbers from `i` on.
abbrev pub upwards : ℕ → ℕ → List ℕ
upwards zero i = []
upwards (suc n) i = i ∷ upwards n (suc i)

-- What block `b` establishes from any state and every block keeps holds after the launch.
pub run_blocks_establishes {ℓ κ} :
    {S : Type ℓ} (P : S → Type κ) (kernel : ℕ → S → S) (b : ℕ)
    → ((s : S) → P (kernel b s))
    → ((c : ℕ) (s : S) → P s → P (kernel c s))
    → (order : List ℕ) (s : S) → (P s ⊎ (has b order ≡ true))
    → P (run_blocks kernel order s)
unfolding run_blocks
run_blocks_establishes P kernel b make keep [] s (inl p) = p
run_blocks_establishes P kernel b make keep [] s (inr h) = cc
run_blocks_establishes P kernel b make keep (c ∷ order) s (inl p) =
    run_blocks_establishes P kernel b make keep order (kernel c s) (inl (keep c s p))
run_blocks_establishes P kernel b make keep (c ∷ order) s (inr h) = elim (Bool-cases (b == c)) [
  | inl e ↦
      run_blocks_establishes P kernel b make keep order (kernel c s)
        (inl (subst (λ k. P (kernel k s)) ((==_iff b c).0 e) (make s)))
  | inr ne ↦ run_blocks_establishes P kernel b make keep order (kernel c s) (inr (ground arith))
]

-- No block runs twice.
abbrev pub Distinct : List ℕ → Type 0
Distinct [] = Unit
Distinct (b ∷ bs) = (has b bs ≡ false) × Distinct bs

pub upwards-has : (n i b : ℕ) → has b (upwards n i) ≡ (leb i b && ltb b (i + n))
upwards-has zero i b = ground arith
upwards-has (suc n) i b = rw (upwards-has n (suc i) b) (ground arith)

pub upwards-Distinct : (n i : ℕ) → Distinct (upwards n i)
upwards-Distinct zero i = tt
upwards-Distinct (suc n) i =
    (rw (upwards-has n (suc i) i) (ground arith), upwards-Distinct n (suc i))

module _ {ℓ κ ι ν} {S : Type ℓ} (Holds : S → Type κ) (Before : S → Type ι) (After : S → Type ν)
    (kernel : ℕ → S → S) (b : ℕ) (keeps : (c : ℕ) (s : S) → Holds s → Holds (kernel c s)) where
  -- What the other blocks keep holds after a launch without block `b`.
  run_blocks_without :
      ((c : ℕ) (s : S) → b ≢ c → Holds s → After s → After (kernel c s))
      → (order : List ℕ) (s : S) → has b order ≡ false
      → Holds s
      → After s
      → After (run_blocks kernel order s)
  unfolding run_blocks
  run_blocks_without rest [] s h i a = a
  run_blocks_without rest (c ∷ order) s h i a =
      run_blocks_without rest order (kernel c s) (ground arith) (keeps c s i)
        (rest c s (ground arith) i a)

  -- A block that runs once takes what the other blocks keep before it to what they keep after it.
  pub run_blocks_once :
      ((c : ℕ) (s : S) → b ≢ c → Holds s → Before s → Before (kernel c s))
      → ((s : S) → Holds s → Before s → After (kernel b s))
      → ((c : ℕ) (s : S) → b ≢ c → Holds s → After s → After (kernel c s))
      → (order : List ℕ) (s : S) → Distinct order
      → has b order ≡ true
      → Holds s
      → Before s
      → After (run_blocks kernel order s)
  unfolding run_blocks
  run_blocks_once waits makes rest [] s d h i p = cc
  run_blocks_once waits makes rest (c ∷ order) s (new, d) h i p = elim (ℕ_discrete b c) [
    | yes e ↦
        run_blocks_without rest order (kernel c s) (rw e new) (keeps c s i)
          (subst (λ k. After (kernel k s)) e (makes s i p))
    | no ne ↦
        run_blocks_once waits makes rest order (kernel c s) d (rw (ne→== b c ne) at h) (keeps c s i)
          (waits c s ne i p)
  ]

-- Blocks that each rewrite their own slot, once.
pub run_blocks-slot {ℓ} :
    {X : Type ℓ} (kernel : ℕ → Box X → Box X) (g : X → X) (b : ℕ)
    → ((c : ℕ) (s : Box X) → b ≢ c → kernel c s b ≡ s b)
    → ((s : Box X) → kernel b s b ≡ g (s b))
    → (order : List ℕ) (s : Box X) → Distinct order
    → has b order ≡ true
    → run_blocks kernel order s b ≡ g (s b)
run_blocks-slot kernel g b others own order s d h =
    run_blocks_once {ℓ, 0, ℓ, ℓ} (λ t. Unit) (λ t. t b ≡ s b) (λ t. t b ≡ g (s b)) kernel b
      (λ c t i. tt) (λ c t ne i e. others c t ne ∙ e) (λ t i e. own t ∙ ap g e)
      (λ c t ne i e. others c t ne ∙ e) order s d h tt refl

-- A block that does not run leaves its slot alone.
pub run_blocks-other {ℓ} :
    {X : Type ℓ} (kernel : ℕ → Box X → Box X) (b : ℕ)
    → ((c : ℕ) (s : Box X) → b ≢ c → kernel c s b ≡ s b)
    → (order : List ℕ) (s : Box X) → has b order ≡ false
    → run_blocks kernel order s b ≡ s b
run_blocks-other kernel b others order s h =
    run_blocks_without {ℓ, 0, 0, ℓ} (λ t. Unit) (λ t. Unit) (λ t. t b ≡ s b) kernel b (λ c t i. tt)
      (λ c t ne i e. others c t ne ∙ e) order s h tt refl

-- What no step of a loop changes does not change.
pub run_blocks_keeps {ℓ κ} :
    {S : Type ℓ} {X : Type κ} (look : S → X) (kernel : ℕ → S → S) (order : List ℕ) (s : S)
    → ((c : ℕ) (t : S) → has c order ≡ true → look (kernel c t) ≡ look t)
    → look (run_blocks kernel order s) ≡ look s
unfolding run_blocks
run_blocks_keeps look kernel [] s h = refl
run_blocks_keeps look kernel (c ∷ order) s h =
    run_blocks_keeps look kernel order (kernel c s) (λ d t e. h d t (later d e))
    ∙ h c s (rw (==_self c) refl)
  where
    later : (d : ℕ) → has d order ≡ true → has d (c ∷ order) ≡ true
    later d e = elim (Bool-cases (d == c)) [ inl x ↦ rw x refl | inr x ↦ rw x e ]

-- What only step `b` changes changes once.
pub run_blocks-look {ℓ κ} :
    {S : Type ℓ} {X : Type κ} (look : S → X) (kernel : ℕ → S → S) (b : ℕ) (g : X → X)
    → ((s : S) → look (kernel b s) ≡ g (look s))
    → (order : List ℕ) (s : S)
    → ((c : ℕ) (t : S) → has c order ≡ true → b ≢ c → look (kernel c t) ≡ look t)
    → Distinct order
    → has b order ≡ true
    → look (run_blocks kernel order s) ≡ g (look s)
unfolding run_blocks
run_blocks-look look kernel b g own [] s others d h = cc
run_blocks-look look kernel b g own (c ∷ order) s others (new, d) h = elim (ℕ_discrete b c) [
  | yes e ↦
      run_blocks_keeps look kernel order (kernel c s)
        (λ k t member. others k t (later k member) (apart k e member))
      ∙ ap (λ k. look (kernel k s)) (sym e)
      ∙ own s
  | no ne ↦
      run_blocks-look look kernel b g own order (kernel c s)
        (λ k t member. others k t (later k member)) d (rw (ne→== b c ne) at h)
      ∙ ap g (others c s (rw (==_self c) refl) ne)
]
  where
    later : (k : ℕ) → has k order ≡ true → has k (c ∷ order) ≡ true
    later k e = elim (Bool-cases (k == c)) [ inl x ↦ rw x refl | inr x ↦ rw x e ]

    apart : (k : ℕ) → b ≡ c → has k order ≡ true → b ≢ k
    apart k e member same = cc
