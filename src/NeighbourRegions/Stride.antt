-- ===== src/NeighbourRegions/Stride.antt =====
-- Sums that change in one place, and the indices of a strided loop.
use native.Mathlib.Decide.{ℕ_discrete, dec_lt}
use native.Mathlib.Nat.{div-add-mod'}
use spearhed.Base.{
  ℕ, zero, suc, ◌+◌, ◌*◌, ◌/◌, ◌%◌, ◌≤◌, ◌<◌, ◌≡◌, ◌≢◌, sym, ap, arith, Box, prefix_sum,
  prefix_sum_congr,
}

-- One more at one place.
pub sum_bump :
    (a b : Box ℕ) (n o : ℕ)
    → o < n
    → b o ≡ suc (a o)
    → ((i : ℕ) → i ≢ o → b i ≡ a i)
    → prefix_sum b n ≡ suc (prefix_sum a n)
unfolding prefix_sum
sum_bump a b zero o lt e same = elim lt [ ]
sum_bump a b (suc n) o lt e same = elim (ℕ_discrete o n) [
  | yes top ↦
      let last : b n ≡ suc (a n) = rw (← top) e in
      let rest = prefix_sum_congr b a n (λ i small. same i (λ h. omega arith)) in
      omega (arith, last, rest)
  | no inner ↦
      let rest = sum_bump a b n o (omega arith) e same in
      omega (arith, rest, same n (λ h. inner (sym h)))
]

mul_lt : (a b w : ℕ) → a * w < b * w + w → a ≤ b
mul_lt a b w lt = elim (dec_lt b a) [
  | no le ↦ omega arith
  | yes more ↦ let step : b * w + w ≤ a * w = grind arith in absurd (omega arith)
]

-- Within a stride lies one index of a worker.
pub stride_unique : (i o w : ℕ) → i % w ≡ o % w → o ≤ i → i < o + w → i ≡ o
stride_unique i o w e le lt =
    let di = div-add-mod' i w in
    let do' = div-add-mod' o w in
    let up = mul_lt (i / w) (o / w) w (omega (arith, di, do')) in
    let down = mul_lt (o / w) (i / w) w (omega (arith, di, do')) in
    let same : i / w ≡ o / w = omega arith in omega (arith, di, do', ap (λ q. q * w) same)
