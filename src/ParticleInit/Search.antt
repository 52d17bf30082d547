-- ===== src/ParticleInit/Search.antt =====
-- The block-to-frame mapping of the initialization inverts the scan.
use native.Mathlib.Decide.{dec_lt}
use spearhed.Base.{
  ℕ, zero, suc, ◌+◌, ◌-◌, ◌/◌, ◌≤◌, ◌<◌, ◌≡◌, refl, ap, inl, inr, arith, Box, ltb, ◌==◌, some,
  if◌then◌else◌, i31, Bool-cases, prefix_sum, prefix_sum_mono,
}
use spearhed.ParticleInit.{upper_bound, find_frame_location, int_leb, int_minus}

-- The search finds the number that splits the scan, with fuel for the width of the interval.
upper_bound-split :
    (fuel : ℕ) (scan : Box ℕ) (block n r left right : ℕ)
    → block < i31
    → ((m : ℕ) → m < n → scan m < i31)
    → ((m : ℕ) → m < r → scan m ≤ block)
    → ((m : ℕ) → r ≤ m → m < n → block < scan m)
    → left ≤ r
    → r ≤ right
    → right ≤ n
    → right - left < fuel
    → upper_bound fuel scan block left right ≡ some r
unfolding upper_bound int_leb
upper_bound-split zero scan block n r left right int ints below above l u w enough = elim enough [ ]
upper_bound-split (suc fuel) scan block n r left right int ints below above l u w enough =
    elim (Bool-cases (ltb left right)) [
      | inr done ↦ rw done (ground arith)
      | inl more ↦ rw more (elim (Bool-cases (int_leb (scan mid) block)) [
        | inl low ↦ rw low (
            upper_bound-split fuel scan block n r (mid + 1) right int ints below above
              (ground (arith, above mid, ints mid)) u w (ground arith))
        | inr high ↦ rw high (
            upper_bound-split fuel scan block n r left mid int ints below above l
              (ground (arith, below mid, ints mid)) (ground arith) (ground arith))
      ])
    ]
  where
    mid : ℕ
    mid = left + (right - left) / 2

base-prefix_sum :
    (sizes scan : Box ℕ) (n r : ℕ)
    → ((m : ℕ) → m < n → scan m ≡ prefix_sum sizes (suc m))
    → r < n
    → (if r == 0 then 0 else scan (r - 1)) ≡ prefix_sum sizes r
unfolding prefix_sum
base-prefix_sum sizes scan n zero s lt = refl
base-prefix_sum sizes scan n (suc r) s lt = ground (arith, s r)

-- Over a scan of the regions' frame counts with fewer than 2^31 frames, the block at place `i` of
-- region `r`'s frames finds region `r`, the place `i` and the region's count: the search ends, and
-- inverts the layout.
pub find_frame_location_inverse :
    (sizes scan : Box ℕ) (n r i : ℕ)
    → ((m : ℕ) → m < n → scan m ≡ prefix_sum sizes (suc m))
    → prefix_sum sizes n < i31
    → r < n
    → i < sizes r
    → find_frame_location (prefix_sum sizes r + i) scan n
      ≡ some (record { region_idx = r; local_frame_idx = i; frames_in_region = sizes r })
unfolding find_frame_location prefix_sum int_minus
find_frame_location_inverse sizes scan n r i s few lt place =
    rw (found, find_frame_location)
      (simp (base-prefix_sum sizes scan n r s lt, s r lt) (ground (arith, inside)))
  where
    inside : prefix_sum sizes r + sizes r < i31
    inside = omega (arith, few, prefix_sum_mono sizes (suc r) n lt)

    found : upper_bound (n + 1) scan (prefix_sum sizes r + i) 0 n ≡ some r
    found =
        upper_bound-split (n + 1) scan (prefix_sum sizes r + i) n r 0 n (omega (arith, inside))
          (λ m h. omega (arith, few, s m h, prefix_sum_mono sizes (suc m) n h))
          (λ m h. omega (arith, s m (omega arith), prefix_sum_mono sizes (suc m) r h))
          (λ m h k. omega (arith, s m k, prefix_sum_mono sizes (suc r) (suc m) (omega arith)))
          (omega arith) (omega arith) (omega arith) (omega arith)

-- Every number below the total is a place in some region.
pub place_of :
    (sizes : Box ℕ) (n b : ℕ)
    → b < prefix_sum sizes n
    → (r : ℕ) × (i : ℕ) × (r < n) × (i < sizes r) × (prefix_sum sizes r + i ≡ b)
unfolding prefix_sum
place_of sizes zero b lt = elim lt [ ]
place_of sizes (suc n) b lt = elim (dec_lt b (prefix_sum sizes n)) [
  | yes below ↦ let (r, i, lr, li, e) = place_of sizes n b below in (r, i, omega arith, li, e)
  | no above ↦ (n, b - prefix_sum sizes n, omega arith, omega arith, omega arith)
]

-- A number is one place only.
pub place_unique :
    (sizes : Box ℕ) (r i c k : ℕ)
    → i < sizes r
    → k < sizes c
    → prefix_sum sizes r + i ≡ prefix_sum sizes c + k
    → (r ≡ c) × (i ≡ k)
unfolding prefix_sum
place_unique sizes r i c k hr hc e = elim (dec_lt r c) [
  | yes lt ↦ absurd (omega (arith, prefix_sum_mono sizes (suc r) c lt))
  | no ge ↦ elim (dec_lt c r) [
    | yes lt ↦ absurd (omega (arith, prefix_sum_mono sizes (suc c) r lt))
    | no le ↦ let same : r ≡ c = omega arith in (same, omega (arith, ap (prefix_sum sizes) same))
  ]
]

pub place_in_range :
    (sizes : Box ℕ) (r n i : ℕ) → r < n → i < sizes r → prefix_sum sizes r + i < prefix_sum sizes n
unfolding prefix_sum
place_in_range sizes r n i lt small = omega (arith, prefix_sum_mono sizes (suc r) n lt)
