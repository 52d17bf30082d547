-- ===== src/FrameDispatch/Scan.antt =====
-- The host's scan computes prefix sums.
use spearhed.Base.{
  ℕ, zero, suc, ◌+◌, ◌-◌, ◌%◌, ◌≤◌, ◌<◌, ◌≡◌, refl, arith, Box, update, u32, prefix_sum,
  prefix_sum_mono,
}
use mathlib.Core.Path.{subst}
use spearhed.FrameDispatch.{scan_loop, inclusive_scan_host}

-- Entries below `i` hold prefix sums of `data`, the others are as they were.
abbrev IsScanned : Box ℕ → ℕ → Box ℕ → Type 0
IsScanned box i buf =
    ((j : ℕ) → j < i → buf j ≡ prefix_sum box (suc j)) × ((j : ℕ) → i ≤ j → buf j ≡ box j)

scan_step :
    (box buf : Box ℕ) (i : ℕ)
    → prefix_sum box (suc (suc i)) < u32
    → IsScanned box (suc i) buf
    → IsScanned box (suc (suc i)) (update buf (suc i) ((buf (suc i) + buf (suc i - 1)) % u32))
unfolding prefix_sum
scan_step box buf i small (below, above) =
    (λ j lt. ground (arith, below j, below i, above (suc i)), λ j le. ground (arith, above j))

scan_loop-IsScanned :
    (box : Box ℕ) (rounds i n : ℕ) (buf : Box ℕ)
    → suc i + rounds ≡ n
    → prefix_sum box n < u32
    → IsScanned box (suc i) buf
    → IsScanned box n (scan_loop rounds (suc i) buf)
unfolding scan_loop
scan_loop-IsScanned box zero i n buf e small h = subst (λ k. IsScanned box k buf) (omega arith) h
scan_loop-IsScanned box (suc rounds) i n buf e small h =
    scan_loop-IsScanned box rounds (suc i) n _ (omega arith) small
      (scan_step box buf i (omega (arith, prefix_sum_mono box (suc (suc i)) n (omega arith))) h)

-- While the total fits in 32 bits, the scan leaves in every slot `j` below the size the sum of the
-- first `j + 1` counts, leaves the other slots alone, and returns the sum of all of them.
pub inclusive_scan_host-prefix_sum :
    (buf : Box ℕ) (size : ℕ)
    → prefix_sum buf size < u32
    → ((j : ℕ) → j < size → (inclusive_scan_host buf size).0 j ≡ prefix_sum buf (suc j))
      × ((j : ℕ) → size ≤ j → (inclusive_scan_host buf size).0 j ≡ buf j)
      × ((inclusive_scan_host buf size).1 ≡ prefix_sum buf size)
unfolding inclusive_scan_host prefix_sum
inclusive_scan_host-prefix_sum buf zero small = (λ j lt. elim lt [ ], λ j le. refl, refl)
inclusive_scan_host-prefix_sum buf (suc n) small = (scanned.0, scanned.1, scanned.0 n (omega arith))
  where
    first : IsScanned buf 1 buf
    first = (λ j lt. ground arith, λ j le. refl)

    scanned : IsScanned buf (suc n) (inclusive_scan_host buf (suc n)).0
    scanned = scan_loop-IsScanned buf n 0 (suc n) buf (omega arith) small first
