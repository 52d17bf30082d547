-- ===== src/BoundingBox/Tests.antt =====
-- Boxes in the plane over the natural numbers, and the theorems there.
use spearhed.Base.{ℕ, ◌+◌, ◌-◌, ◌*◌, ◌≡◌, ◌↔◌, refl, arith, Box, true, ltb}
use spearhed.BoundingBox.{Scalar, Aabb, extend_vec, extend_box, intersects}
use spearhed.BoundingBox.Extend.{IsTotal, Contains, Within, extend_vec-least, extend_box-least}
use spearhed.BoundingBox.Meet.{intersects_iff}

abbrev naturals : Scalar ℕ
naturals = record {
  below = ltb;
  plus = λ a b. a + b;
  minus = λ a b. a - b;
  times = λ a b. a * b;
  zero_scalar = 0;
  one_scalar = 1;
  highest = 1000;
  lowest = 0;
  dim = 2;
}

total : IsTotal naturals
total = record {
  at_most_trans = λ a b c x y. ground arith;
  at_most_of_below = λ a b h. ground arith;
  at_most_refl = λ a. ground arith;
}

-- Between two coordinates on either axis.
abbrev square : ℕ → ℕ → Aabb ℕ
square low high = record { origin = λ tag. 0; min = λ tag. low; max = λ tag. high }

extend_vec-least_example :
    Contains naturals (extend_vec naturals (λ tag. 9) (square 2 5)) (λ tag. 9)
    × Within naturals (square 2 5) (extend_vec naturals (λ tag. 9) (square 2 5))
    × ((c : Aabb ℕ)
        → Contains naturals c (λ tag. 9)
        → Within naturals (square 2 5) c
        → Within naturals (extend_vec naturals (λ tag. 9) (square 2 5)) c)
extend_vec-least_example = extend_vec-least naturals total (λ tag. 9) (square 2 5)

extend_box-least_example :
    Within naturals (square 1 3) (extend_box naturals (square 1 3) (square 2 5))
    × Within naturals (square 2 5) (extend_box naturals (square 1 3) (square 2 5))
    × ((c : Aabb ℕ)
        → Within naturals (square 1 3) c
        → Within naturals (square 2 5) c
        → Within naturals (extend_box naturals (square 1 3) (square 2 5)) c)
extend_box-least_example = extend_box-least naturals total (square 1 3) (square 2 5)

intersects_iff_example :
    (intersects naturals (square 1 3) (square 2 5) ≡ true)
    ↔ ((vec : Box ℕ) × Contains naturals (square 1 3) vec × Contains naturals (square 2 5) vec)
intersects_iff_example =
    intersects_iff naturals total (square 1 3) (square 2 5) (λ tag lt. refl) (λ tag lt. refl)
