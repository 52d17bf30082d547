-- ===== src/BoundingBox.antt =====
-- packages/pmacc/include/spmacc/particles/regions/AABB.hpp: boxes along the axes. The scalars are a
-- parameter, vectors are tables over the axis tags below `dim`, and the extents are relative to the
-- box's origin, as in the source.
pub mod Extend
pub mod Meet
mod Tests
use spearhed.Base.{ℕ, zero, suc, Box, Bool, true, false, not, ◌&&◌, ◌||◌, if◌then◌else◌}

pub record Scalar (A : Type 0) : Type 0 where
  pub below : A → A → Bool
  pub plus : A → A → A
  pub minus : A → A → A
  pub times : A → A → A
  pub zero_scalar : A
  pub one_scalar : A
  pub highest : A
  pub lowest : A
  pub dim : ℕ

pub record Aabb (A : Type 0) : Type 0 where
  pub origin : Box A
  pub min : Box A
  pub max : Box A

module _ {A : Type 0} (sc : Scalar A) where
  -- AABB(), which holds no vector
  unfoldable pub default_box : Aabb A
  default_box = record {
    origin = λ tag. sc.zero_scalar;
    min = λ tag. sc.highest;
    max = λ tag. sc.lowest;
  }

  -- extend, by a vector
  unfoldable pub extend_vec : Box A → Aabb A → Aabb A
  extend_vec vec b = record b {
    min = λ tag. if sc.below (vec tag) (b.min tag) then vec tag else b.min tag;
    max = λ tag. if sc.below (b.max tag) (vec tag) then vec tag else b.max tag;
  }

  -- extend, by a box
  unfoldable pub extend_box : Aabb A → Aabb A → Aabb A
  extend_box other b = record b {
    min = λ tag. if sc.below (other.min tag) (b.min tag) then other.min tag else b.min tag;
    max = λ tag. if sc.below (b.max tag) (other.max tag) then other.max tag else b.max tag;
  }

  unfoldable pub expand : A → Aabb A → Aabb A
  expand margin b = record b {
    min = λ tag. sc.minus (b.min tag) margin;
    max = λ tag. sc.plus (b.max tag) margin;
  }

  abbrev pub get_position : Aabb A → Box A → Box A
  get_position b relative_pos tag = sc.plus (b.origin tag) (relative_pos tag)

  -- all_of_tag over the first axes
  unfoldable pub all_of_tag : ℕ → Box Bool → Bool
  all_of_tag zero test = true
  all_of_tag (suc n) test = all_of_tag n test && test n

  unfoldable pub intersects : Aabb A → Aabb A → Bool
  intersects a b =
      all_of_tag sc.dim
        (λ tag. not (sc.below (b.max tag) (a.min tag) || sc.below (a.max tag) (b.min tag)))

  -- `v *= max - min` over the first axes
  unfoldable pub extents : ℕ → Aabb A → A
  extents zero b = sc.one_scalar
  extents (suc n) b = sc.times (extents n b) (sc.minus (b.max n) (b.min n))

  unfoldable pub compute_volume : Aabb A → A
  compute_volume b = extents sc.dim b
