-- ===== src/BoundingBox/Extend.antt =====
-- Extending a box.
use spearhed.Base.{ℕ, ◌<◌, ◌≡◌, ◌↔◌, inl, inr, Box, Bool, true, false, if◌then◌else◌, Bool-cases}
use spearhed.BoundingBox.{Scalar, Aabb, extend_vec, extend_box}

module _ {A : Type 0} (sc : Scalar A) where
  abbrev pub AtMost : A → A → Type 0
  AtMost a b = sc.below b a ≡ false

  -- What a total order promises; values that are no number have no place in it.
  pub record IsTotal : Type 0 where
    pub at_most_trans : (a b c : A) → AtMost a b → AtMost b c → AtMost a c
    pub at_most_of_below : (a b : A) → sc.below a b ≡ true → AtMost a b
    pub at_most_refl : (a : A) → AtMost a a

  -- The vector lies in the box.
  abbrev pub Contains : Aabb A → Box A → Type 0
  Contains b vec =
      (tag : ℕ) → tag < sc.dim → AtMost (b.min tag) (vec tag) × AtMost (vec tag) (b.max tag)

  -- The first box lies in the second.
  abbrev pub Within : Aabb A → Aabb A → Type 0
  Within a b =
      (tag : ℕ) → tag < sc.dim → AtMost (b.min tag) (a.min tag) × AtMost (a.max tag) (b.max tag)

  module _ (total : IsTotal) where
    lower :
        (a b : A)
        → AtMost (if sc.below a b then a else b) a × AtMost (if sc.below a b then a else b) b
    lower a b = elim (Bool-cases (sc.below a b)) [
      | inl e ↦ rw e (total.at_most_refl a, total.at_most_of_below a b e)
      | inr e ↦ rw e (e, total.at_most_refl b)
    ]

    upper :
        (a b : A)
        → AtMost a (if sc.below b a then a else b) × AtMost b (if sc.below b a then a else b)
    upper a b = elim (Bool-cases (sc.below b a)) [
      | inl e ↦ rw e (total.at_most_refl a, total.at_most_of_below b a e)
      | inr e ↦ rw e (e, total.at_most_refl b)
    ]

    either : (P : A → Type 0) (t : Bool) (a b : A) → P a → P b → P (if t then a else b)
    either P true a b p q = p
    either P false a b p q = q

    -- A box that is extended by a vector is the least one that holds the vector and the old box.
    pub extend_vec-least :
        (vec : Box A) (b : Aabb A)
        → Contains (extend_vec sc vec b) vec
          × Within b (extend_vec sc vec b)
          × ((c : Aabb A) → Contains c vec → Within b c → Within (extend_vec sc vec b) c)
    unfolding extend_vec
    extend_vec-least vec b = (
      λ tag lt. ((lower (vec tag) (b.min tag)).0, (upper (vec tag) (b.max tag)).0),
      λ tag lt. ((lower (vec tag) (b.min tag)).1, (upper (vec tag) (b.max tag)).1),
      λ c holds around tag lt. (
        either (λ a. AtMost (c.min tag) a) _ (vec tag) (b.min tag) (holds tag lt).0
            (around tag lt).0,
        either (λ a. AtMost a (c.max tag)) _ (vec tag) (b.max tag) (holds tag lt).1
            (around tag lt).1,
      ),
    )

    -- A box that is extended by another is the least one around both.
    pub extend_box-least :
        (other b : Aabb A)
        → Within other (extend_box sc other b)
          × Within b (extend_box sc other b)
          × ((c : Aabb A) → Within other c → Within b c → Within (extend_box sc other b) c)
    unfolding extend_box
    extend_box-least other b = (
      λ tag lt. ((lower (other.min tag) (b.min tag)).0, (upper (other.max tag) (b.max tag)).0),
      λ tag lt. ((lower (other.min tag) (b.min tag)).1, (upper (other.max tag) (b.max tag)).1),
      λ c outside around tag lt. (
        either (λ a. AtMost (c.min tag) a) _ (other.min tag) (b.min tag) (outside tag lt).0
            (around tag lt).0,
        either (λ a. AtMost a (c.max tag)) _ (other.max tag) (b.max tag) (outside tag lt).1
            (around tag lt).1,
      ),
    )

    pub Within-trans : (a b c : Aabb A) → Within a b → Within b c → Within a c
    Within-trans a b c inside outside tag lt = (
      total.at_most_trans _ _ _ (outside tag lt).0 (inside tag lt).0,
      total.at_most_trans _ _ _ (inside tag lt).1 (outside tag lt).1,
    )

    pub Contains-mono : (a b : Aabb A) (vec : Box A) → Within a b → Contains a vec → Contains b vec
    Contains-mono a b vec outside holds tag lt = (
      total.at_most_trans _ _ _ (outside tag lt).0 (holds tag lt).0,
      total.at_most_trans _ _ _ (holds tag lt).1 (outside tag lt).1,
    )

    pub Within-extend_vec :
        (vec : Box A) (b c : Aabb A)
        → Within (extend_vec sc vec b) c ↔ (Contains c vec × Within b c)
    Within-extend_vec vec b c = (
      λ inside. (
        Contains-mono (extend_vec sc vec b) c vec inside (extend_vec-least vec b).0,
        Within-trans b (extend_vec sc vec b) c (extend_vec-least vec b).1 inside,
      ),
      λ (holds, around). (extend_vec-least vec b).2 c holds around,
    )

    pub Within-extend_box :
        (other b c : Aabb A) → Within (extend_box sc other b) c ↔ (Within other c × Within b c)
    Within-extend_box other b c = (
      λ inside. (
        Within-trans other (extend_box sc other b) c (extend_box-least other b).0 inside,
        Within-trans b (extend_box sc other b) c (extend_box-least other b).1 inside,
      ),
      λ (outside, around). (extend_box-least other b).2 c outside around,
    )
