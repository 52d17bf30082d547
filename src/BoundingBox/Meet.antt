-- ===== src/BoundingBox/Meet.antt =====
-- Whether two boxes meet.
use spearhed.Base.{
  ℕ, zero, suc, ◌<◌, ◌≡◌, ◌↔◌, refl, ap, ◌∙◌, inl, inr, arith, Box, Bool, true, false, not, ◌&&◌,
  ◌||◌, if◌then◌else◌, Bool-cases,
}
use spearhed.BoundingBox.{Scalar, Aabb, all_of_tag, intersects}
use spearhed.BoundingBox.Extend.{AtMost, IsTotal, Contains}
use native.Mathlib.Decide.{ℕ_discrete}

module _ {A : Type 0} (sc : Scalar A) where
  all_of_tag_iff :
      (n : ℕ) (test : Box Bool)
      → (all_of_tag sc n test ≡ true) ↔ ((tag : ℕ) → tag < n → test tag ≡ true)
  unfolding all_of_tag
  all_of_tag_iff zero test = (λ h tag lt. elim lt [ ], λ h. refl)
  all_of_tag_iff (suc n) test = (
    λ h tag lt. elim (ℕ_discrete tag n) [
      | yes e ↦ ap test e ∙ and_right (all_of_tag sc n test) (test n) h
      | no ne ↦
          (all_of_tag_iff n test).0 (and_left (all_of_tag sc n test) (test n) h) tag (omega arith)
    ],
    λ h.
        both (all_of_tag sc n test) (test n)
          ((all_of_tag_iff n test).1 (λ tag lt. h tag (omega arith))) (h n (omega arith)),
  )
    where
      and_left : (a b : Bool) → (a && b) ≡ true → a ≡ true
      and_left true b h = refl
      and_left false b h = h

      and_right : (a b : Bool) → (a && b) ≡ true → b ≡ true
      and_right true b h = h
      and_right false b h = cc

      both : (a b : Bool) → a ≡ true → b ≡ true → (a && b) ≡ true
      both true b h h' = h'
      both false b h h' = h

  neither : (a b : Bool) → (not (a || b) ≡ true) ↔ ((a ≡ false) × (b ≡ false))
  neither true b = (λ h. cc, λ h. cc)
  neither false true = (λ h. cc, λ h. cc)
  neither false false = (λ h. (refl, refl), λ h. refl)

  -- No extent is negative.
  abbrev pub IsProper : Aabb A → Type 0
  IsProper b = (tag : ℕ) → tag < sc.dim → AtMost sc (b.min tag) (b.max tag)

  -- Over a total order, two boxes of no negative extent are found to meet exactly if some vector
  -- lies in both, their extents taken relative to one origin.
  pub intersects_iff :
      (total : IsTotal sc) (a b : Aabb A)
      → IsProper a
      → IsProper b
      → (intersects sc a b ≡ true) ↔ ((vec : Box A) × Contains sc a vec × Contains sc b vec)
  unfolding intersects
  intersects_iff total a b proper proper' = (
    λ h. (
      common,
      (λ tag lt. in_a tag lt (tests h tag lt)),
      (λ tag lt. in_b tag lt (tests h tag lt)),
    ),
    λ (vec, holds, holds'). (all_of_tag_iff sc.dim _).1 (λ tag lt.
        (neither (sc.below (b.max tag) (a.min tag)) (sc.below (a.max tag) (b.min tag))).1 (
          total.at_most_trans _ _ _ (holds tag lt).0 (holds' tag lt).1,
          total.at_most_trans _ _ _ (holds' tag lt).0 (holds tag lt).1,
        )),
  )
    where
      common : Box A
      common tag = if sc.below (a.min tag) (b.min tag) then b.min tag else a.min tag

      tests :
          all_of_tag sc sc.dim
              (λ tag. not (sc.below (b.max tag) (a.min tag) || sc.below (a.max tag) (b.min tag)))
            ≡ true
          → (tag : ℕ) → tag < sc.dim
          → AtMost sc (a.min tag) (b.max tag) × AtMost sc (b.min tag) (a.max tag)
      tests h tag lt =
          (neither (sc.below (b.max tag) (a.min tag)) (sc.below (a.max tag) (b.min tag))).0
            ((all_of_tag_iff sc.dim _).0 h tag lt)

      in_a :
          (tag : ℕ)
          → tag < sc.dim
          → AtMost sc (a.min tag) (b.max tag) × AtMost sc (b.min tag) (a.max tag)
          → AtMost sc (a.min tag) (common tag) × AtMost sc (common tag) (a.max tag)
      in_a tag lt (x, y) = elim (Bool-cases (sc.below (a.min tag) (b.min tag))) [
        | inl e ↦ rw e (total.at_most_of_below (a.min tag) (b.min tag) e, y)
        | inr e ↦ rw e (total.at_most_refl (a.min tag), proper tag lt)
      ]

      in_b :
          (tag : ℕ)
          → tag < sc.dim
          → AtMost sc (a.min tag) (b.max tag) × AtMost sc (b.min tag) (a.max tag)
          → AtMost sc (b.min tag) (common tag) × AtMost sc (common tag) (b.max tag)
      in_b tag lt (x, y) = elim (Bool-cases (sc.below (a.min tag) (b.min tag))) [
        | inl e ↦ rw e (total.at_most_refl (b.min tag), proper' tag lt)
        | inr e ↦ rw e (e, x)
      ]
