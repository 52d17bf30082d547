-- ===== src/Setup/Filled.antt =====
-- The walk over a setup's blocks.
use mathlib.Core.Path.{subst}
use spearhed.Base.{
  ℕ, ◌+◌, ◌<◌, ◌≤◌, ◌≡◌, refl, sym, ap, ◌∙◌, arith, Box, ◌==◌, true, false, some, List, [], ◌∷◌,
  length, if◌then◌else◌, i31, Bool-cases, inl, inr, All, Any, prefix_sum, prefix_sum_congr, ==_iff,
}
use spearhed.ParticleInit.{Created}
use spearhed.RegionBuffer.{Region, RegionBuffer}
use spearhed.Setup.{SetupBlock, Run, init_block_slice, init_blocks}
use spearhed.Setup.Slice.{IsFair, IsSlice, counted, needed, HasParticle, init_block_slice-IsSlice}

-- The blocks that target the species, each with the first region of its slice.
abbrev pub layout : {V P : Type 0} → List (SetupBlock V P) → ℕ → List (SetupBlock V P × ℕ)
layout [] begin = []
layout (block ∷ blocks) begin =
    if block.block_targets
    then (block, begin) ∷ layout blocks (begin + length block.volumes)
    else layout blocks begin

module _ {V P : Type 0} (block : SetupBlock V P) (blocks : List (SetupBlock V P)) (begin : ℕ) where
  layout-targets :
      block.block_targets ≡ true
      → layout (block ∷ blocks) begin
        ≡ (block, begin) ∷ layout blocks (begin + length block.volumes)
  layout-targets e = simp e refl

  layout-skips : block.block_targets ≡ false → layout (block ∷ blocks) begin ≡ layout blocks begin
  layout-skips e = simp e refl

  module _ (run : Run P) (s : Box (Region V) × Created P) where
    init_blocks-skips :
        block.block_targets ≡ false
        → init_blocks run (block ∷ blocks) begin s ≡ init_blocks run blocks begin s
    unfolding init_blocks
    init_blocks-skips e = simp e refl

    init_blocks-empty :
        block.block_targets ≡ true
        → (length block.volumes == 0) ≡ true
        → init_blocks run (block ∷ blocks) begin s
          ≡ init_blocks run blocks (begin + length block.volumes) s
    unfolding init_blocks
    init_blocks-empty e e' = simp (e, e') refl

    init_blocks-slice :
        (t : Box (Region V) × Created P)
        → block.block_targets ≡ true
        → (length block.volumes == 0) ≡ false
        → init_block_slice run block begin (length block.volumes) s ≡ some t
        → init_blocks run (block ∷ blocks) begin s
          ≡ init_blocks run blocks (begin + length block.volumes) t
    unfolding init_blocks
    init_blocks-slice t e e' e'' = simp (e, e', e'') refl

module _ {V P : Type 0} (run : Run P) (fair : IsFair run) (original : Box (Region V)) where
  -- The frames of a slice are fewer than 2^31.
  abbrev pub Fits : SetupBlock V P × ℕ → Type 0
  Fits (block, begin) =
      prefix_sum (λ i. needed run fair block (original (begin + i))) (length block.volumes) < i31

  -- A slice is counted, and holds a live and placed particle for every index below a region's
  -- count.
  abbrev pub Filled : Box (Region V) × Created P → SetupBlock V P × ℕ → Type 0
  Filled (regions, created) (block, begin) =
      (i : ℕ)
      → i < length block.volumes
      → (regions (begin + i) ≡ counted run fair block (original (begin + i)))
        × ((j : ℕ)
            → j < block.num_particles_to_create (original (begin + i))
            → Any (HasParticle run fair block (counted run fair block (original (begin + i))) j)
                (created.frames (begin + i)))

  -- Nothing before the slices changes.
  abbrev Kept : ℕ → Box (Region V) × Created P → Box (Region V) × Created P → Type 0
  Kept begin (regions, created) (regions', created') =
      (r : ℕ) → r < begin → (regions' r ≡ regions r) × (created'.frames r ≡ created.frames r)

  abbrev Ahead : ℕ → Box (Region V) → Type 0
  Ahead begin regions = (r : ℕ) → begin ≤ r → regions r ≡ original r

  Filled-slice :
      (block : SetupBlock V P) (begin : ℕ) (regions new : Box (Region V)) (created made : Created P)
      (out : Box (Region V) × Created P)
      → Ahead begin regions
      → IsSlice run fair block begin (length block.volumes) regions new created made
      → Kept (begin + length block.volumes) (new, made) out
      → Filled out (block, begin)
  Filled-slice block begin regions new created made (regions', created') ahead slice kept i lt =
      let same = ahead (begin + i) (omega arith) in
      let (same_region, same_frames) = kept (begin + i) (omega arith) in
      (
        same_region ∙ slice.counts i lt ∙ ap (counted run fair block) same,
        λ j j_lt.
            subst
              (λ fs.
                Any (HasParticle run fair block (counted run fair block (original (begin + i))) j)
                  fs)
              (sym same_frames)
              (subst
                (λ r.
                  Any (HasParticle run fair block (counted run fair block r) j)
                    (made.frames (begin + i)))
                same (slice.placed i j lt (rw same j_lt))),
      )

  pub init_blocks-Filled :
      (blocks : List (SetupBlock V P)) (begin : ℕ) (regions : Box (Region V)) (created : Created P)
      → Ahead begin regions
      → All {0, 0} Fits (layout blocks begin)
      → (out : Box (Region V) × Created P) × (init_blocks run blocks begin (regions, created)
          ≡ some out)
        × All {0, 0} (Filled out) (layout blocks begin)
        × Kept begin (regions, created) out
  unfolding init_blocks
  init_blocks-Filled [] begin regions created ahead fits =
      ((regions, created), refl, tt, λ r lt. (refl, refl))
  init_blocks-Filled (block ∷ blocks) begin regions created ahead fits =
      elim (Bool-cases block.block_targets) [
        | inr skips ↦
            let same = layout-skips block blocks begin skips in
            let (out, e, filled, kept) =
              init_blocks-Filled blocks begin regions created ahead
                (subst (All {0, 0} Fits) same fits) in
            (
              out,
              init_blocks-skips block blocks begin run (regions, created) skips ∙ e,
              subst (All {0, 0} (Filled out)) (sym same) filled,
              kept,
            )
        | inl targets ↦
            let same = layout-targets block blocks begin targets in
            let (own, rest) : All {0, 0} Fits
                ((block, begin) ∷ layout blocks (begin + length block.volumes)) =
              subst (All {0, 0} Fits) same fits in
            elim (Bool-cases (length block.volumes == 0)) [
              | inl empty ↦
                  let zero_regions = (==_iff (length block.volumes) 0).0 empty in
                  let (out, e, filled, kept) =
                    init_blocks-Filled blocks (begin + length block.volumes) regions created
                      (λ r le. ahead r (omega arith)) rest in
                  (
                    out,
                    init_blocks-empty block blocks begin run (regions, created) targets empty ∙ e,
                    subst (All {0, 0} (Filled out)) (sym same)
                        ((λ i lt. absurd (omega (arith, zero_regions))), filled),
                    λ r lt. kept r (omega arith),
                  )
              | inr some_regions ↦
                  let small : prefix_sum (λ i. needed run fair block (regions (begin + i)))
                        (length block.volumes)
                      < i31 =
                    rw
                      (prefix_sum_congr (λ i. needed run fair block (regions (begin + i)))
                        (λ i. needed run fair block (original (begin + i))) (length block.volumes)
                        (λ i lt. ap (needed run fair block) (ahead (begin + i) (omega arith))))
                      own in
                  let (t, done, slice) =
                    init_block_slice-IsSlice run fair block begin (length block.volumes) regions
                      created small in
                  let (out, e, filled, kept) =
                    init_blocks-Filled blocks (begin + length block.volumes) t.0 t.1
                      (λ r le. slice.outside r (inr le) ∙ ahead r (omega arith)) rest in
                  (
                    out,
                    init_blocks-slice block blocks begin run (regions, created) t targets
                          some_regions done
                        ∙ e,
                    subst (All {0, 0} (Filled out)) (sym same) (
                      Filled-slice block begin regions t.0 created t.1 out ahead slice kept,
                      filled,
                    ),
                    λ r lt.
                        let (same_region, same_frames) = kept r (omega arith) in
                        (
                          same_region ∙ slice.outside r (inl lt),
                          same_frames ∙ slice.frames_below r lt,
                        ),
                  )
            ]
      ]
