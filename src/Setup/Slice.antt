-- ===== src/Setup/Slice.antt =====
-- The launches over one block's slice of regions.
use mathlib.Core.Path.{subst}
use native.Mathlib.Decide.{ℕ_discrete, dec_lt}
use spearhed.Base.{
  ℕ, suc, ◌+◌, ◌-◌, ◌%◌, ◌<◌, ◌≤◌, ◌≡◌, ◌≢◌, ◌⊎◌, ◌*◌, refl, sym, ap, ◌∙◌, arith, Box, leb, ◌==◌,
  some, i31, true, false, lt→ltb, le→ltb, lt→leb, le→leb, ==_self, ==_iff, ne→==, Bool-cases, inl,
  inr, Covers, Distinct, All, Any, prefix_sum, prefix_sum_congr, run_blocks-look, run_blocks_keeps,
}
use spearhed.FrameDispatch.{inclusive_scan_host}
use spearhed.FrameDispatch.Scan.{inclusive_scan_host-prefix_sum}
use spearhed.ParticleInit.{IsDivCeil, Frame, Created, calculate_frames}
use spearhed.ParticleInit.Launch.{init_particle_regions-Holds}
use spearhed.RegionBuffer.{Region}
use spearhed.TreeReduce.Tree.{prefix_sum_entry}
use spearhed.Setup.{SetupBlock, Run, shift, unshift, count_slice, init_block_slice}

-- What a species' launches take for granted of their run.
pub record IsFair {P : Type 0} (run : Run P) : Type 0 where
  pub ceil : IsDivCeil run.div_ceil
  pub positive : 0 < run.frame_size
  pub heap_lasts : (begin b : ℕ) → run.allocates begin b ≡ true
  pub slots_covered : Covers run.frame_size run.slot_order
  pub counts_covered : (n : ℕ) → Covers n (run.count_order n)
  pub counts_once : (n : ℕ) → Distinct (run.count_order n)
  pub inits_covered : (n : ℕ) → Covers n (run.init_order n)
  pub inits_below : (n : ℕ) → All {0, 0} (λ b. b < n) (run.init_order n)

module _ {V P : Type 0} (run : Run P) (fair : IsFair run) (block : SetupBlock V P) where
  -- A region with the count that the block's recipe gives it.
  abbrev pub counted : Region V → Region V
  counted region = record region { num_particles = block.num_particles_to_create region }

  -- The number of frames that the region needs.
  abbrev pub needed : Region V → ℕ
  needed region = run.div_ceil (block.num_particles_to_create region) run.frame_size

  abbrev kernel : ℕ → ℕ → Box (Region V) × Box ℕ → Box (Region V) × Box ℕ
  kernel = calculate_frames run.frame_size run.div_ceil block.num_particles_to_create

  -- A region and its number of frames.
  abbrev look : ℕ → Box (Region V) × Box ℕ → Region V × ℕ
  look r (regions, frames) = (regions r, frames r)

  abbrev next : Region V × ℕ → Region V × ℕ
  next (region, frames) = (counted region, needed region)

  kernel-own :
      (n r : ℕ) (s : Box (Region V) × Box ℕ) → r < n → look r (kernel n r s) ≡ next (look r s)
  unfolding calculate_frames
  kernel-own n r (regions, frames) lt = rw (lt→leb n r lt, ==_self r) refl

  kernel-other : (n r c : ℕ) (s : Box (Region V) × Box ℕ) → r ≢ c → look r (kernel n c s) ≡ look r s
  unfolding calculate_frames
  kernel-other n r c (regions, frames) ne = elim (Bool-cases (leb n c)) [
    | inl e ↦ rw e refl
    | inr e ↦ rw (e, ne→== r c ne) refl
  ]

  kernel-beyond : (n r c : ℕ) (s : Box (Region V) × Box ℕ) → n ≤ r → (kernel n c s).0 r ≡ s.0 r
  unfolding calculate_frames
  kernel-beyond n r c (regions, frames) le = elim (dec_lt c n) [
    | yes lt ↦ rw (lt→leb n c lt, ne→== r c (λ e. omega arith)) refl
    | no ge ↦ rw (le→leb n c (omega arith)) refl
  ]

  count_slice-counted :
      (n r : ℕ) (slice : Box (Region V))
      → r < n
      → look r (count_slice run block n slice) ≡ next (slice r, 0)
  unfolding count_slice
  count_slice-counted n r slice lt =
      run_blocks-look (look r) (kernel n) r next (λ s. kernel-own n r s lt) (run.count_order n)
        (slice, run.fresh_counts) (λ c t member ne. kernel-other n r c t ne) (fair.counts_once n)
        (fair.counts_covered n r lt)

  count_slice-beyond :
      (n r : ℕ) (slice : Box (Region V)) → n ≤ r → (count_slice run block n slice).0 r ≡ slice r
  unfolding count_slice
  count_slice-beyond n r slice le =
      run_blocks_keeps (λ (s : Box (Region V) × Box ℕ). s.0 r) (kernel n) (run.count_order n)
        (slice, run.fresh_counts) (λ c s member. kernel-beyond n r c s le)

  -- The frame holds the region's particle `j`, live and placed.
  abbrev pub HasParticle : Region V → ℕ → Frame P → Type 0
  HasParticle region j f =
      ((f.slots (j % run.frame_size)).multi_mask ≡ 1)
      × ((f.slots (j % run.frame_size)).particle ≡ block.place_particle region j)

  -- The state after a slice: the regions in it are counted and filled, the others untouched.
  pub record IsSlice (begin n : ℕ) (regions new : Box (Region V)) (created made : Created P)
      : Type 0 where
    pub counts : (i : ℕ) → i < n → new (begin + i) ≡ counted (regions (begin + i))
    pub outside : (r : ℕ) → (r < begin) ⊎ (begin + n ≤ r) → new r ≡ regions r
    pub frames_below : (r : ℕ) → r < begin → made.frames r ≡ created.frames r
    pub placed :
        (i j : ℕ)
        → i < n
        → j < block.num_particles_to_create (regions (begin + i))
        → Any (HasParticle (counted (regions (begin + i))) j) (made.frames (begin + i))

  shifted :
      {X : Type 0} (begin i : ℕ) (box slice : Box X) → unshift begin box slice (begin + i) ≡ slice i
  shifted begin i box slice =
      let e : (begin + i) - begin ≡ i = omega arith in
      rw (le→ltb (begin + i) begin (omega arith), e) refl

  unshifted :
      {X : Type 0} (begin r : ℕ) (box slice : Box X) → r < begin → unshift begin box slice r ≡ box r
  unshifted begin r box slice lt = rw (lt→ltb r begin lt) refl

  module _ (begin n : ℕ) (regions : Box (Region V)) (created : Created P)
      (fits : prefix_sum (λ i. needed (regions (begin + i))) n < i31) where
    abbrev slice : Box (Region V) × Box ℕ
    slice = count_slice run block n (shift begin regions)

    slice-counted : (i : ℕ) → i < n → slice.0 i ≡ counted (regions (begin + i))
    slice-counted i lt =
        ap (λ (s : Region V × ℕ). s.0) (count_slice-counted n i (shift begin regions) lt)

    slice-needed : (i : ℕ) → i < n → slice.1 i ≡ needed (regions (begin + i))
    slice-needed i lt =
        ap (λ (s : Region V × ℕ). s.1) (count_slice-counted n i (shift begin regions) lt)

    new_regions-outside :
        (r : ℕ) → (r < begin) ⊎ (begin + n ≤ r) → unshift begin regions slice.0 r ≡ regions r
    new_regions-outside r (inl lt) = unshifted begin r regions slice.0 lt
    new_regions-outside r (inr le) =
        let e : begin + (r - begin) ≡ r = omega arith in
        rw (le→ltb r begin (omega arith))
          (count_slice-beyond n (r - begin) (shift begin regions) (omega arith) ∙ ap regions e)

    total : prefix_sum slice.1 n ≡ prefix_sum (λ i. needed (regions (begin + i))) n
    total = prefix_sum_congr _ _ n slice-needed

    sizes : Box ℕ
    sizes i = run.div_ceil (slice.0 i).num_particles run.frame_size

    sizes-needed : (i : ℕ) → i < n → sizes i ≡ needed (regions (begin + i))
    unfolding sizes
    sizes-needed i lt =
        ap (λ (r : Region V). run.div_ceil r.num_particles run.frame_size) (slice-counted i lt)

    slice-sizes : (m : ℕ) → m ≤ n → prefix_sum slice.1 m ≡ prefix_sum sizes m
    slice-sizes m le =
        prefix_sum_congr _ _ m
          (λ i lt. slice-needed i (omega arith) ∙ sym (sizes-needed i (omega arith)))

    -- The scanned counts of frames.
    scan : Box ℕ × ℕ
    scan = inclusive_scan_host slice.1 n

    scan-sizes :
        ((m : ℕ) → m < n → scan.0 m ≡ prefix_sum sizes (suc m)) × (scan.1 ≡ prefix_sum sizes n)
    unfolding scan
    scan-sizes =
        let (entries, _, last) =
          inclusive_scan_host-prefix_sum slice.1 n (omega (arith, total, fits)) in
        (
          λ m lt. entries m lt ∙ slice-sizes (suc m) (omega arith),
          last ∙ slice-sizes n (omega arith),
        )

    few_frames : prefix_sum sizes n < i31
    few_frames = omega (arith, fits, total, slice-sizes n (omega arith))

    -- A region with a particle needs a frame.
    some_frame :
        (i j : ℕ)
        → i < n
        → j < block.num_particles_to_create (regions (begin + i))
        → 0 < prefix_sum sizes n
    some_frame i j i_lt j_lt =
        let enough =
          fair.ceil.enough (block.num_particles_to_create (regions (begin + i))) run.frame_size
            fair.positive in
        let entry = prefix_sum_entry sizes n i i_lt in
        elim (ℕ_discrete (needed (regions (begin + i))) 0) [
          | no ne ↦ omega (arith, entry, sizes-needed i i_lt)
          | yes none_needed ↦
              let le : block.num_particles_to_create (regions (begin + i)) ≤ 0 * run.frame_size =
                rw none_needed at enough in
              absurd (omega (arith, le))
        ]

    -- The launches over a slice end, and fill it.
    pub init_block_slice-IsSlice :
        (out : Box (Region V) × Created P) × (init_block_slice run block begin n (regions, created)
          ≡ some out)
        × IsSlice begin n regions out.0 created out.1
    unfolding init_block_slice scan sizes
    init_block_slice-IsSlice = elim (Bool-cases (scan.1 == 0)) [
      | inl none_needed ↦ (
        (unshift begin regions slice.0, created),
        rw (none_needed, init_block_slice) refl,
        record {
          counts = λ i lt. shifted begin i regions slice.0 ∙ slice-counted i lt;
          outside = new_regions-outside;
          frames_below = λ r lt. refl;
          placed = λ i j i_lt j_lt. absurd (
              omega
                (arith, some_frame i j i_lt j_lt, scan-sizes.1, (==_iff scan.1 0).0 none_needed));
        },
      )
      | inr some_needed ↦
          let few : leb i31 scan.1 ≡ false =
            lt→leb i31 scan.1 (omega (arith, scan-sizes.1, few_frames)) in
          let (t, e, holds) =
            init_particle_regions-Holds run.frame_size block.place_particle fair.ceil fair.positive
              slice.0 n scan.0 run.junk run.slot_order scan-sizes.0 few_frames (run.allocates begin)
              (fair.heap_lasts begin) (run.init_order scan.1)
              (record created { frames = shift begin created.frames }) fair.slots_covered
              (subst (λ m. Covers m (run.init_order scan.1)) scan-sizes.1
                (fair.inits_covered scan.1))
              (subst (λ m. All {0, 0} (λ b. b < m) (run.init_order scan.1)) scan-sizes.1
                (fair.inits_below scan.1)) in
          (
            (
              unshift begin regions slice.0,
              record t { frames = unshift begin created.frames t.frames },
            ),
            rw (some_needed, few, e, init_block_slice) refl,
            record {
              counts = λ i lt. shifted begin i regions slice.0 ∙ slice-counted i lt;
              outside = new_regions-outside;
              frames_below = λ r lt. unshifted begin r created.frames t.frames lt;
              placed = λ i j i_lt j_lt.
                  let here = holds i j i_lt (rw (slice-counted i i_lt) j_lt) in
                  subst (λ fs. Any (HasParticle (counted (regions (begin + i))) j) fs)
                    (sym (shifted begin i created.frames t.frames))
                    (subst (λ r. Any (HasParticle r j) (t.frames i)) (slice-counted i i_lt) here);
            },
          )
    ]
