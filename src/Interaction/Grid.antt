-- ===== src/Interaction/Grid.antt =====
-- What the slots of one frame are left with when its registers are loaded, swept and stored.
use mathlib.Core.Path.{subst}
use native.Mathlib.Decide.{ℕ_discrete}
use spearhed.Base.{
  ℕ, zero, suc, ◌+◌, ◌-◌, ◌<◌, ◌≡◌, ◌≢◌, ◌⊎◌, refl, ap, ◌∙◌, inl, inr, Box, Bool, true, false, List,
  [], ◌∷◌, if◌then◌else◌, Covers, Distinct, run_blocks, run_blocks-slot, run_blocks_establishes,
  Bool-cases, ne→==, ==_self,
}
use spearhed.Interaction.{Functor, Own, SourceView, Launch, load_slot, store_slot}
use spearhed.Interaction.Sweep.{
  IsFar, Culls, Seen, seen, meet_frame, meet_frames, meet_regions, meet_source, meet_sources,
}

-- The accumulated attributes can be set and read back, and none of them is one that is read.
pub record IsSeparate {A V P R N Q C : Type 0} (fn : Functor A V P R N Q C) : Type 0 where
  pub seen_flush : (p : P) (a : C) → seen fn (fn.flush p a) ≡ seen fn p
  pub own_reads_flush : (p : P) (a : C) → fn.own_reads (fn.flush p a) ≡ fn.own_reads p
  pub own_accumulate_flush : (p : P) (a : C) → fn.own_accumulate (fn.flush p a) ≡ a
  pub flush_own_accumulate : (p : P) → fn.flush p (fn.own_accumulate p) ≡ p
  pub flush_flush : (p : P) (a b : C) → fn.flush (fn.flush p a) b ≡ fn.flush p b

module _ {A V P R N Q C : Type 0} (fn : Functor A V P R N Q C) where
  abbrev pub loaded : P → Own A R Q C
  loaded p = record {
    valid = true;
    rel = fn.relative_pos p;
    reads = fn.own_reads p;
    acc = fn.own_accumulate p;
    prep = fn.prepare (fn.own_reads p);
  }

  -- A particle after the sweep `sweep` of its registers.
  abbrev pub swept : (Own A R Q C → Own A R Q C) → P → P
  swept sweep p = if fn.is_valid p then fn.flush p (sweep (loaded p)).acc else p

  module _ (l : Launch fn) (views : List (SourceView V)) (memory : Box (Box P)) (b idx : ℕ) where
    -- What a launch over all of `views` leaves in slot `idx` of block `b`'s frame.
    abbrev pub gathered : P
    gathered =
        swept
          (meet_sources fn l.radius2 (l.target (l.region_idx b)).volume
            (λ f i. seen fn (memory f i)) (l.frame_ptrs b) idx (l.region_idx b) views)
          (memory (l.frame_ptrs b) idx)

  -- Loading, sweeping and storing one slot, for any sweep that acts slot by slot and keeps the
  -- liveness flag.
  pub store-swept :
      (order : List ℕ) (frame : Box P) (junk regs : Box (Own A R Q C)) (idx : ℕ)
      (sweep : Own A R Q C → Own A R Q C)
      → Distinct order
      → Covers fn.frame_size order
      → idx < fn.frame_size
      → ((own : Own A R Q C) → (sweep own).valid ≡ own.valid)
      → regs idx ≡ sweep (run_blocks (load_slot fn frame) order junk idx)
      → run_blocks (store_slot fn regs) order frame idx ≡ swept sweep (frame idx)
  unfolding load_slot store_slot
  store-swept order frame junk regs idx sweep distinct covers lt keeps e =
      stored ∙ elim (Bool-cases (fn.is_valid (frame idx))) [
        | inl live ↦ simp (e, load, live, keeps)
        | inr dead ↦ simp (e, load, dead, keeps)
      ]
    where
      first : Own A R Q C → Own A R Q C
      first own =
          if fn.is_valid (frame idx) then loaded (frame idx) else record own { valid = false }

      load_other : (c : ℕ) (s : Box (Own A R Q C)) → idx ≢ c → load_slot fn frame c s idx ≡ s idx
      load_other c s ne = elim (Bool-cases (fn.is_valid (frame c))) [
        | inl v ↦ rw (v, ne→== idx c ne) refl
        | inr v ↦ rw (v, ne→== idx c ne) refl
      ]

      load_own : (s : Box (Own A R Q C)) → load_slot fn frame idx s idx ≡ first (s idx)
      load_own s = elim (Bool-cases (fn.is_valid (frame idx))) [
        | inl v ↦ simp (v, ==_self idx)
        | inr v ↦ simp (v, ==_self idx)
      ]

      load : run_blocks (load_slot fn frame) order junk idx ≡ first (junk idx)
      load =
          run_blocks-slot (load_slot fn frame) first idx load_other load_own order junk distinct
            (covers idx lt)

      last : P → P
      last p = if (regs idx).valid then fn.flush p (regs idx).acc else p

      store_other : (c : ℕ) (s : Box P) → idx ≢ c → store_slot fn regs c s idx ≡ s idx
      store_other c s ne = elim (Bool-cases (regs c).valid) [
        | inl v ↦ rw (v, ne→== idx c ne) refl
        | inr v ↦ rw v refl
      ]

      store_own : (s : Box P) → store_slot fn regs idx s idx ≡ last (s idx)
      store_own s = elim (Bool-cases (regs idx).valid) [
        | inl v ↦ simp (v, ==_self idx)
        | inr v ↦ simp v
      ]

      stored : run_blocks (store_slot fn regs) order frame idx ≡ last (frame idx)
      stored =
          run_blocks-slot (store_slot fn regs) last idx store_other store_own order frame distinct
            (covers idx lt)

  -- Registers that are loaded hold their slot's particle, or none.
  pub load-Culls :
      (radius2 : A) (order : List ℕ) (frame : Box P) (junk : Box (Own A R Q C)) (idx : ℕ)
      → Distinct order
      → Covers fn.frame_size order
      → idx < fn.frame_size
      → (fn.is_valid (frame idx) ≡ true → IsFar fn radius2 (fn.relative_pos (frame idx)))
      → Culls fn radius2 (run_blocks (load_slot fn frame) order junk idx)
  unfolding load_slot
  load-Culls radius2 order frame junk idx distinct covers lt far =
      run_blocks_establishes (λ (s : Box (Own A R Q C)). Culls fn radius2 (s idx))
        (load_slot fn frame) idx makes keeps order junk (inr (covers idx lt))
    where
      makes : (s : Box (Own A R Q C)) → Culls fn radius2 (load_slot fn frame idx s idx)
      makes s = elim (Bool-cases (fn.is_valid (frame idx))) [
        | inl v ↦ rw (v, ==_self idx) (λ e. far v)
        | inr v ↦ rw (v, ==_self idx) (λ e. cc)
      ]

      keeps :
          (c : ℕ) (s : Box (Own A R Q C))
          → Culls fn radius2 (s idx)
          → Culls fn radius2 (load_slot fn frame c s idx)
      keeps c s h = elim (ℕ_discrete idx c) [
        | yes e ↦ subst (λ k. Culls fn radius2 (load_slot fn frame k s idx)) e (makes s)
        | no ne ↦ elim (Bool-cases (fn.is_valid (frame c))) [
          | inl v ↦ rw (v, ne→== idx c ne) h
          | inr v ↦ rw (v, ne→== idx c ne) h
        ]
      ]

  -- The registers that a sweep leaves differ in the accumulators only.
  abbrev pub over : C → Own A R Q C → Own A R Q C
  over a own = record own { acc = a }

  abbrev pub Kept : Own A R Q C → Own A R Q C → Type 0
  Kept own own' = own' ≡ over own'.acc own

  Kept-trans : (a b c : Own A R Q C) → Kept a b → Kept b c → Kept a c
  Kept-trans a b c e f = f ∙ ap (over c.acc) e

  if-Kept : (b : Bool) (a : C) (own : Own A R Q C) → Kept own (if b then over a own else own)
  if-Kept true a own = refl
  if-Kept false a own = refl

  module _ (radius2 : A) (own_volume : V) (view : Box (Box (Seen A N))) (own_frame idx : ℕ) where
    meet_frame-Kept :
        (volume : V) (f : ℕ) (own : Own A R Q C)
        → Kept own (meet_frame fn radius2 own_volume view own_frame idx volume f own)
    meet_frame-Kept volume f own = if-Kept own.valid _ own

    meet_frames-Kept :
        (volume : V) (frames : List ℕ) (own : Own A R Q C)
        → Kept own (meet_frames fn radius2 own_volume view own_frame idx volume frames own)
    meet_frames-Kept volume [] own = refl
    meet_frames-Kept volume (f ∷ fs) own = Kept-trans own _ _ (meet_frame-Kept volume f own) (
        meet_frames-Kept volume fs
          (meet_frame fn radius2 own_volume view own_frame idx volume f own))

    meet_regions-Kept :
        (source : SourceView V) (rounds n : ℕ) (own : Own A R Q C)
        → Kept own (meet_regions fn radius2 own_volume view own_frame idx source rounds n own)
    meet_regions-Kept source zero n own = refl
    meet_regions-Kept source (suc rounds) n own =
        let volume : V = (source.regions (source.neighbour_regions n)).volume in
        let frames : List ℕ = (source.regions (source.neighbour_regions n)).frames in
        Kept-trans own _ _ (meet_frames-Kept volume frames own) (
          meet_regions-Kept source rounds (suc n)
            (meet_frames fn radius2 own_volume view own_frame idx volume frames own))

    pub meet_source-Kept :
        (r : ℕ) (source : SourceView V) (own : Own A R Q C)
        → Kept own (meet_source fn radius2 own_volume view own_frame idx r source own)
    meet_source-Kept r source own =
        meet_regions-Kept source (source.region_offsets (r + 1) - source.region_offsets r)
          (source.region_offsets r) own

    pub meet_sources-Kept :
        (r : ℕ) (sources : List (SourceView V)) (own : Own A R Q C)
        → Kept own (meet_sources fn radius2 own_volume view own_frame idx r sources own)
    meet_sources-Kept r [] own = refl
    meet_sources-Kept r (source ∷ sources) own =
        Kept-trans own _ _ (meet_source-Kept r source own) (
          meet_sources-Kept r sources
            (meet_source fn radius2 own_volume view own_frame idx r source own))

  module _ (separate : IsSeparate fn) where
    pub store-seen :
        (regs : Box (Own A R Q C)) (order : List ℕ) (frame : Box P) (i : ℕ)
        → seen fn (run_blocks (store_slot fn regs) order frame i) ≡ seen fn (frame i)
    unfolding store_slot run_blocks
    store-seen regs [] frame i = refl
    store-seen regs (c ∷ order) frame i = store-seen regs order _ i ∙ one
      where
        one : seen fn (store_slot fn regs c frame i) ≡ seen fn (frame i)
        one = elim (Bool-cases (regs c).valid) [
          | inr v ↦ rw v refl
          | inl v ↦ elim (ℕ_discrete i c) [
            | no ne ↦ rw (v, ne→== i c ne) refl
            | yes e ↦
                subst (λ k. seen fn (store_slot fn regs k frame i) ≡ seen fn (frame i)) e
                  (one_self (Bool-cases (regs i).valid))
          ]
        ]
          where
            one_self :
                ((regs i).valid ≡ true) ⊎ ((regs i).valid ≡ false)
                → seen fn (store_slot fn regs i frame i) ≡ seen fn (frame i)
            one_self (inl w) = rw (w, ==_self i) (separate.seen_flush (frame i) (regs i).acc)
            one_self (inr w) = rw w refl
