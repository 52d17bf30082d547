-- ===== src/Interaction/Sweep.antt =====
-- One block of the interaction: what its registers hold after the sweep of the neighbour frames.
use mathlib.Core.Path.{subst}
use native.Mathlib.Decide.{ℕ_discrete}
use spearhed.Base.{
  ℕ, zero, suc, ◌+◌, ◌-◌, ◌<◌, ◌≡◌, ◌≢◌, refl, ap, ◌∙◌, arith, inl, inr, Box, ◌==◌, ◌&&◌, Bool,
  true, false, List, [], ◌∷◌, if◌then◌else◌, Covers, Distinct, run_blocks, run_blocks_establishes,
  run_blocks_once, sym, Bool-cases, ne→==, ==_self,
}
use spearhed.Interaction.{
  Functor, PairContext, Own, Caches, SourceView, FrameContext, stage_slot, squares, interact_pair,
  sweep_slots, compute_slot, interact_with_neighbour_frame, frame_context, sweep_frames,
  sweep_regions, process_source, process_sources,
}

-- What a sweep reads of a neighbour: whether it lives, its position, and the staged record.
pub record Seen (A N : Type 0) : Type 0 where
  pub live : Bool
  pub at : Box A
  pub staged : N

module _ {A V P R N Q C : Type 0} (fn : Functor A V P R N Q C) where
  abbrev pub seen : P → Seen A N
  seen p = record { live = fn.is_valid p; at = fn.relative_pos p; staged = fn.stage p }

  -- What the functor is told of a pair: the distance and its inverse are zero at the same place.
  abbrev pub context_of : Box A → Bool → PairContext A
  context_of d is_self =
      let r2 = squares fn fn.dim d in
      if fn.below fn.nought r2
      then record {
        r_vec = d;
        r2 = r2;
        r = fn.times r2 (fn.rsqrt r2);
        inv_r = fn.rsqrt r2;
        is_self = is_self;
      }
      else record { r_vec = d; r2 = r2; r = fn.nought; inv_r = fn.nought; is_self = is_self }

  module _ (radius2 : A) (own_volume : V) (memory : Box (Box (Seen A N))) (own_frame idx : ℕ) where
    -- From the own position to the neighbour in slot `j` of frame `f`, which lies in `volume`.
    abbrev pub displacement : V → ℕ → ℕ → Own A R Q C → Box A
    displacement volume f j own tag =
        fn.minus (own.rel tag) (
          fn.plus ((memory f j).at tag)
            (fn.minus (fn.origin volume tag) (fn.origin own_volume tag)))

    -- The pair with that neighbour: the functor is called if it lives and is nearer than the
    -- radius.
    abbrev pub meet : V → ℕ → ℕ → Own A R Q C → C → C
    meet volume f j own acc =
        if (memory f j).live && fn.below (squares fn fn.dim (displacement volume f j own)) radius2
        then fn.call own.reads own.prep (memory f j).staged
            (context_of (displacement volume f j own) ((own_frame == f) && (j == idx))) acc
        else acc

    abbrev pub meet_slots : V → ℕ → Own A R Q C → ℕ → ℕ → C → C
    meet_slots volume f own zero j acc = acc
    meet_slots volume f own (suc rounds) j acc =
        meet_slots volume f own rounds (suc j) (meet volume f j own acc)

    abbrev pub meet_frame : V → ℕ → Own A R Q C → Own A R Q C
    meet_frame volume f own =
        if own.valid
        then record own { acc = meet_slots volume f own fn.frame_size 0 own.acc }
        else own

    abbrev pub meet_frames : V → List ℕ → Own A R Q C → Own A R Q C
    meet_frames volume [] own = own
    meet_frames volume (f ∷ fs) own = meet_frames volume fs (meet_frame volume f own)

    abbrev pub meet_regions : SourceView V → ℕ → ℕ → Own A R Q C → Own A R Q C
    meet_regions view zero n own = own
    meet_regions view (suc rounds) n own = meet_regions view rounds (suc n) (
        meet_frames (view.regions (view.neighbour_regions n)).volume
          (view.regions (view.neighbour_regions n)).frames own)

    -- Every live neighbour of every frame of every region in the neighbour list of region `r`.
    abbrev pub meet_source : ℕ → SourceView V → Own A R Q C → Own A R Q C
    meet_source r view own =
        meet_regions view (view.region_offsets (r + 1) - view.region_offsets r)
          (view.region_offsets r) own

    abbrev pub meet_sources : ℕ → List (SourceView V) → Own A R Q C → Own A R Q C
    meet_sources r [] own = own
    meet_sources r (view ∷ views) own = meet_sources r views (meet_source r view own)

  -- The sentinel's squared distance from a position is not below the squared radius.
  abbrev pub IsFar : A → Box A → Type 0
  IsFar radius2 rel =
      fn.below (squares fn fn.dim (λ tag. fn.minus (rel tag) fn.sentinel)) radius2 ≡ false

  -- The sentinel is far from every live particle of the indexed frames.
  abbrev pub IsCulled : A → Box ℕ → ℕ → Box (Box (Seen A N)) → Type 0
  IsCulled radius2 frame_ptrs total view =
      (b i : ℕ)
      → b < total
      → i < fn.frame_size
      → (view (frame_ptrs b) i).live ≡ true
      → IsFar radius2 (view (frame_ptrs b) i).at

  -- The sentinel is far from what the registers hold, if they hold a particle.
  abbrev pub Culls : A → Own A R Q C → Type 0
  Culls radius2 own = own.valid ≡ true → IsFar radius2 own.rel

  -- What the staging leaves in slot `j`.
  abbrev Staged : FrameContext A P → ℕ → Caches A N → Type 0
  Staged ctx j caches =
      (fn.is_valid (ctx.neighbour_frame j) ≡ true
        → (caches.nb_cache j ≡ fn.stage (ctx.neighbour_frame j))
          × (caches.pos_cache j ≡ (λ tag.
              fn.plus (fn.relative_pos (ctx.neighbour_frame j) tag)
                (fn.minus (ctx.neighbour_origin tag) (ctx.own_origin tag)))))
      × (fn.is_valid (ctx.neighbour_frame j) ≡ false → caches.pos_cache j ≡ (λ tag. fn.sentinel))

  stage_slot-own :
      (ctx : FrameContext A P) (j : ℕ) (s : Caches A N) → Staged ctx j (stage_slot fn ctx j s)
  unfolding stage_slot
  stage_slot-own ctx j s = elim (Bool-cases (fn.is_valid (ctx.neighbour_frame j))) [
    | inl e ↦ (λ h. rw (e, ==_self j) (refl, refl), λ h. cc)
    | inr e ↦ (λ h. cc, λ h. rw (e, ==_self j) refl)
  ]

  stage_slot-other :
      (ctx : FrameContext A P) (j c : ℕ) (s : Caches A N)
      → j ≢ c
      → (((stage_slot fn ctx c s).nb_cache j) ≡ s.nb_cache j)
        × (((stage_slot fn ctx c s).pos_cache j) ≡ s.pos_cache j)
  unfolding stage_slot
  stage_slot-other ctx j c s ne = elim (Bool-cases (fn.is_valid (ctx.neighbour_frame c))) [
    | inl e ↦ rw (e, ne→== j c ne) (refl, refl)
    | inr e ↦ rw (e, ne→== j c ne) (refl, refl)
  ]

  -- After the staging every slot of the frame is staged, in whatever order the slots ran.
  run_blocks-Staged :
      (ctx : FrameContext A P) (order : List ℕ) (j : ℕ) (s : Caches A N)
      → Covers fn.frame_size order
      → j < fn.frame_size
      → Staged ctx j (run_blocks (stage_slot fn ctx) order s)
  run_blocks-Staged ctx order j s covers lt =
      run_blocks_establishes (Staged ctx j) (stage_slot fn ctx) j (stage_slot-own ctx j) keeps order
        s (inr (covers j lt))
    where
      keeps : (c : ℕ) (t : Caches A N) → Staged ctx j t → Staged ctx j (stage_slot fn ctx c t)
      keeps c t st = elim (ℕ_discrete j c) [
        | yes e ↦ subst (λ k. Staged ctx j (stage_slot fn ctx k t)) e (stage_slot-own ctx j t)
        | no ne ↦
            let (nb, pos) = stage_slot-other ctx j c t ne in
            (λ h. (nb ∙ (st.0 h).0, pos ∙ (st.0 h).1), λ h. pos ∙ st.1 h)
      ]

  module _ (radius2 : A) (slot_order : List ℕ) (covers : Covers fn.frame_size slot_order)
      (distinct : Distinct slot_order) (own_volume : V) (memory : Box (Box P)) (own_frame idx : ℕ)
      (in_frame : idx < fn.frame_size) where
    abbrev view : Box (Box (Seen A N))
    view f j = seen (memory f j)

    abbrev context : V → ℕ → FrameContext A P
    context volume f = frame_context fn slot_order radius2 memory own_frame own_volume volume f

    interact_pair-meet :
        (volume : V) (f j : ℕ) (own : Own A R Q C) (caches : Caches A N) (acc : C)
        → IsFar radius2 own.rel
        → Staged (context volume f) j caches
        → interact_pair fn own radius2
            ((own_frame == f) && (j == idx))
            (caches.pos_cache j)
            (caches.nb_cache j)
            acc
          ≡ meet radius2 own_volume view own_frame idx volume f j own acc
    unfolding frame_context interact_pair
    interact_pair-meet volume f j own caches acc far st =
        elim (Bool-cases (fn.is_valid (memory f j))) [
          | inl e ↦
              rw (e, (st.0 e).0, (st.0 e).1)
                (elim (Bool-cases (
                  fn.below fn.nought (
                    squares fn fn.dim
                      (displacement radius2 own_volume view own_frame idx volume f j own)))) [
                        | inl apart ↦ simp apart refl
                        | inr same ↦ simp same refl
                      ])
          | inr e ↦ rw (e, st.1 e, far) refl
        ]

    sweep_slots-meet :
        (volume : V) (f : ℕ) (own : Own A R Q C) (caches : Caches A N) (rounds j : ℕ) (acc : C)
        → IsFar radius2 own.rel
        → j + rounds ≡ fn.frame_size
        → ((k : ℕ) → k < fn.frame_size → Staged (context volume f) k caches)
        → sweep_slots fn (context volume f) caches idx own rounds j acc
          ≡ meet_slots radius2 own_volume view own_frame idx volume f own rounds j acc
    unfolding sweep_slots frame_context
    sweep_slots-meet volume f own caches zero j acc far e st = refl
    sweep_slots-meet volume f own caches (suc rounds) j acc far e st =
        ap (sweep_slots fn (context volume f) caches idx own rounds (suc j))
          (interact_pair-meet volume f j own caches acc far (st j (omega arith)))
        ∙ sweep_slots-meet volume f own caches rounds (suc j) _ far (omega arith) st

    abbrev State : Type 0
    State = Box (Own A R Q C) × Caches A N

    interact-meet :
        (volume : V) (f : ℕ) (s : State)
        → Culls radius2 (s.0 idx)
        → (interact_with_neighbour_frame fn slot_order (context volume f) s).0 idx
          ≡ meet_frame radius2 own_volume view own_frame idx volume f (s.0 idx)
    unfolding interact_with_neighbour_frame compute_slot
    interact-meet volume f (regs, caches) far =
        run_blocks_once {0, 0, 0, 0} (λ t. Unit) (λ t. t idx ≡ regs idx)
          (λ t. t idx ≡ meet_frame radius2 own_volume view own_frame idx volume f (regs idx))
          (compute_slot fn (context volume f) staged) idx (λ c t u. tt)
          (λ c t ne u e. others c t ne ∙ e)
          (λ t u e.
            own t (subst (Culls radius2) (sym e) far)
            ∙ ap (meet_frame radius2 own_volume view own_frame idx volume f) e)
          (λ c t ne u e. others c t ne ∙ e) slot_order regs distinct (covers idx in_frame) tt refl
      where
        staged : Caches A N
        staged = run_blocks (stage_slot fn (context volume f)) slot_order caches

        others :
            (c : ℕ) (s : Box (Own A R Q C))
            → idx ≢ c
            → compute_slot fn (context volume f) staged c s idx ≡ s idx
        others c s ne = elim (Bool-cases (s c).valid) [
          | inl e ↦ rw (e, ne→== idx c ne) refl
          | inr e ↦ rw e refl
        ]

        own :
            (s : Box (Own A R Q C))
            → Culls radius2 (s idx)
            → compute_slot fn (context volume f) staged idx s idx
              ≡ meet_frame radius2 own_volume view own_frame idx volume f (s idx)
        own s near = elim (Bool-cases (s idx).valid) [
          | inl e ↦ simp (
            e,
            ==_self idx,
            sweep_slots-meet volume f (s idx) staged fn.frame_size 0 (s idx).acc (near e)
                (omega arith)
                (λ k lt. run_blocks-Staged (context volume f) slot_order k caches covers lt),
          )
          | inr e ↦ simp e
        ]

    -- A sweep keeps what the registers hold.
    meet_frame-Culls :
        (volume : V) (f : ℕ) (own : Own A R Q C)
        → Culls radius2 own
        → Culls radius2 (meet_frame radius2 own_volume view own_frame idx volume f own)
    meet_frame-Culls volume f own far = elim (Bool-cases own.valid) [
      | inl e ↦ rw e (λ v. far e)
      | inr e ↦ rw e (λ v. cc)
    ]

    meet_frames-Culls :
        (volume : V) (frames : List ℕ) (own : Own A R Q C)
        → Culls radius2 own
        → Culls radius2 (meet_frames radius2 own_volume view own_frame idx volume frames own)
    meet_frames-Culls volume [] own far = far
    meet_frames-Culls volume (f ∷ fs) own far =
        meet_frames-Culls volume fs _ (meet_frame-Culls volume f own far)

    meet_regions-Culls :
        (source : SourceView V) (rounds n : ℕ) (own : Own A R Q C)
        → Culls radius2 own
        → Culls radius2 (meet_regions radius2 own_volume view own_frame idx source rounds n own)
    meet_regions-Culls source zero n own far = far
    meet_regions-Culls source (suc rounds) n own far = meet_regions-Culls source rounds (suc n) _ (
        meet_frames-Culls (source.regions (source.neighbour_regions n)).volume
          (source.regions (source.neighbour_regions n)).frames own far)

    sweep_frames-meet :
        (volume : V) (frames : List ℕ) (s : State)
        → Culls radius2 (s.0 idx)
        → (sweep_frames fn slot_order radius2 memory own_frame own_volume volume frames s).0 idx
          ≡ meet_frames radius2 own_volume view own_frame idx volume frames (s.0 idx)
    unfolding sweep_frames
    sweep_frames-meet volume [] s far = refl
    sweep_frames-meet volume (f ∷ fs) s far =
        let met = interact-meet volume f s far in
        sweep_frames-meet volume fs _
          (subst (Culls radius2) (sym met) (meet_frame-Culls volume f (s.0 idx) far))
        ∙ ap (meet_frames radius2 own_volume view own_frame idx volume fs) met

    sweep_regions-meet :
        (source : SourceView V) (rounds n : ℕ) (s : State)
        → Culls radius2 (s.0 idx)
        → (sweep_regions fn slot_order radius2 memory own_frame own_volume source rounds n s).0 idx
          ≡ meet_regions radius2 own_volume view own_frame idx source rounds n (s.0 idx)
    unfolding sweep_regions
    sweep_regions-meet source zero n s far = refl
    sweep_regions-meet source (suc rounds) n s far =
        let volume : V = (source.regions (source.neighbour_regions n)).volume in
        let frames : List ℕ = (source.regions (source.neighbour_regions n)).frames in
        let met = sweep_frames-meet volume frames s far in
        sweep_regions-meet source rounds (suc n) _
          (subst (Culls radius2) (sym met) (meet_frames-Culls volume frames (s.0 idx) far))
        ∙ ap (meet_regions radius2 own_volume view own_frame idx source rounds (suc n)) met

    pub process_source-meet :
        (r : ℕ) (source : SourceView V) (s : State)
        → Culls radius2 (s.0 idx)
        → (process_source fn slot_order radius2 memory own_frame own_volume r source s).0 idx
          ≡ meet_source radius2 own_volume view own_frame idx r source (s.0 idx)
    unfolding process_source
    process_source-meet r source s far =
        sweep_regions-meet source (source.region_offsets (r + 1) - source.region_offsets r)
          (source.region_offsets r) s far

    -- What the sweep of all sources leaves in the registers of slot `idx` is what the slot's
    -- particle gathers from the live neighbours, in the order of the sources, of their neighbour
    -- lists, of the frames and of the slots.
    pub process_sources-meet :
        (r : ℕ) (sources : List (SourceView V)) (s : State)
        → Culls radius2 (s.0 idx)
        → (process_sources fn slot_order radius2 memory own_frame own_volume r sources s).0 idx
          ≡ meet_sources radius2 own_volume view own_frame idx r sources (s.0 idx)
    unfolding process_sources
    process_sources-meet r [] s far = refl
    process_sources-meet r (source ∷ sources) s far =
        let met = process_source-meet r source s far in
        process_sources-meet r sources _ (
          subst (Culls radius2) (sym met) (
            meet_regions-Culls source (source.region_offsets (r + 1) - source.region_offsets r)
              (source.region_offsets r) (s.0 idx) far))
        ∙ ap (meet_sources radius2 own_volume view own_frame idx r sources) met
