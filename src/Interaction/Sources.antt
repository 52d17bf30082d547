-- ===== src/Interaction/Sources.antt =====
-- The policies of interact agree: the unified launch gathers what the launches per source do.
use mathlib.Core.Path.{subst}
use spearhed.Base.{
  ℕ, ◌<◌, ◌≡◌, refl, sym, ap, ◌∙◌, inl, inr, Box, ◌==◌, Bool, true, false, List, [], ◌∷◌, length,
  if◌then◌else◌, Covers, Distinct, run_blocks, Bool-cases,
}
use spearhed.Interaction.{
  Functor, Own, SourceView, Launch, process_sources, frame_interaction_kernel,
  unified_frame_interaction_kernel, per_source, unified_source, interact,
}
use spearhed.Interaction.Sweep.{IsCulled, Seen, seen, meet_source, meet_sources}
use spearhed.Interaction.Grid.{loaded, swept, gathered, over, Kept, meet_source-Kept}
use spearhed.Interaction.Launched.{IsSound, sees, launch, launch-sees, launch-gathered}

module _ {A V P R N Q C : Type 0} (fn : Functor A V P R N Q C) (l : Launch fn)
    (sound : IsSound fn l) where
  -- The kernel of one source is the unified kernel of that source alone.
  frame_interaction_kernel-unified :
      (view : SourceView V) (block : ℕ) (memory : Box (Box P))
      → frame_interaction_kernel fn l view block memory
        ≡ unified_frame_interaction_kernel fn l (view ∷ []) block memory
  unfolding frame_interaction_kernel unified_frame_interaction_kernel process_sources
  frame_interaction_kernel-unified view block memory = refl

  run_blocks-unified :
      (view : SourceView V) (order : List ℕ) (memory : Box (Box P))
      → run_blocks (frame_interaction_kernel fn l view) order memory
        ≡ launch fn l sound (view ∷ []) order memory
  run_blocks-unified view order memory =
      ap (λ k. run_blocks k order memory)
        (λ i block m. frame_interaction_kernel-unified view block m i)

  -- Sweeping more sources from where a launch left a particle.
  swept-swept :
      (first rest : Own A R Q C → Own A R Q C) (p : P)
      → ((own : Own A R Q C) → Kept fn own (first own))
      → swept fn rest (swept fn first p) ≡ swept fn (λ own. rest (first own)) p
  swept-swept first rest p kept = elim (Bool-cases (fn.is_valid p)) [
    | inr dead ↦ simp (dead)
    | inl live ↦
        let a : C = (first (loaded fn p)).acc in
        let valid : fn.is_valid (fn.flush p a) ≡ true =
          ap (λ (s : Seen A N). s.live) (sound.separate.seen_flush p a) ∙ live in
        let registers : loaded fn (fn.flush p a) ≡ first (loaded fn p) =
          again a ∙ sym (kept (loaded fn p)) in
        simp (live, valid, registers, sound.separate.flush_flush)
  ]
    where
      again : (a : C) → loaded fn (fn.flush p a) ≡ over fn a (loaded fn p)
      again a i = record {
        valid = true;
        rel = (sound.separate.seen_flush p a i).at;
        reads = sound.separate.own_reads_flush p a i;
        acc = sound.separate.own_accumulate_flush p a i;
        prep = fn.prepare (sound.separate.own_reads_flush p a i);
      }

  gathered-nothing :
      (memory : Box (Box P)) (b idx : ℕ)
      → gathered fn l [] memory b idx ≡ memory (l.frame_ptrs b) idx
  gathered-nothing memory b idx = nothing (fn.is_valid (memory (l.frame_ptrs b) idx))
    where
      nothing :
          (v : Bool)
          → (if v
              then fn.flush
                  (memory (l.frame_ptrs b) idx)
                  (fn.own_accumulate (memory (l.frame_ptrs b) idx))
              else memory (l.frame_ptrs b) idx)
            ≡ memory (l.frame_ptrs b) idx
      nothing true = sound.separate.flush_own_accumulate (memory (l.frame_ptrs b) idx)
      nothing false = refl

  -- The launches per source leave in every particle of an indexed frame what it gathers from all
  -- sources, as they were before the first launch.
  per_source-gathered :
      (order : Box (List ℕ)) (views : List (SourceView V)) (memory : Box (Box P)) (b idx : ℕ)
      → ((k : ℕ) → Covers l.total_frames (order k))
      → ((k : ℕ) → Distinct (order k))
      → IsCulled fn l.radius2 l.frame_ptrs l.total_frames (sees fn memory)
      → b < l.total_frames
      → idx < fn.frame_size
      → per_source fn l order views memory (l.frame_ptrs b) idx ≡ gathered fn l views memory b idx
  unfolding per_source
  per_source-gathered order [] memory b idx covers distinct culled lt small =
      sym (gathered-nothing memory b idx)
  per_source-gathered order (view ∷ views) memory b idx covers distinct culled lt small =
      per_source-gathered order views after b idx covers distinct after_culled lt small
      ∙ ap
          (λ v.
            swept fn
              (meet_sources fn l.radius2 (l.target (l.region_idx b)).volume v (l.frame_ptrs b) idx
                (l.region_idx b) views)
              (after (l.frame_ptrs b) idx))
          same
      ∙ ap
          (swept fn (
            meet_sources fn l.radius2 (l.target (l.region_idx b)).volume before (l.frame_ptrs b) idx
              (l.region_idx b) views))
          own
      ∙ swept-swept
          (meet_source fn l.radius2 (l.target (l.region_idx b)).volume before (l.frame_ptrs b) idx
            (l.region_idx b) view)
          (meet_sources fn l.radius2 (l.target (l.region_idx b)).volume before (l.frame_ptrs b) idx
            (l.region_idx b) views)
          (memory (l.frame_ptrs b) idx)
          (meet_source-Kept fn l.radius2 (l.target (l.region_idx b)).volume before (l.frame_ptrs b)
            idx (l.region_idx b) view)
    where
      before : Box (Box (Seen A N))
      before = sees fn memory

      after : Box (Box P)
      after = run_blocks (frame_interaction_kernel fn l view) (order (length views)) memory

      same : (λ f i. seen fn (after f i)) ≡ before
      same =
          ap (λ (m : Box (Box P)). λ f i. seen fn (m f i))
            (run_blocks-unified view (order (length views)) memory)
          ∙ (λ j f i. launch-sees fn l sound (view ∷ []) (order (length views)) memory f i j)

      after_culled : IsCulled fn l.radius2 l.frame_ptrs l.total_frames (sees fn after)
      after_culled = subst (IsCulled fn l.radius2 l.frame_ptrs l.total_frames) (sym same) culled

      own : after (l.frame_ptrs b) idx ≡ gathered fn l (view ∷ []) memory b idx
      own =
          ap (λ (m : Box (Box P)). m (l.frame_ptrs b) idx)
            (run_blocks-unified view (order (length views)) memory)
          ∙ launch-gathered fn l sound (view ∷ []) (order (length views)) memory b idx culled
              (covers (length views)) (distinct (length views)) lt small

  unified_source-gathered :
      (order : List ℕ) (views : List (SourceView V)) (memory : Box (Box P)) (b idx : ℕ)
      → Covers l.total_frames order
      → Distinct order
      → IsCulled fn l.radius2 l.frame_ptrs l.total_frames (sees fn memory)
      → b < l.total_frames
      → idx < fn.frame_size
      → unified_source fn l order views memory (l.frame_ptrs b) idx
        ≡ gathered fn l views memory b idx
  unfolding unified_source
  unified_source-gathered order [] memory b idx covers distinct culled lt small =
      sym (gathered-nothing memory b idx)
  unified_source-gathered order (view ∷ views) memory b idx covers distinct culled lt small =
      launch-gathered fn l sound (view ∷ views) order memory b idx culled covers distinct lt small

  pub interact-gathered :
      (order : Box (List ℕ)) (views : List (SourceView V)) (memory : Box (Box P)) (b idx : ℕ)
      → ((k : ℕ) → Covers l.total_frames (order k))
      → ((k : ℕ) → Distinct (order k))
      → IsCulled fn l.radius2 l.frame_ptrs l.total_frames (sees fn memory)
      → b < l.total_frames
      → idx < fn.frame_size
      → interact fn l order views memory (l.frame_ptrs b) idx ≡ gathered fn l views memory b idx
  unfolding interact
  interact-gathered order views memory b idx covers distinct culled lt small =
      elim (Bool-cases (length views == 1)) [
        | inl one ↦
            rw one (per_source-gathered order views memory b idx covers distinct culled lt small)
        | inr many ↦ rw many (
            unified_source-gathered (order 0) views memory b idx (covers 0) (distinct 0) culled lt
              small)
      ]
