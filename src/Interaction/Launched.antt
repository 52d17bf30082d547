-- ===== src/Interaction/Launched.antt =====
-- A launch of the interaction: what it leaves in the particles, whatever the order of its blocks.
use mathlib.Core.Path.{subst}
use native.Mathlib.Decide.{ℕ_discrete}
use spearhed.Base.{
  ℕ, ◌<◌, ◌≡◌, ◌≢◌, refl, sym, ap, ◌∙◌, arith, inl, inr, Box, leb, List, [], ◌∷◌, Covers, Distinct,
  run_blocks, run_blocks_once, Bool-cases, ne→==, ==_self, lt→leb,
}
use spearhed.Interaction.{Functor, Own, SourceView, Launch, unified_frame_interaction_kernel}
use spearhed.Interaction.Sweep.{Seen, seen, IsCulled, meet_sources, process_sources-meet}
use spearhed.Interaction.Grid.{
  IsSeparate, swept, gathered, load-Culls, store-swept, store-seen, meet_sources-Kept,
}

-- What the index of a launch promises: every block has its own frame.
pub record IsIndex (frame_ptrs : Box ℕ) (total : ℕ) : Type 0 where
  pub own_frame : (b c : ℕ) → b < total → c < total → frame_ptrs b ≡ frame_ptrs c → b ≡ c

module _ {A V P R N Q C : Type 0} (fn : Functor A V P R N Q C) where
  abbrev pub sees : Box (Box P) → Box (Box (Seen A N))
  sees memory f i = seen fn (memory f i)

  -- What a launch takes for granted: separate attributes, slots that run once, an index with a
  -- frame per block.
  pub record IsSound (l : Launch fn) : Type 0 where
    pub separate : IsSeparate fn
    pub slots_covered : Covers fn.frame_size l.slot_order
    pub slots_once : Distinct l.slot_order
    pub index : IsIndex l.frame_ptrs l.total_frames

  module _ (l : Launch fn) (sound : IsSound l) (views : List (SourceView V)) where
    abbrev pub kernel : ℕ → Box (Box P) → Box (Box P)
    kernel = unified_frame_interaction_kernel fn l views

    kernel-sees : (c : ℕ) (s : Box (Box P)) (f i : ℕ) → sees (kernel c s) f i ≡ sees s f i
    unfolding unified_frame_interaction_kernel
    kernel-sees c s f i = elim (Bool-cases (leb l.total_frames c)) [
      | inl over ↦ rw over refl
      | inr in_range ↦ elim (ℕ_discrete f (l.frame_ptrs c)) [
        | no ne ↦ rw (in_range, ne→== f (l.frame_ptrs c) ne) refl
        | yes e ↦
            rw (e, in_range, ==_self (l.frame_ptrs c))
              (store-seen fn sound.separate _ l.slot_order (s (l.frame_ptrs c)) i)
      ]
    ]

    kernel-own :
        (b idx : ℕ) (s : Box (Box P))
        → IsCulled fn l.radius2 l.frame_ptrs l.total_frames (sees s)
        → b < l.total_frames
        → idx < fn.frame_size
        → kernel b s (l.frame_ptrs b) idx ≡ gathered fn l views s b idx
    unfolding unified_frame_interaction_kernel
    kernel-own b idx s culled lt small =
        rw (lt→leb l.total_frames b lt, ==_self (l.frame_ptrs b))
          (store-swept fn l.slot_order (s (l.frame_ptrs b)) l.junk.0 _ idx
            (meet_sources fn l.radius2 (l.target (l.region_idx b)).volume (sees s) (l.frame_ptrs b)
              idx (l.region_idx b) views)
            sound.slots_once sound.slots_covered small
            (λ own.
              ap (λ (o : Own A R Q C). o.valid)
                (meet_sources-Kept fn l.radius2 (l.target (l.region_idx b)).volume (sees s)
                  (l.frame_ptrs b) idx (l.region_idx b) views own))
            (process_sources-meet fn l.radius2 l.slot_order sound.slots_covered sound.slots_once
              (l.target (l.region_idx b)).volume s (l.frame_ptrs b) idx small (l.region_idx b) views
              _
              (load-Culls fn l.radius2 l.slot_order (s (l.frame_ptrs b)) l.junk.0 idx
                sound.slots_once sound.slots_covered small (culled b idx lt small))))

    kernel-other :
        (c : ℕ) (s : Box (Box P)) (f : ℕ)
        → (c < l.total_frames → f ≢ l.frame_ptrs c)
        → kernel c s f ≡ s f
    unfolding unified_frame_interaction_kernel
    kernel-other c s f apart = elim (Bool-cases (leb l.total_frames c)) [
      | inl over ↦ rw over refl
      | inr in_range ↦ rw (in_range, ne→== f (l.frame_ptrs c) (apart (ground arith))) refl
    ]

    abbrev pub launch : List ℕ → Box (Box P) → Box (Box P)
    launch order memory = run_blocks kernel order memory

    pub launch-sees :
        (order : List ℕ) (memory : Box (Box P)) (f i : ℕ)
        → sees (launch order memory) f i ≡ sees memory f i
    unfolding run_blocks
    launch-sees [] memory f i = refl
    launch-sees (c ∷ order) memory f i =
        launch-sees order (kernel c memory) f i ∙ kernel-sees c memory f i

    -- After a launch whose blocks run once each, in any order, every particle of an indexed frame
    -- has accumulated over the live neighbours as they were before the launch.
    pub launch-gathered :
        (order : List ℕ) (memory : Box (Box P)) (b idx : ℕ)
        → IsCulled fn l.radius2 l.frame_ptrs l.total_frames (sees memory)
        → Covers l.total_frames order
        → Distinct order
        → b < l.total_frames
        → idx < fn.frame_size
        → launch order memory (l.frame_ptrs b) idx ≡ gathered fn l views memory b idx
    launch-gathered order memory b idx culled covers distinct lt small =
        run_blocks_once (λ s. (f i : ℕ) → sees s f i ≡ sees memory f i)
          (λ s. s (l.frame_ptrs b) idx ≡ memory (l.frame_ptrs b) idx)
          (λ s. s (l.frame_ptrs b) idx ≡ gathered fn l views memory b idx) kernel b
          (λ c s same f i. kernel-sees c s f i ∙ same f i)
          (λ c s ne same e.
            ap (λ (frame : Box P). frame idx) (kernel-other c s (l.frame_ptrs b) (apart c ne)) ∙ e)
          (λ s same e. kernel-own b idx s (still s same) lt small ∙ same_gathered s same e)
          (λ c s ne same e.
            ap (λ (frame : Box P). frame idx) (kernel-other c s (l.frame_ptrs b) (apart c ne)) ∙ e)
          order memory distinct (covers b lt) (λ f i. refl) refl
      where
        apart : (c : ℕ) → b ≢ c → c < l.total_frames → l.frame_ptrs b ≢ l.frame_ptrs c
        apart c ne lt' e = ne (sound.index.own_frame b c lt lt' e)

        still :
            (s : Box (Box P))
            → ((f i : ℕ) → sees s f i ≡ sees memory f i)
            → IsCulled fn l.radius2 l.frame_ptrs l.total_frames (sees s)
        still s same =
            let views_agree : sees memory ≡ sees s = λ i f j. sym (same f j) i in
            subst (IsCulled fn l.radius2 l.frame_ptrs l.total_frames) views_agree culled

        same_gathered :
            (s : Box (Box P))
            → ((f i : ℕ) → sees s f i ≡ sees memory f i)
            → s (l.frame_ptrs b) idx ≡ memory (l.frame_ptrs b) idx
            → gathered fn l views s b idx ≡ gathered fn l views memory b idx
        same_gathered s same e =
            let views_agree : sees s ≡ sees memory = λ i f j. same f j i in
            ap
              (λ v.
                swept fn
                  (meet_sources fn l.radius2 (l.target (l.region_idx b)).volume v (l.frame_ptrs b)
                    idx (l.region_idx b) views)
                  (s (l.frame_ptrs b) idx))
              views_agree
            ∙ ap
                (swept fn (
                  meet_sources fn l.radius2 (l.target (l.region_idx b)).volume (sees memory)
                    (l.frame_ptrs b) idx (l.region_idx b) views))
                e
