-- ===== src/Interaction.antt =====
-- packages/pmacc/include/spmacc/particles/algorithms/ParticleParticleInteraction.hpp and
-- InteractParticles.hpp: the pair interaction of a target's frames with the neighbours of every
-- source. The scalars, the functor and the attribute sets that it declares are a parameter; vectors
-- are tables over the axis tags. Slots and blocks run one after another in a given order.
pub mod Sweep
pub mod Grid
pub mod Launched
pub mod Sources
mod Tests
use spearhed.Base.{
  ℕ, zero, suc, ◌+◌, ◌-◌, Box, update, leb, ◌==◌, ◌&&◌, Bool, true, false, List, [], ◌∷◌, length,
  if◌then◌else◌, run_blocks,
}
use spearhed.RegionBuffer.{Region}

pub record PairContext (A : Type 0) : Type 0 where
  pub r_vec : Box A
  pub r2 : A
  pub r : A
  pub inv_r : A
  pub is_self : Bool

-- The scalars and what a functor brings: the records that it reads, accumulates, prepares and
-- stages, for particles `P` in volumes `V`.
pub record Functor (A V P R N Q C : Type 0) : Type 0 where
  pub minus : A → A → A
  pub plus : A → A → A
  pub times : A → A → A
  pub below : A → A → Bool
  pub rsqrt : A → A
  pub nought : A
  pub sentinel : A
  pub dim : ℕ
  pub frame_size : ℕ
  pub origin : V → Box A
  pub is_valid : P → Bool
  pub relative_pos : P → Box A
  pub own_reads : P → R
  pub own_accumulate : P → C
  pub flush : P → C → P
  pub prepare : R → Q
  pub stage : P → N
  pub call : R → Q → N → PairContext A → C → C

-- The registers of a slot.
pub record Own (A R Q C : Type 0) : Type 0 where
  pub valid : Bool
  pub rel : Box A
  pub reads : R
  pub acc : C
  pub prep : Q

-- The shared caches of a block.
pub record Caches (A N : Type 0) : Type 0 where
  pub pos_cache : Box (Box A)
  pub nb_cache : Box N

-- One source on the device: SourceView.
pub record SourceView (V : Type 0) : Type 0 where
  pub regions : Box (Region V)
  pub neighbour_regions : Box ℕ
  pub region_offsets : Box ℕ

-- What a neighbour frame is met with.
pub record FrameContext (A P : Type 0) : Type 0 where
  pub own_origin : Box A
  pub neighbour_origin : Box A
  pub neighbour_frame : Box P
  pub radius2 : A
  pub is_self_frame : Bool

module _ {A V P R N Q C : Type 0} (fn : Functor A V P R N Q C) where
  -- loadOwnRegisters, for one slot
  unfoldable pub load_slot : Box P → ℕ → Box (Own A R Q C) → Box (Own A R Q C)
  load_slot frame idx regs =
      if fn.is_valid (frame idx)
      then update regs idx (record {
        valid = true;
        rel = fn.relative_pos (frame idx);
        reads = fn.own_reads (frame idx);
        acc = fn.own_accumulate (frame idx);
        prep = fn.prepare (fn.own_reads (frame idx));
      })
      else update regs idx (record (regs idx) { valid = false })

  -- storeOwnAccumulators, for one slot
  unfoldable pub store_slot : Box (Own A R Q C) → ℕ → Box P → Box P
  store_slot regs idx frame =
      if (regs idx).valid then update frame idx (fn.flush (frame idx) (regs idx).acc) else frame

  -- The staging of one slot.
  unfoldable pub stage_slot : FrameContext A P → ℕ → Caches A N → Caches A N
  stage_slot ctx slot caches =
      let particle = ctx.neighbour_frame slot in
      if fn.is_valid particle
      then record {
        nb_cache = update caches.nb_cache slot (fn.stage particle);
        pos_cache = update caches.pos_cache slot (λ tag.
            fn.plus (fn.relative_pos particle tag)
              (fn.minus (ctx.neighbour_origin tag) (ctx.own_origin tag)));
      }
      else record caches { pos_cache = update caches.pos_cache slot (λ tag. fn.sentinel) }

  -- The sum of the squares over the first axes.
  unfoldable pub squares : ℕ → Box A → A
  squares zero d = fn.nought
  squares (suc n) d = fn.plus (squares n d) (fn.times (d n) (d n))

  -- The body of the compute loop: the pair with the neighbour at `pos`.
  unfoldable pub interact_pair : Own A R Q C → A → Bool → Box A → N → C → C
  unfolding squares
  interact_pair own radius2 is_self pos nb acc =
      let r_vec : Box A = λ tag. fn.minus (own.rel tag) (pos tag) in
      let r2 = squares fn.dim r_vec in
      let apart = fn.below fn.nought r2 in
      let inv_r = if apart then fn.rsqrt r2 else fn.nought in
      let r = if apart then fn.times r2 inv_r else fn.nought in
      if fn.below r2 radius2
      then fn.call own.reads own.prep nb
          (record { r_vec = r_vec; r2 = r2; r = r; inv_r = inv_r; is_self = is_self }) acc
      else acc

  -- `for(j = 0; j < TFrameSize; ++j)`, by the rounds that are left.
  unfoldable pub sweep_slots : FrameContext A P → Caches A N → ℕ → Own A R Q C → ℕ → ℕ → C → C
  sweep_slots ctx caches my_slot own zero j acc = acc
  sweep_slots ctx caches my_slot own (suc rounds) j acc =
      sweep_slots ctx caches my_slot own rounds (suc j) (
        interact_pair own ctx.radius2 (ctx.is_self_frame && (j == my_slot)) (caches.pos_cache j)
          (caches.nb_cache j) acc)

  -- The compute phase of one slot.
  unfoldable pub compute_slot :
      FrameContext A P → Caches A N → ℕ → Box (Own A R Q C) → Box (Own A R Q C)
  compute_slot ctx caches idx regs =
      if (regs idx).valid
      then update regs idx (record (regs idx) {
        acc = sweep_slots ctx caches idx (regs idx) fn.frame_size 0 (regs idx).acc;
      })
      else regs

  -- interactWithNeighbourFrame
  unfoldable pub interact_with_neighbour_frame :
      List ℕ → FrameContext A P → Box (Own A R Q C) × Caches A N → Box (Own A R Q C) × Caches A N
  interact_with_neighbour_frame slot_order ctx (regs, caches) =
      let staged = run_blocks (stage_slot ctx) slot_order caches in
      (run_blocks (compute_slot ctx staged) slot_order regs, staged)

  module _ (slot_order : List ℕ) (radius2 : A) (memory : Box (Box P)) (own_frame : ℕ)
      (own_volume : V) where
    unfoldable pub frame_context : V → ℕ → FrameContext A P
    frame_context volume frame = record {
      own_origin = fn.origin own_volume;
      neighbour_origin = fn.origin volume;
      neighbour_frame = memory frame;
      radius2 = radius2;
      is_self_frame = own_frame == frame;
    }

    -- The loop over the frames of one neighbour region.
    unfoldable pub sweep_frames :
        V → List ℕ → Box (Own A R Q C) × Caches A N → Box (Own A R Q C) × Caches A N
    sweep_frames volume [] s = s
    sweep_frames volume (f ∷ fs) s =
        sweep_frames volume fs (interact_with_neighbour_frame slot_order (frame_context volume f) s)

    -- The loop over the neighbour list, by the rounds that are left.
    unfoldable pub sweep_regions :
        SourceView V → ℕ → ℕ → Box (Own A R Q C) × Caches A N → Box (Own A R Q C) × Caches A N
    sweep_regions view zero n s = s
    sweep_regions view (suc rounds) n s =
        let region = view.regions (view.neighbour_regions n) in
        sweep_regions view rounds (suc n) (sweep_frames region.volume region.frames s)

    -- processSource
    unfoldable pub process_source :
        ℕ → SourceView V → Box (Own A R Q C) × Caches A N → Box (Own A R Q C) × Caches A N
    process_source r view s =
        let start = view.region_offsets r in
        sweep_regions view (view.region_offsets (r + 1) - start) start s

    unfoldable pub process_sources :
        ℕ → List (SourceView V) → Box (Own A R Q C) × Caches A N → Box (Own A R Q C) × Caches A N
    process_sources r [] s = s
    process_sources r (view ∷ views) s = process_sources r views (process_source r view s)

  -- A launch: the target's regions, its frame index, the slots' order, what registers and caches
  -- hold at first, and the squared radius.
  pub record Launch : Type 0 where
    pub target : Box (Region V)
    pub frame_ptrs : Box ℕ
    pub region_idx : Box ℕ
    pub total_frames : ℕ
    pub slot_order : List ℕ
    pub junk : Box (Own A R Q C) × Caches A N
    pub radius2 : A

  -- FrameInteractionKernel
  unfoldable pub frame_interaction_kernel : Launch → SourceView V → ℕ → Box (Box P) → Box (Box P)
  frame_interaction_kernel l view block memory =
      if leb l.total_frames block
      then memory
      else let r = l.region_idx block in
        let f = l.frame_ptrs block in
        let regs = run_blocks (load_slot (memory f)) l.slot_order l.junk.0 in
        let swept =
          process_source l.slot_order l.radius2 memory f (l.target r).volume r view
            (regs, l.junk.1) in
        update memory f (run_blocks (store_slot swept.0) l.slot_order (memory f))

  -- UnifiedFrameInteractionKernel
  unfoldable pub unified_frame_interaction_kernel :
      Launch → List (SourceView V) → ℕ → Box (Box P) → Box (Box P)
  unified_frame_interaction_kernel l views block memory =
      if leb l.total_frames block
      then memory
      else let r = l.region_idx block in
        let f = l.frame_ptrs block in
        let regs = run_blocks (load_slot (memory f)) l.slot_order l.junk.0 in
        let swept =
          process_sources l.slot_order l.radius2 memory f (l.target r).volume r views
            (regs, l.junk.1) in
        update memory f (run_blocks (store_slot swept.0) l.slot_order (memory f))

  -- perSource: one launch after another; `order k` is the blocks' order in the `k`-th from the end.
  unfoldable pub per_source :
      Launch → Box (List ℕ) → List (SourceView V) → Box (Box P) → Box (Box P)
  per_source l order [] memory = memory
  per_source l order (view ∷ views) memory =
      per_source l order views
        (run_blocks (frame_interaction_kernel l view) (order (length views)) memory)

  -- unifiedSource
  unfoldable pub unified_source : Launch → List ℕ → List (SourceView V) → Box (Box P) → Box (Box P)
  unified_source l order [] memory = memory
  unified_source l order (view ∷ views) memory =
      run_blocks (unified_frame_interaction_kernel l (view ∷ views)) order memory

  -- interact, with no policy named
  unfoldable pub interact : Launch → Box (List ℕ) → List (SourceView V) → Box (Box P) → Box (Box P)
  interact l order views memory =
      if length views == 1
      then per_source l order views memory
      else unified_source l (order 0) views memory
