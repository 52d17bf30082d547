-- ===== src/FrameSchedule/Update.antt =====
-- A launch that updates every live particle.
use spearhed.Base.{
  ℕ, ◌<◌, ◌≡◌, ◌≢◌, refl, sym, ap, ◌∙◌, arith, inl, inr, Box, update, ltb, leb, ◌==◌, ◌||◌, Bool,
  true, false, List, if◌then◌else◌, has, Covers, Distinct, run_blocks, run_blocks-look,
  run_blocks_keeps, i31, Bool-cases, ne→==, ==_self, lt→ltb,
}
use spearhed.FrameDispatch.{Grid, one_block_per_frame, fixed_grid, num_blocks}
use spearhed.FrameSchedule.{
  Layout, Schedule, one_to_one, grid_stride, contiguous, IdxMap, schedule_frames,
  for_each_block_frame, lockstep_for_each_particle,
}

-- Every index below `total` is in the list of exactly one of the blocks below `grid`, once, and the
-- lists hold no other index.
pub record IsPartition (shares : ℕ → List ℕ) (total grid : ℕ) : Type 0 where
  pub in_range : (b g : ℕ) → has g (shares b) ≡ true → g < total
  pub no_repeats : (b : ℕ) → Distinct (shares b)
  pub owner : (g : ℕ) → g < total → ℕ
  pub owner_lt : (g : ℕ) (lt : g < total) → owner g lt < grid
  pub owned : (g : ℕ) (lt : g < total) → has g (shares (owner g lt)) ≡ true
  pub only_owner : (g : ℕ) (lt : g < total) (c : ℕ) → owner g lt ≢ c → has g (shares c) ≡ false

-- What alpaka documents of its maps: they share a range out among the blocks of a grid.
pub record SharesOut (idx_map : IdxMap) : Type 0 where
  pub shares :
      (layout : Layout) (total grid : ℕ)
      → 0 < grid
      → IsPartition (idx_map layout total grid) total grid

-- OneToOne comes with one block for each frame; a fixed grid is not empty.
abbrev pub Matches : Schedule → Grid → Type 0
Matches schedule one_block_per_frame = Unit
Matches one_to_one (fixed_grid blocks) = ⊥
Matches grid_stride (fixed_grid blocks) = 0 < blocks
Matches contiguous (fixed_grid blocks) = 0 < blocks

one_to_one-IsPartition :
    (idx_map : IdxMap) (total : ℕ)
    → IsPartition (schedule_frames idx_map one_to_one total total) total total
unfolding schedule_frames
one_to_one-IsPartition idx_map total = record {
  in_range = λ b g h. ground arith;
  no_repeats = λ b. elim (Bool-cases (ltb b total)) [ inl e ↦ rw e (refl, tt) | inr e ↦ rw e tt ];
  owner = λ g lt. g;
  owner_lt = λ g lt. lt;
  owned = λ g lt. rw (lt→ltb g total lt, ==_self g) refl;
  only_owner = λ g lt c ne. elim (Bool-cases (ltb c total)) [
    | inl e ↦ rw (e, ne→== g c ne) refl
    | inr e ↦ rw e refl
  ];
}

pub schedule-IsPartition :
    (idx_map : IdxMap) (schedule : Schedule) (grid : Grid) (total : ℕ)
    → SharesOut idx_map
    → Matches schedule grid
    → 0 < total
    → IsPartition
        (schedule_frames idx_map schedule total (num_blocks grid total))
        total
        (num_blocks grid total)
unfolding schedule_frames num_blocks
schedule-IsPartition idx_map one_to_one one_block_per_frame total out m lt =
    one_to_one-IsPartition idx_map total
schedule-IsPartition idx_map one_to_one (fixed_grid blocks) total out m lt = absurd m
schedule-IsPartition idx_map grid_stride one_block_per_frame total out m lt =
    out.shares _ total total lt
schedule-IsPartition idx_map contiguous one_block_per_frame total out m lt =
    out.shares _ total total lt
schedule-IsPartition idx_map grid_stride (fixed_grid blocks) total out m lt =
    out.shares _ total _ (ground arith)
schedule-IsPartition idx_map contiguous (fixed_grid blocks) total out m lt =
    out.shares _ total _ (ground arith)

module _ {P : Type 0} (is_valid : P → Bool) (f : P → P) where
  abbrev pub Memory : Type 0
  Memory = Box (Box P)

  abbrev pub occupied : Memory → ℕ → ℕ → Bool
  occupied memory frame slot = is_valid (memory frame slot)

  -- A body that rewrites its own particle.
  abbrev pub rewrite_particle : ℕ → ℕ → Memory → Memory
  rewrite_particle frame slot memory =
      update memory frame (update (memory frame) slot (f (memory frame slot)))

  abbrev pub rewritten : P → P
  rewritten p = if is_valid p then f p else p

  module _ (frame idx : ℕ) where
    abbrev look : Memory → P
    look memory = memory frame idx

    abbrev step : ℕ → ℕ → Memory → Memory
    step g slot t = if occupied t g slot then rewrite_particle g slot t else t

    step-own : (s : Memory) → look (step frame idx s) ≡ rewritten (look s)
    step-own s = elim (Bool-cases (is_valid (s frame idx))) [
      | inl e ↦ rw (e, ==_self frame, ==_self idx) refl
      | inr e ↦ rw e refl
    ]

    step-other_slot : (c : ℕ) (s : Memory) → idx ≢ c → look (step frame c s) ≡ look s
    step-other_slot c s ne = elim (Bool-cases (is_valid (s frame c))) [
      | inl e ↦ rw (e, ==_self frame, ne→== idx c ne) refl
      | inr e ↦ rw e refl
    ]

    step-other_frame : (g slot : ℕ) (s : Memory) → frame ≢ g → look (step g slot s) ≡ look s
    step-other_frame g slot s ne = elim (Bool-cases (is_valid (s g slot))) [
      | inl e ↦ rw (e, ne→== frame g ne) refl
      | inr e ↦ rw e refl
    ]

    lockstep-own :
        (slot_order : List ℕ) (s : Memory)
        → Distinct slot_order
        → has idx slot_order ≡ true
        → look (lockstep_for_each_particle occupied slot_order rewrite_particle frame s)
          ≡ rewritten (look s)
    unfolding lockstep_for_each_particle
    lockstep-own slot_order s distinct h =
        run_blocks-look look (step frame) idx rewritten step-own slot_order s
          (λ c t member ne. step-other_slot c t ne) distinct h

    lockstep-other :
        (slot_order : List ℕ) (g : ℕ) (s : Memory)
        → frame ≢ g
        → look (lockstep_for_each_particle occupied slot_order rewrite_particle g s) ≡ look s
    unfolding lockstep_for_each_particle
    lockstep-other slot_order g s ne =
        run_blocks_keeps look (step g) slot_order s (λ c t h. step-other_frame g c t ne)

    module _ (idx_map : IdxMap) (schedule : Schedule) (ptrs : Box ℕ) (total grid : ℕ)
        (slot_order : List ℕ)
        (partition : IsPartition (schedule_frames idx_map schedule total grid) total grid) where
      abbrev pub kernel : ℕ → Memory → Memory
      kernel block =
          for_each_block_frame idx_map schedule ptrs total grid block
            (lockstep_for_each_particle occupied slot_order rewrite_particle)

      other_block :
          (block : ℕ) (s : Memory)
          → ((c : ℕ)
              → has c (schedule_frames idx_map schedule total grid block) ≡ true
              → frame ≢ ptrs c)
          → look (kernel block s) ≡ look s
      unfolding for_each_block_frame
      other_block block s apart = elim (Bool-cases ((total == 0) || leb i31 total)) [
        | inl e ↦ rw e refl
        | inr e ↦ rw e (
            run_blocks_keeps look _ (schedule_frames idx_map schedule total grid block) s
              (λ c t member. lockstep-other slot_order (ptrs c) t (apart c member)))
      ]

      pub launch-other :
          (order : List ℕ) (s : Memory)
          → ((g : ℕ) → g < total → frame ≢ ptrs g)
          → look (run_blocks kernel order s) ≡ look s
      launch-other order s apart = run_blocks_keeps look kernel order s (λ block t member.
          other_block block t (λ c inside. apart c (partition.in_range block c inside)))

      module _ (small : total < i31)
          (distinct : (b c : ℕ) → b < total → c < total → ptrs b ≡ ptrs c → b ≡ c)
          (slots_once : Distinct slot_order) (slot_runs : has idx slot_order ≡ true) where
        own_block :
            (g : ℕ) (lt : g < total) (s : Memory)
            → ptrs g ≡ frame
            → look (kernel (partition.owner g lt) s) ≡ rewritten (look s)
        unfolding for_each_block_frame
        own_block g lt s e =
            let some_frames : ((total == 0) || leb i31 total) ≡ false = ground arith in
            rw some_frames (
              run_blocks-look look _ g rewritten
                (λ t.
                  ap
                    (λ a.
                      look (lockstep_for_each_particle occupied slot_order rewrite_particle a t))
                    e
                  ∙ lockstep-own slot_order t slots_once slot_runs)
                (schedule_frames idx_map schedule total grid (partition.owner g lt)) s
                (λ c t member ne.
                  lockstep-other slot_order (ptrs c) t
                    (λ same. ne (distinct g c lt (partition.in_range _ c member) (e ∙ same))))
                (partition.no_repeats (partition.owner g lt)) (partition.owned g lt))

        pub launch-own :
            (order : List ℕ) (g : ℕ) (s : Memory)
            → g < total
            → ptrs g ≡ frame
            → Distinct order
            → Covers grid order
            → look (run_blocks kernel order s) ≡ rewritten (look s)
        launch-own order g s lt e once covers =
            run_blocks-look look kernel (partition.owner g lt) rewritten (λ t. own_block g lt t e)
              order s
              (λ block t member ne. other_block block t (λ c inside same.
                let sameslot = distinct g c lt (partition.in_range block c inside) (e ∙ same) in
                false_ne_true (sym (partition.only_owner g lt block ne) ∙ rw (sameslot) inside)))
              once (covers (partition.owner g lt) (partition.owner_lt g lt))
          where
            false_ne_true : false ≡ true → ⊥
            false_ne_true h = cc
