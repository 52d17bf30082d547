-- ===== src/FrameSchedule/Keeps.antt =====
-- What a launch over the particles cannot change: anything that its body keeps.
use spearhed.Base.{
  ℕ, ◌≡◌, refl, sym, ap, ◌∙◌, Box, Bool, some, List, Bool-cases, inl, inr, run_blocks_keeps,
  Option-cases, ==_self, ne→==, leb, i31, eq_of_some, ◌==◌, ◌||◌,
}
use native.Mathlib.Decide.{ℕ_discrete}
use spearhed.FrameDispatch.{num_blocks}
use spearhed.FrameIndex.{FrameIndex, is_fresh}
use spearhed.RegionBuffer.{Region, RegionBuffer}
use spearhed.FrameSchedule.{
  IdxMap, schedule_frames, ForEachConfig, for_each_kernel, for_each_block_frame,
  lockstep_for_each_particle, launch_for_each_frame_in_block_indexed, launch_for_each,
}
use spearhed.FrameSchedule.Update.{Memory, occupied, rewrite_particle}

module _ {P X : Type 0} (is_valid : P → Bool) (f : P → P) (view : P → X)
    (keeps : (p : P) → view (f p) ≡ view p) (frame slot : ℕ) where
  abbrev shown : Memory is_valid f → X
  shown memory = view (memory frame slot)

  rewrite-keeps :
      (g i : ℕ) (t : Memory is_valid f) → shown (rewrite_particle is_valid f g i t) ≡ shown t
  rewrite-keeps g i t = elim (ℕ_discrete frame g) [
    | no ne ↦ rw (ne→== frame g ne) refl
    | yes e ↦ elim (ℕ_discrete slot i) [
      | no ne ↦ rw (e, ==_self g, ne→== slot i ne) refl
      | yes e' ↦ rw (e, e', ==_self g, ==_self i) (keeps (t g i))
    ]
  ]

  lockstep-keeps :
      (slot_order : List ℕ) (g : ℕ) (t : Memory is_valid f)
      → shown (
          lockstep_for_each_particle
            (occupied is_valid f)
            slot_order
            (rewrite_particle is_valid f)
            g
            t)
        ≡ shown t
  unfolding lockstep_for_each_particle
  lockstep-keeps slot_order g t = run_blocks_keeps shown _ slot_order t (λ i s member.
      elim (Bool-cases (is_valid (s g i))) [
        | inl live ↦ rw live (rewrite-keeps g i s)
        | inr dead ↦ rw dead refl
      ])

  kernel-keeps :
      (idx_map : IdxMap) (cfg : ForEachConfig) (slot_order : List ℕ) (ptrs : Box ℕ)
      (total grid block : ℕ) (t : Memory is_valid f)
      → shown (
          for_each_kernel idx_map cfg
            (occupied is_valid f)
            slot_order
            (rewrite_particle is_valid f)
            ptrs
            total
            grid
            block
            t)
        ≡ shown t
  unfolding for_each_kernel for_each_block_frame
  kernel-keeps idx_map cfg slot_order ptrs total grid block t =
      elim (Bool-cases ((total == 0) || leb i31 total)) [
        | inl over ↦ rw over refl
        | inr runs ↦ rw runs (
            run_blocks_keeps shown _ (schedule_frames idx_map cfg.schedule total grid block) t
              (λ g s member. lockstep-keeps slot_order (ptrs g) s))
      ]

  -- A launch that ends leaves in every slot of every frame what its body keeps.
  pub launch_for_each-keeps :
      {V : Type 0} (idx_map : IdxMap) (cfg : ForEachConfig) (slot_order : List ℕ)
      (order : ℕ → List ℕ) (b : RegionBuffer (Region V)) (idx : FrameIndex)
      (memory out : Memory is_valid f)
      → launch_for_each idx_map cfg
          (occupied is_valid f)
          slot_order
          order
          b
          idx
          (rewrite_particle is_valid f)
          memory
        ≡ some out
      → shown out ≡ shown memory
  unfolding launch_for_each launch_for_each_frame_in_block_indexed
  launch_for_each-keeps idx_map cfg slot_order order b idx memory out ends =
      elim (Bool-cases (is_fresh b idx)) [
        | inr stale ↦ absurd (cc (rw stale at ends))
        | inl fresh ↦ elim (Bool-cases (idx.total_frames == 0)) [
          | inl empty ↦ ap shown (sym (eq_of_some (rw (fresh, empty) at ends)))
          | inr frames ↦ elim (Option-cases idx.frame_ptrs) [
            | inl without ↦ absurd (cc (rw (fresh, frames, without) at ends))
            | inr (ptrs, has) ↦
                ap shown (sym (eq_of_some (rw (fresh, frames, has) at ends)))
                ∙ run_blocks_keeps shown _ (order (num_blocks cfg.grid idx.total_frames)) memory
                    (λ c s member. kernel-keeps idx_map cfg slot_order ptrs idx.total_frames _ c s)
          ]
        ]
      ]
