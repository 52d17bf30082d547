-- ===== src/Sph/Stages/Summed.antt =====
-- What the two stages leave in the particles.
use mathlib.Core.Path.{subst}
use spearhed.Base.{
  ℕ, ◌+◌, ◌<◌, ◌≡◌, refl, sym, ap, ◌∙◌, arith, Box, ◌==◌, ==_iff, Option, some, List, length,
  get_or, Covers, Distinct, Bool-cases, inl, inr, i31, true, false,
}
use spearhed.RegionBuffer.{Region, RegionBuffer, Storage}
use spearhed.FrameIndex.{FrameIndex, is_fresh}
use spearhed.FrameIndex.Fill.{start, start-apart}
use spearhed.FrameIndex.Rebuild.{IsExact, lists}
use spearhed.FrameSchedule.{default_for_each}
use spearhed.FrameSchedule.Update.{rewritten}
use spearhed.FrameSchedule.Launch.{Apart, IsRun, launch_for_each-IsUpdated, distinct}
use spearhed.FrameSchedule.Keeps.{launch_for_each-keeps}
use spearhed.Interaction.{Functor, SourceView, Launch, interact}
use spearhed.Interaction.Sweep.{Seen, seen, IsCulled, meet_sources}
use spearhed.Interaction.Grid.{IsSeparate, swept}
use spearhed.Interaction.Launched.{IsSound}
use spearhed.Interaction.Sources.{interact-gathered}
use spearhed.Sph.{
  Arithmetic, Particle, density_init_self, zero_derivatives, accumulate_density, hydro_interaction,
}
use spearhed.Sph.Symmetry.{functors-IsSeparate}
use spearhed.Sph.Stages.{
  StageRun, interact_indexed, update_stage, update_density, update_hydro_forces,
}

module _ {A V P R N Q C : Type 0} (fn : Functor A V P R N Q C) where
  -- What a stage takes for granted of its run over `total` frames.
  pub record IsStageRun (run : StageRun fn) (total : ℕ) : Type 0 where
    pub launches : IsRun fn.frame_size run.idx_map default_for_each run.slot_order run.init_order
    pub covers : (k : ℕ) → Covers total (run.order k)
    pub once : (k : ℕ) → Distinct (run.order k)

  module _ (f : P → P) (run : StageRun fn) (radius : A) (b : RegionBuffer (Region V))
      (s : Storage (Region V)) (views : List (SourceView V)) (memory : Box (Box P)) where
    abbrev sees : Box (Box P) → Box (Box (Seen A N))
    sees t g i = seen fn (t g i)

    abbrev sees_before : Box (Box (Seen A N))
    sees_before = sees memory

    abbrev sweep : Box (Box (Seen A N)) → ℕ → ℕ → ℕ → P → P
    sweep view r frame slot =
        swept fn
          (meet_sources fn (fn.times radius radius) (s.slots r).volume view frame slot r views)

    -- What the particle in slot `slot` of frame `frame` of region `r` gathers when `f` has prepared
    -- it.
    abbrev pub summed : ℕ → ℕ → ℕ → P
    summed r frame slot =
        sweep (sees memory) r frame slot (rewritten fn.is_valid f (memory frame slot))

    abbrev pub Summed : Option (Box (Box P)) → Type 0
    Summed result =
        (out : Box (Box P)) × (result ≡ some out)
        × ((r i slot : ℕ)
            → r < b.size
            → i < length (lists b r)
            → slot < fn.frame_size
            → out (get_or (lists b r) i 0) slot ≡ summed r (get_or (lists b r) i 0) slot)

    module _ (idx : FrameIndex) (separate : IsSeparate fn)
        (keeps : (p : P) → seen fn (f p) ≡ seen fn p) (fair : IsStageRun run idx.total_frames)
        (has_storage : b.buffer ≡ some s) (small : start (lists b) b.size < i31)
        (apart : Apart (lists b) b.size) (exact : IsExact (lists b) b.size idx)
        (culled : IsCulled fn
          (fn.times radius radius)
          exact.ptrs
          idx.total_frames
          sees_before) where
      abbrev launch : Launch fn
      launch = record {
        target = s.slots;
        frame_ptrs = exact.ptrs;
        region_idx = exact.owners;
        total_frames = idx.total_frames;
        slot_order = run.slot_order;
        junk = run.junk;
        radius2 = fn.times radius radius;
      }

      sound : (idx.total_frames == 0) ≡ false → IsSound fn launch
      sound frames = record {
        separate = separate;
        slots_covered = fair.launches.slots_covered;
        slots_once = fair.launches.slots_once;
        index = record {
          own_frame = λ g h lt lt' e.
              distinct fn.is_valid f fn.frame_size run.idx_map default_for_each run.slot_order
                run.init_order fair.launches b memory small apart idx exact frames g h lt lt' e;
        };
      }

      pub update_stage-Summed :
          is_fresh b idx ≡ true → Summed (update_stage fn f run radius b idx views memory)
      unfolding update_stage interact_indexed
      update_stage-Summed fresh =
          let (t, ends, updated) =
            launch_for_each-IsUpdated fn.is_valid f fn.frame_size run.idx_map default_for_each
              run.slot_order run.init_order fair.launches b memory small apart idx exact fresh in
          let same : sees t ≡ sees memory = λ k g i.
            launch_for_each-keeps fn.is_valid f (seen fn) keeps g i run.idx_map default_for_each
              run.slot_order run.init_order b idx memory t ends k in
          elim (Bool-cases (idx.total_frames == 0)) [
            | inl none_left ↦
                rw (ends, none_left)
                  (
                    t,
                    refl,
                    λ r i slot r_lt i_lt slot_lt. absurd (
                        omega (
                          arith,
                          exact.total,
                          start-apart (lists b) r b.size r_lt,
                          (==_iff idx.total_frames 0).0 none_left,
                        )),
                  )
            | inr frames ↦ (
              interact fn launch run.order views t,
              rw (ends, frames, has_storage, exact.has_ptrs, exact.has_owners) refl,
              λ r i slot r_lt i_lt slot_lt.
                  let frame = get_or (lists b r) i 0 in
                  let g = start (lists b) r + i in
                  let in_total : g < idx.total_frames =
                    omega (arith, exact.total, start-apart (lists b) r b.size r_lt) in
                  let (at, of) = exact.filled r r_lt i i_lt in
                  ap (λ k. interact fn launch run.order views t k slot) (sym at)
                  ∙ interact-gathered fn launch (sound frames) run.order views t g slot fair.covers
                      fair.once
                      (subst (IsCulled fn (fn.times radius radius) exact.ptrs idx.total_frames)
                        (sym same) culled)
                      in_total slot_lt
                  ∙ ap (λ k. sweep (sees t) k (exact.ptrs g) slot (t (exact.ptrs g) slot)) of
                  ∙ ap (λ k. sweep (sees t) r k slot (t k slot)) at
                  ∙ ap (λ v. sweep v r frame slot (t frame slot)) same
                  ∙ ap (sweep (sees memory) r frame slot)
                      (updated.listed r i slot r_lt i_lt slot_lt),
            )
          ]

module _ {A V : Type 0} (ar : Arithmetic A) (origin : V → Box A) (support_radius h0 : A)
    (b : RegionBuffer (Region V)) (s : Storage (Region V)) (idx : FrameIndex)
    (views : List (SourceView V)) (memory : Box (Box (Particle A))) where
  abbrev pub reach : A
  reach = ar.times support_radius h0

  -- The density stage over an exact and fresh index of a buffer with fewer than 2^31 frames of
  -- lists that share none, with a sentinel out of reach of the live particles of the indexed
  -- frames, and slots and blocks that run once in any order, ends. Every live particle of the
  -- lists' frames then has its own contribution, and the sum of what it meets within the reach,
  -- source by source, of the particles as they were before; a dead slot is as it was.
  pub update_density-Summed :
      (run : StageRun (accumulate_density ar origin))
      → IsStageRun (accumulate_density ar origin) run idx.total_frames
      → b.buffer ≡ some s
      → start (lists b) b.size < i31
      → Apart (lists b) b.size
      → (exact : IsExact (lists b) b.size idx)
      → IsCulled
          (accumulate_density ar origin)
          (ar.times reach reach)
          exact.ptrs
          idx.total_frames
          (λ f i. seen (accumulate_density ar origin) (memory f i))
      → is_fresh b idx ≡ true
      → Summed
          (accumulate_density ar origin)
          (density_init_self ar)
          run
          reach
          b
          s
          views
          memory
          (update_density ar origin support_radius run b idx h0 views memory)
  unfolding density_init_self
  update_density-Summed run fair has_storage small apart exact culled fresh =
      update_stage-Summed (accumulate_density ar origin) (density_init_self ar) run reach b s views
        memory idx (functors-IsSeparate ar origin ar.nought).0 (λ p. refl) fair has_storage small
        apart exact culled fresh

  -- The stage of the hydrodynamic forces, under the same conditions, ends. Every live particle of
  -- the lists' frames then has derivatives that start at zero and take what it meets within the
  -- reach, source by source, of the particles as they were before; a dead slot is as it was.
  pub update_hydro_forces-Summed :
      (gamma : A) (run : StageRun (hydro_interaction ar origin gamma))
      → IsStageRun (hydro_interaction ar origin gamma) run idx.total_frames
      → b.buffer ≡ some s
      → start (lists b) b.size < i31
      → Apart (lists b) b.size
      → (exact : IsExact (lists b) b.size idx)
      → IsCulled
          (hydro_interaction ar origin gamma)
          (ar.times reach reach)
          exact.ptrs
          idx.total_frames
          (λ f i. seen (hydro_interaction ar origin gamma) (memory f i))
      → is_fresh b idx ≡ true
      → Summed
          (hydro_interaction ar origin gamma)
          (zero_derivatives ar)
          run
          reach
          b
          s
          views
          memory
          (update_hydro_forces ar origin support_radius gamma run b idx h0 views memory)
  unfolding zero_derivatives
  update_hydro_forces-Summed gamma run fair has_storage small apart exact culled fresh =
      update_stage-Summed (hydro_interaction ar origin gamma) (zero_derivatives ar) run reach b s
        views memory idx (functors-IsSeparate ar origin gamma).1 (λ p. refl) fair has_storage small
        apart exact culled fresh
