-- ===== src/Sph/Stages.antt =====
-- The stages UpdateDensity and UpdateHydroForces of particles/density/DensitySummation.hpp and
-- sph/HydroForces.hpp: a launch that prepares every particle, then the interaction, over one index.
pub mod Summed
mod Tests
use spearhed.Base.{ℕ, ◌==◌, Box, Option, some, List, if◌then◌else◌}
use spearhed.RegionBuffer.{Region, RegionBuffer}
use spearhed.FrameIndex.{FrameIndex, ◌>>=◌}
use spearhed.FrameSchedule.{IdxMap, ForEachConfig, default_for_each, launch_for_each}
use spearhed.FrameSchedule.Update.{occupied, rewrite_particle}
use spearhed.Interaction.{Functor, Own, Caches, SourceView, interact}
use spearhed.Sph.{
  Arithmetic, Particle, HydroReads, Staged, Derivatives, density_init_self, zero_derivatives,
  accumulate_density, hydro_interaction,
}

module _ {A V P R N Q C : Type 0} (fn : Functor A V P R N Q C) where
  -- alpaka's maps, the orders in which slots and blocks run, and what registers and caches hold at
  -- first.
  pub record StageRun : Type 0 where
    pub idx_map : IdxMap
    pub slot_order : List ℕ
    pub init_order : ℕ → List ℕ
    pub order : Box (List ℕ)
    pub junk : Box (Own A R Q C) × Caches A N

  -- interact, with the boxes of the index; `none` where an index with frames or the buffer has
  -- none.
  unfoldable pub interact_indexed :
      StageRun
      → A
      → RegionBuffer (Region V)
      → FrameIndex
      → List (SourceView V)
      → Box (Box P)
      → Option (Box (Box P))
  interact_indexed run radius b idx views memory = if idx.total_frames == 0 then some memory else do
    target ← b.buffer
    ptrs ← idx.frame_ptrs
    owners ← idx.region_idx_per_frame
    some (
        interact fn
          (record {
            target = target.slots;
            frame_ptrs = ptrs;
            region_idx = owners;
            total_frames = idx.total_frames;
            slot_order = run.slot_order;
            junk = run.junk;
            radius2 = fn.times radius radius;
          })
          run.order views memory)

  -- Both stages: `launchForEach` with the update `f`, then the interaction.
  unfoldable pub update_stage :
      (P → P)
      → StageRun
      → A
      → RegionBuffer (Region V)
      → FrameIndex
      → List (SourceView V)
      → Box (Box P)
      → Option (Box (Box P))
  update_stage f run radius b idx views memory = do
    prepared ←
        launch_for_each run.idx_map default_for_each (occupied fn.is_valid f) run.slot_order
          run.init_order b idx (rewrite_particle fn.is_valid f) memory
    interact_indexed run radius b idx views prepared

module _ {A V : Type 0} (ar : Arithmetic A) (origin : V → Box A) (support_radius : A) where
  -- UpdateDensity
  abbrev pub update_density :
      StageRun (accumulate_density ar origin)
      → RegionBuffer (Region V)
      → FrameIndex
      → A
      → List (SourceView V)
      → Box (Box (Particle A))
      → Option (Box (Box (Particle A)))
  update_density run b idx h0 views memory =
      update_stage (accumulate_density ar origin) (density_init_self ar) run
        (ar.times support_radius h0) b idx views memory

  -- UpdateHydroForces
  abbrev pub update_hydro_forces :
      (gamma : A)
      → StageRun (hydro_interaction ar origin gamma)
      → RegionBuffer (Region V)
      → FrameIndex
      → A
      → List (SourceView V)
      → Box (Box (Particle A))
      → Option (Box (Box (Particle A)))
  update_hydro_forces gamma run b idx h0 views memory =
      update_stage (hydro_interaction ar origin gamma) (zero_derivatives ar) run
        (ar.times support_radius h0) b idx views memory
