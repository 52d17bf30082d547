-- ===== src/Output.antt =====
-- packages/pmacc/include/spmacc/particles/algorithms/CopyParticlesToDynSoA.hpp: the copy of a
-- buffer's particles into one array on the host. A frame's record of attributes is one value; the
-- heap is the host's copy, in which every device address lies `heap_offset` further on, in 64-bit
-- arithmetic.
pub mod Copied
mod Tests
use spearhed.Base.{
  ℕ, zero, suc, ◌+◌, ◌%◌, Box, update, u32, u64, Option, none, some, List, [], ◌∷◌, ◌++◌, visit,
}
use spearhed.RegionBuffer.{Region}

pub record HostFrame (P : Type 0) : Type 0 where
  pub live_particles : ℕ
  pub particles_soa : Box P

pub record CopyTask (P : Type 0) : Type 0 where
  pub host_frame : HostFrame P
  pub count : ℕ
  pub write_offset : ℕ

module _ {P : Type 0} (div_ceil : ℕ → ℕ → ℕ) (frame_size : ℕ) (heap : Box (HostFrame P))
    (heap_offset : ℕ) where
  -- The loop over `n` frames of a list, with the tasks so far and the write offset; `none` where
  -- the list ends before.
  unfoldable pub region_tasks : ℕ → List ℕ → List (CopyTask P) × ℕ → Option (List (CopyTask P) × ℕ)
  region_tasks zero addresses s = some s
  region_tasks (suc n) [] s = none
  region_tasks (suc n) (address ∷ addresses) (tasks, write_offset) =
      let frame = heap ((address + heap_offset) % u64) in
      region_tasks n addresses (
        tasks
            ++ (record {
              host_frame = frame;
              count = frame.live_particles;
              write_offset = write_offset;
            }
                ∷ []),
        (write_offset + frame.live_particles) % u32,
      )

  -- The loop over the regions.
  unfoldable pub copy_tasks :
      {V : Type 0} → List (Region V) → List (CopyTask P) × ℕ → Option (List (CopyTask P) × ℕ)
  copy_tasks [] s = some s
  copy_tasks (region ∷ regions) s =
      elim (region_tasks (div_ceil region.num_particles frame_size) region.frames s) [
        | none ↦ none
        | some t ↦ copy_tasks regions t
      ]

unfoldable pub total_particles : {V : Type 0} → List (Region V) → ℕ → ℕ
total_particles [] total = total
total_particles (region ∷ regions) total =
    total_particles regions ((total + region.num_particles) % u32)

-- FieldCopyTrait: `copy_n` from a frame to the array.
unfoldable pub copy_n : {P : Type 0} → Box P → ℕ → ℕ → Box P → Box P
copy_n src zero offset dst = dst
copy_n src (suc count) offset dst =
    update (copy_n src count offset dst) (offset + count) (src count)

unfoldable pub run_task : {P : Type 0} → CopyTask P → Box P → Box P
run_task task dst = copy_n task.host_frame.particles_soa task.count task.write_offset dst

-- The operator(): the size that the array is given, and what it holds; `fresh` is what it held.
unfoldable pub copy_particles :
    {P V : Type 0}
    → (ℕ → ℕ → ℕ)
    → ℕ
    → Box (HostFrame P)
    → ℕ
    → List (Region V)
    → Box P
    → Option (ℕ × Box P)
copy_particles div_ceil frame_size heap heap_offset regions fresh =
    elim (copy_tasks div_ceil frame_size heap heap_offset regions ([], 0)) [
      | none ↦ none
      | some t ↦ some (total_particles regions 0, visit run_task t.0 fresh)
    ]
