-- ===== src/ParticleInit.antt =====
-- include/spearhed/particles/initialization/InitParticles.hpp, with getSizeLastFrame and numFrames
-- of packages/pmacc/include/spmacc/FrameList.hpp: how the particles of a setup block are spread
-- over new frames. alpaka's divCeil and the setup's functors are parameters; launches run their
-- blocks, and blocks their slots, in any given order. Frames are values here; their addresses are
-- FrameList's.
pub mod Search
pub mod Layout
pub mod Launch
pub mod Tests
use spearhed.Base.{
  ℕ, zero, suc, ◌+◌, ◌-◌, ◌*◌, ◌/◌, ◌%◌, ◌≤◌, ◌<◌, Box, update, u32, u64, i31, ltb, leb, ◌==◌, ◌&&◌,
  ◌||◌, not, Bool, Option, none, some, List, [], ◌∷◌, ◌++◌, if◌then◌else◌, run_blocks,
}
use spearhed.RegionBuffer.{Region}

pub record FrameLocation : Type 0 where
  pub region_idx : ℕ
  pub local_frame_idx : ℕ
  pub frames_in_region : ℕ

-- Two `int`s by their 32 bits: `a <= b`, and `a - b`.
unfoldable pub int_leb : ℕ → ℕ → Bool
int_leb a b = if ltb a i31 then ltb b i31 && leb a b else ltb b i31 || leb a b

unfoldable pub int_minus : ℕ → ℕ → ℕ
int_minus a b = (a + u32 - b) % u32

-- `while(left < right)` of findFrameLocation; `none` means that the fuel ran out. An entry of the
-- scan is cast to an `int`.
unfoldable pub upper_bound : ℕ → Box ℕ → ℕ → ℕ → ℕ → Option ℕ
upper_bound zero scan block left right = none
upper_bound (suc fuel) scan block left right =
    let mid = left + (right - left) / 2 in
    let above = upper_bound fuel scan block (mid + 1) right in
    let below = upper_bound fuel scan block left mid in
    if ltb left right then (if int_leb (scan mid) block then above else below) else some left

-- findFrameLocation
unfoldable pub find_frame_location : ℕ → Box ℕ → ℕ → Option FrameLocation
unfolding upper_bound int_minus
find_frame_location block scan num_regions =
    elim (upper_bound (num_regions + 1) scan block 0 num_regions) [
      | none ↦ none
      | some r ↦
          let first = if r == 0 then 0 else scan (r - 1) in
          some (record {
            region_idx = r;
            local_frame_idx = int_minus block first;
            frames_in_region = int_minus (scan r) first;
          })
    ]

-- getSizeLastFrame
unfoldable pub get_size_last_frame : ℕ → ℕ → ℕ
get_size_last_frame frame_size num_particles =
    if num_particles == 0 then 0 else (num_particles - 1) % frame_size + 1

-- What alpaka documents of divCeil.
pub record IsDivCeil (div_ceil : ℕ → ℕ → ℕ) : Type 0 where
  pub enough : (a b : ℕ) → 0 < b → a ≤ div_ceil a b * b
  pub tight : (a b : ℕ) → 0 < b → div_ceil a b * b < a + b

-- The particles that InitParticleRegions creates in the frame at `local` of `frames`, which are
-- some.
unfoldable pub particles_in_frame : ℕ → ℕ → ℕ → ℕ → ℕ
particles_in_frame frame_size num_particles frames local =
    if local == frames - 1 then get_size_last_frame frame_size num_particles else frame_size

-- A slot of a frame: its mask, its id and the attributes that the setup places.
pub record Slot (P : Type 0) : Type 0 where
  pub multi_mask : ℕ
  pub particle_id : ℕ
  pub particle : P

pub record Frame (P : Type 0) : Type 0 where
  pub live_particles : ℕ
  pub slots : Box (Slot P)

module _ {P : Type 0} (frame_size : ℕ) (place : ℕ → P) where
  -- The body of forEachSlotInFrame: the slots, and the next id of the generator.
  unfoldable pub init_slot : ℕ → ℕ → ℕ → Box (Slot P) × ℕ → Box (Slot P) × ℕ
  init_slot num_particles frame_offset idx (slots, next_id) =
      if ltb idx num_particles
      then (
        update slots idx (record {
          multi_mask = 1;
          particle_id = next_id;
          particle = place (frame_offset * frame_size + idx);
        }),
        (next_id + 1) % u64,
      )
      else (update slots idx (record (slots idx) { multi_mask = 0 }), next_id)

  -- CreateParticlesInFrame: a new frame, whose slots held `junk`, and the next id.
  unfoldable pub create_particles_in_frame : Box (Slot P) → List ℕ → ℕ → ℕ → ℕ → Frame P × ℕ
  create_particles_in_frame junk slot_order num_particles frame_offset next_id =
      let (slots, next) =
        run_blocks (init_slot num_particles frame_offset) slot_order (junk, next_id) in
      (record { live_particles = num_particles; slots = slots }, next)

module _ {V : Type 0} (frame_size : ℕ) (div_ceil : ℕ → ℕ → ℕ) where
  -- CalculateFramesPerRegion: the particle counts of the lists, and the number of frames of each.
  unfoldable pub calculate_frames :
      (Region V → ℕ) → ℕ → ℕ → Box (Region V) × Box ℕ → Box (Region V) × Box ℕ
  calculate_frames num_particles_to_create num_regions block (regions, frames) =
      if leb num_regions block
      then (regions, frames)
      else let n = num_particles_to_create (regions block) in
        (
          update regions block (record (regions block) { num_particles = n }),
          update frames block (div_ceil n frame_size),
        )

-- What a block of InitParticleRegions works on: the frames that each region's list has received,
-- and the next id.
pub record Created (P : Type 0) : Type 0 where
  pub frames : Box (List (Frame P))
  pub next_id : ℕ

module _ {V P : Type 0} (frame_size : ℕ) (place : Region V → ℕ → P) where
  -- InitParticleRegions, for one block; `none` where an assertion fails, or the check for exhausted
  -- memory in getEmptyNode: `heap` tells whether the device heap gives block `block` a frame.
  unfoldable pub init_block :
      (ℕ → Bool)
      → Box (Region V)
      → ℕ
      → Box ℕ
      → Box (Slot P)
      → List ℕ
      → ℕ
      → Created P
      → Option (Created P)
  unfolding int_leb
  init_block heap regions num_regions scan junk slot_order block s =
      elim (find_frame_location block scan num_regions) [
        | none ↦ none
        | some loc ↦
            let region = regions loc.region_idx in
            let last = get_size_last_frame frame_size region.num_particles in
            let n =
              particles_in_frame frame_size region.num_particles loc.frames_in_region
                loc.local_frame_idx in
            let made =
              create_particles_in_frame frame_size (place region) junk slot_order n
                loc.local_frame_idx s.next_id in
            if heap block && not (int_leb loc.frames_in_region loc.local_frame_idx)
            then if last == 0
              then none
              else some (record {
                frames = update s.frames loc.region_idx (s.frames loc.region_idx ++ made.0 ∷ []);
                next_id = made.1;
              })
            else none
      ]

  -- The launch, its blocks in some order.
  unfoldable pub init_particle_regions :
      (ℕ → Bool)
      → Box (Region V)
      → ℕ
      → Box ℕ
      → Box (Slot P)
      → List ℕ
      → List ℕ
      → Created P
      → Option (Created P)
  init_particle_regions heap regions num_regions scan junk slot_order [] s = some s
  init_particle_regions heap regions num_regions scan junk slot_order (b ∷ order) s =
      elim (init_block heap regions num_regions scan junk slot_order b s) [
        | none ↦ none
        | some t ↦ init_particle_regions heap regions num_regions scan junk slot_order order t
      ]
