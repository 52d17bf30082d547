-- ===== src/Setup.antt =====
-- include/spearhed/particles/initialization/InitRegions.hpp, SetupInterface.hpp and the host side
-- of InitParticles.hpp, for one species: the regions that the blocks of a setup contribute, and the
-- launches that fill them. A block's recipes are parameters; the launches of a slice follow one
-- another as the sender chain orders them.
pub mod Regions
pub mod Slice
pub mod Filled
mod Tests
use spearhed.Base.{
  ℕ, zero, suc, ◌+◌, ◌-◌, Box, i31, ltb, leb, ◌==◌, ◌||◌, Bool, false, Option, none, some, List, [],
  ◌∷◌, ◌++◌, length, if◌then◌else◌, run_blocks,
}
use spearhed.FrameDispatch.{inclusive_scan_host}
use spearhed.ParticleInit.{Slot, Created, calculate_frames, init_particle_regions}
use spearhed.RegionBuffer.{Region, Storage, RegionBuffer, create, push_back, host_to_device, touch}

-- A setup block seen from one species: whether it targets it, the volumes that addRegions appends,
-- and its two recipes.
pub record SetupBlock (V P : Type 0) : Type 0 where
  pub block_targets : Bool
  pub volumes : List V
  pub num_particles_to_create : Region V → ℕ
  pub place_particle : Region V → ℕ → P

module _ {V : Type 0} where
  -- ParticleRegion's constructor from a volume
  abbrev pub particle_region : V → Region V
  particle_region volume = record { frames = []; num_particles = 0; volume = volume }

  unfoldable pub push_regions : List V → RegionBuffer (Region V) → Option (RegionBuffer (Region V))
  push_regions [] b = some b
  push_regions (volume ∷ volumes) b = elim (push_back (particle_region volume) b) [
    | none ↦ none
    | some next ↦ push_regions volumes next
  ]

module _ {V P : Type 0} where
  unfoldable pub targeted : List (SetupBlock V P) → Bool
  targeted [] = false
  targeted (block ∷ blocks) = block.block_targets || targeted blocks

  unfoldable pub gather_volumes : List (SetupBlock V P) → List V
  gather_volumes [] = []
  gather_volumes (block ∷ blocks) =
      if block.block_targets then block.volumes ++ gather_volumes blocks else gather_volumes blocks

  -- createSpecies: the buffer that is shared under the species' id, if any, before and after. `new`
  -- is a buffer as it is made, and `fresh` what its storage holds.
  unfoldable pub create_species :
      Box (Region V)
      → RegionBuffer (Region V)
      → List (SetupBlock V P)
      → Option (RegionBuffer (Region V))
      → Option (Option (RegionBuffer (Region V)))
  create_species fresh new blocks shared =
      let volumes = gather_volumes blocks in
      let buffer = elim shared as (λ _. RegionBuffer (Region V)) [ none ↦ new | some b ↦ b ] in
      if targeted blocks
      then elim (push_regions volumes (create fresh (length volumes) buffer)) [
        | none ↦ none
        | some filled ↦ elim (host_to_device filled) [ none ↦ none | some sent ↦ some (some sent) ]
      ]
      else some shared

-- The device box shifted to a slice, and what its writes leave in the whole box.
abbrev pub shift : {X : Type 0} → ℕ → Box X → Box X
shift begin box i = box (begin + i)

abbrev pub unshift : {X : Type 0} → ℕ → Box X → Box X → Box X
unshift begin box slice r = if ltb r begin then box r else slice (r - begin)

-- What the launches of a slice meet: the junk of new frames and counts, whether the device heap
-- gives a block of the slice that starts at a region a frame, and their orders.
pub record Run (P : Type 0) : Type 0 where
  pub frame_size : ℕ
  pub div_ceil : ℕ → ℕ → ℕ
  pub junk : Box (Slot P)
  pub allocates : ℕ → ℕ → Bool
  pub fresh_counts : Box ℕ
  pub slot_order : List ℕ
  pub count_order : ℕ → List ℕ
  pub init_order : ℕ → List ℕ

module _ {V P : Type 0} (run : Run P) where
  -- The count kernel over a slice: its regions and the frames that each needs.
  unfoldable pub count_slice : SetupBlock V P → ℕ → Box (Region V) → Box (Region V) × Box ℕ
  count_slice block num_regions slice =
      run_blocks
        (calculate_frames run.frame_size run.div_ceil block.num_particles_to_create num_regions)
        (run.count_order num_regions) (slice, run.fresh_counts)

  -- initBlockSlice; `none` where the number of blocks, as an `int`, is negative: the regions of the
  -- buffer and the frames in their lists.
  unfoldable pub init_block_slice :
      SetupBlock V P → ℕ → ℕ → Box (Region V) × Created P → Option (Box (Region V) × Created P)
  init_block_slice block region_begin num_regions (regions, created) =
      let counted = count_slice block num_regions (shift region_begin regions) in
      let scanned = inclusive_scan_host counted.1 num_regions in
      let new_regions = unshift region_begin regions counted.0 in
      if scanned.1 == 0
      then some (new_regions, created)
      else if leb i31 scanned.1
      then none
      else elim (init_particle_regions run.frame_size block.place_particle
          (run.allocates region_begin) counted.0 num_regions scanned.0 run.junk run.slot_order
          (run.init_order scanned.1)
          (record created { frames = shift region_begin created.frames })) [
            | none ↦ none
            | some t ↦
                some
                  (new_regions, record t { frames = unshift region_begin created.frames t.frames })
          ]

  -- The walk over the blocks in initSpecies, from a region on.
  unfoldable pub init_blocks :
      List (SetupBlock V P) → ℕ → Box (Region V) × Created P → Option (Box (Region V) × Created P)
  init_blocks [] region_offset s = some s
  init_blocks (block ∷ blocks) region_offset s =
      let num_regions = length block.volumes in
      let skipped = init_blocks blocks region_offset s in
      let empty = init_blocks blocks (region_offset + num_regions) s in
      if block.block_targets
      then if num_regions == 0
        then empty
        else elim (init_block_slice block region_offset num_regions s) [
          | none ↦ none
          | some t ↦ init_blocks blocks (region_offset + num_regions) t
        ]
      else skipped

  -- initSpecies, for a buffer that has storage.
  unfoldable pub init_species :
      List (SetupBlock V P)
      → Storage (Region V)
      → RegionBuffer (Region V)
      → Created P
      → Option (RegionBuffer (Region V) × Created P)
  init_species blocks s b created = elim (init_blocks blocks 0 (s.slots, created)) [
    | none ↦ none
    | some t ↦ some (touch (record b { buffer = some (record s { slots = t.0 }) }), t.1)
  ]
