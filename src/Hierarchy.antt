-- ===== src/Hierarchy.antt =====
-- packages/pmacc/include/spmacc/particles/algorithms/HierarchyForEach.hpp: the sequential traversal
-- of species, regions, frames and particles. Whether a slot is occupied is read from the state when
-- the traversal gets there, since the body may change it.
pub mod Elements
mod Tests
use spearhed.Base.{
  ℕ, zero, suc, ◌+◌, ◌%◌, ◌==◌, Box, Bool, List, map, if◌then◌else◌, upwards, visit, u64,
}
use spearhed.RegionBuffer.{Region}

-- levels: the ranks, finest first.
abbrev pub particle_level : ℕ
particle_level = 0

abbrev pub frame_level : ℕ
frame_level = 1

abbrev pub region_level : ℕ
region_level = 2

abbrev pub species_level : ℕ
species_level = 3

-- DeviceHeapAccess and HostHeapAccess, which brings the heap offset as a 64-bit word.
pub data HeapAccess : Type 0 where
  device_heap : HeapAccess
  host_heap : ℕ → HeapAccess

-- The addresses that an iteration over a frame list visits. The host's iterator maps each one.
abbrev pub frames_of : HeapAccess → List ℕ → List ℕ
frames_of device_heap addresses = addresses
frames_of (host_heap heap_offset) addresses = map (λ a. (a + heap_offset) % u64) addresses

pub record SpeciesView (V : Type 0) : Type 0 where
  pub region_box : Box (Region V)
  pub num_regions : ℕ

-- The views, and the particle that a frame's traversal hands out: a frame's address and a slot.
pub data View (V : Type 0) : Type 0 where
  particle_view : ℕ → ℕ → View V
  frame_view : ℕ → View V
  region_view : Region V → View V
  species_view : SpeciesView V → View V
  multi_species_view : List (SpeciesView V) → View V

-- childLevel; a particle has no children, and no view of it is ever asked.
abbrev pub child_level : {V : Type 0} → View V → ℕ
child_level (particle_view frame slot) = particle_level
child_level (frame_view frame) = particle_level
child_level (region_view region) = frame_level
child_level (species_view species) = region_level
child_level (multi_species_view species) = species_level

module _ {V S : Type 0} (frame_size : ℕ) (occupied : S → ℕ → ℕ → Bool) where
  unfoldable pub for_each_child : HeapAccess → View V → (View V → S → S) → S → S
  for_each_child access (particle_view frame slot) body s = s
  for_each_child access (frame_view frame) body s =
      visit (λ slot t. if occupied t frame slot then body (particle_view frame slot) t else t)
        (upwards frame_size 0) s
  for_each_child access (region_view region) body s =
      visit (λ frame. body (frame_view frame)) (frames_of access region.frames) s
  for_each_child access (species_view species) body s =
      visit (λ r. body (region_view (species.region_box r))) (upwards species.num_regions 0) s
  for_each_child access (multi_species_view species) body s =
      visit (λ one. body (species_view one)) species s

  -- forEach; the instantiations nest at most four deep, one for each kind of view.
  unfoldable pub for_each : ℕ → ℕ → HeapAccess → View V → (View V → S → S) → S → S
  for_each zero target access view body s = s
  for_each (suc depth) target access view body s =
      if child_level view == target
      then for_each_child access view body s
      else for_each_child access view (λ child. for_each depth target access child body) s
