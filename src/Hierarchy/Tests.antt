-- ===== src/Hierarchy/Tests.antt =====
-- A host sweep over two species, in a copy of the heap that lies 100 further on.
use spearhed.Base.{ℕ, ◌+◌, ◌≡◌, ◌==◌, not, refl, Bool, List, [], ◌∷◌, if◌then◌else◌, visit}
use spearhed.RegionBuffer.{Region}
use spearhed.Hierarchy.{
  particle_level, host_heap, SpeciesView, View, particle_view, multi_species_view, for_each_child,
  for_each,
}
use spearhed.Hierarchy.Elements.{particles, if_occupied, for_each-particles}

abbrev region : List ℕ → Region ℕ
region frames = record { frames = frames; num_particles = 0; volume = 0 }

abbrev gas : SpeciesView ℕ
gas = record {
  region_box = λ r. if r == 0 then region (1 ∷ 2 ∷ []) else region (3 ∷ []);
  num_regions = 2;
}

abbrev wall : SpeciesView ℕ
wall = record { region_box = λ r. region (4 ∷ []); num_regions = 1 }

abbrev both : View ℕ
both = multi_species_view (gas ∷ wall ∷ [])

-- The second slot of frame 102 and the first one of frame 103 are empty.
occupied : List (View ℕ) → ℕ → ℕ → Bool
occupied seen frame slot = not (frame + slot == 103)

abbrev note : View ℕ → List (View ℕ) → List (View ℕ)
note view seen = view ∷ seen

for_each-particles_example :
    for_each 2 occupied 4 particle_level (host_heap 100) both note []
    ≡ visit (if_occupied 2 occupied (host_heap 100) note) (particles 2 (host_heap 100) both) []
for_each-particles_example = for_each-particles 2 occupied (host_heap 100) note both []

seen_last_first : for_each 2 occupied 4 particle_level (host_heap 100) both note [] ≡ (
    particle_view 104 1
    ∷ particle_view 104 0
    ∷ particle_view 103 1
    ∷ particle_view 102 0
    ∷ particle_view 101 1
    ∷ particle_view 101 0
    ∷ [])
unfolding for_each for_each_child visit occupied
seen_last_first = refl
