-- ===== src/Hierarchy/Elements.antt =====
-- What a traversal visits.
use spearhed.Base.{
  ℕ, suc, ◌≡◌, refl, sym, ◌∙◌, Bool, List, [], map, if◌then◌else◌, upwards, visit, visit_congr,
  visit-map, visit-concat_map, concat_map,
}
use spearhed.RegionBuffer.{Region}
use spearhed.Hierarchy.{
  frame_level, particle_level, HeapAccess, frames_of, SpeciesView, View, particle_view, frame_view,
  region_view, species_view, multi_species_view, for_each_child, for_each,
}

module _ {V : Type 0} (frame_size : ℕ) (access : HeapAccess) where
  -- The particle slots below a view, in the order of species, regions, frames and slots.
  abbrev pub slots : ℕ → List (View V)
  slots frame = map (particle_view frame) (upwards frame_size 0)

  abbrev pub frames : List ℕ → List (View V)
  frames addresses = concat_map slots (frames_of access addresses)

  abbrev pub regions : SpeciesView V → List (View V)
  regions species =
      concat_map (λ r. frames (species.region_box r).frames) (upwards species.num_regions 0)

  abbrev pub particles : View V → List (View V)
  particles (particle_view frame slot) = []
  particles (frame_view frame) = slots frame
  particles (region_view region) = frames region.frames
  particles (species_view species) = regions species
  particles (multi_species_view species) = concat_map regions species

module _ {V S : Type 0} (frame_size : ℕ) (occupied : S → ℕ → ℕ → Bool) (access : HeapAccess)
    (body : View V → S → S) where
  -- The body at a slot that is occupied when the traversal gets there.
  abbrev pub if_occupied : View V → S → S
  if_occupied (particle_view frame slot) s =
      if occupied s frame slot then body (particle_view frame slot) s else s
  if_occupied (frame_view frame) s = s
  if_occupied (region_view region) s = s
  if_occupied (species_view species) s = s
  if_occupied (multi_species_view species) s = s

  abbrev go : ℕ → View V → S → S
  go depth view = for_each frame_size occupied depth particle_level access view body

  over_slots :
      (depth frame : ℕ) (s : S)
      → go (suc depth) (frame_view frame) s ≡ visit if_occupied (slots frame_size access frame) s
  unfolding for_each_child for_each
  over_slots depth frame s =
      sym (visit-map (particle_view frame) if_occupied (upwards frame_size 0) s)

  over_frames :
      (depth : ℕ) (region : Region V) (s : S)
      → go (suc (suc depth)) (region_view region) s
        ≡ visit if_occupied (frames frame_size access region.frames) s
  unfolding for_each_child for_each
  over_frames depth region s =
      visit_congr _ _ (over_slots depth) (frames_of access region.frames) s
      ∙ visit-concat_map (slots frame_size access) if_occupied (frames_of access region.frames) s

  over_regions :
      (depth : ℕ) (species : SpeciesView V) (s : S)
      → go (suc (suc (suc depth))) (species_view species) s
        ≡ visit if_occupied (regions frame_size access species) s
  unfolding for_each_child for_each
  over_regions depth species s =
      visit_congr _ _ (λ r. over_frames depth (species.region_box r))
        (upwards species.num_regions 0) s
      ∙ visit-concat_map (λ r. frames frame_size access (species.region_box r).frames) if_occupied
          (upwards species.num_regions 0) s

  -- A traversal down to the particles calls its body once for each slot below the view, in the
  -- order of species, regions, frames and slots, and passes over the slots that are not occupied
  -- when it gets there.
  pub for_each-particles :
      (view : View V) (s : S)
      → for_each frame_size occupied 4 particle_level access view body s
        ≡ visit if_occupied (particles frame_size access view) s
  unfolding for_each_child for_each visit
  for_each-particles (particle_view frame slot) s = refl
  for_each-particles (frame_view frame) s = over_slots 3 frame s
  for_each-particles (region_view region) s = over_frames 2 region s
  for_each-particles (species_view species) s = over_regions 1 species s
  for_each-particles (multi_species_view species) s =
      visit_congr _ _ (over_regions 0) species s
      ∙ visit-concat_map (regions frame_size access) if_occupied species s

  -- A traversal of a species down to the frames calls its body once for each frame of each region.
  pub for_each-frames :
      (species : SpeciesView V) (s : S)
      → for_each frame_size occupied 4 frame_level access (species_view species) body s
        ≡ visit
            (λ frame. body (frame_view frame))
            (concat_map
              (λ r. frames_of access (species.region_box r).frames)
              (upwards species.num_regions 0))
            s
  unfolding for_each_child for_each
  for_each-frames species s =
      visit-concat_map (λ r. frames_of access (species.region_box r).frames)
        (λ frame. body (frame_view frame)) (upwards species.num_regions 0) s
