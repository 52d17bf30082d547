-- ===== src/ParticleInit/Launch.antt =====
-- The launch that creates the particles of a block's regions.
use native.Mathlib.Decide.{ℕ_discrete}
use spearhed.Base.{
  ℕ, zero, suc, ◌+◌, ◌*◌, ◌/◌, ◌%◌, ◌≤◌, ◌<◌, ◌≡◌, ◌⊎◌, refl, sym, ap, ◌∙◌, ==_self, ne→==, inl,
  inr, arith, Box, update, ◌==◌, Bool, i31, true, false, Option, some, List, [], ◌∷◌, ◌++◌,
  run_blocks_establishes, has, Covers, All, Any, Any-append, prefix_sum,
}
use mathlib.Core.Path.{subst}
use spearhed.RegionBuffer.{Region}
use spearhed.TreeReduce.Tree.{prefix_sum_entry}
use spearhed.ParticleInit.{
  int_leb, IsDivCeil, Slot, Frame, Created, init_slot, create_particles_in_frame, init_block,
  init_particle_regions, particles_in_frame, get_size_last_frame,
}
use spearhed.ParticleInit.Search.{
  find_frame_location_inverse, place_of, place_unique, place_in_range,
}
use spearhed.ParticleInit.Layout.{live_slot_iff, particle_has_slot}

-- A slot of a new frame: live and placed below the frame's count, dead above it.
abbrev pub IsPlaced : {P : Type 0} → (ℕ → P) → ℕ → ℕ → Slot P → Type 0
IsPlaced place n idx slot =
    (idx < n → (slot.multi_mask ≡ 1) × (slot.particle ≡ place idx))
    × (n ≤ idx → slot.multi_mask ≡ 0)

int_leb-lt : (a b : ℕ) → a < b → b < i31 → int_leb b a ≡ false
unfolding int_leb
int_leb-lt a b lt small = ground arith

module _ {P : Type 0} (frame_size : ℕ) (place : ℕ → P) where
  create-IsPlaced :
      (junk : Box (Slot P)) (slot_order : List ℕ) (n offset next_id idx : ℕ)
      → Covers frame_size slot_order
      → idx < frame_size
      → IsPlaced
          (λ k. place (offset * frame_size + k))
          n
          idx
          ((create_particles_in_frame frame_size place junk slot_order n offset next_id).0.slots
            idx)
  unfolding create_particles_in_frame init_slot
  create-IsPlaced junk slot_order n offset next_id idx covers lt =
      run_blocks_establishes
        (λ (s : Box (Slot P) × ℕ). IsPlaced (λ k. place (offset * frame_size + k)) n idx (s.0 idx))
        (init_slot frame_size place n offset) idx makes keeps slot_order (junk, next_id)
        (inr (covers idx lt))
    where
      makes :
          (s : Box (Slot P) × ℕ)
          → IsPlaced
              (λ k. place (offset * frame_size + k))
              n
              idx
              ((init_slot frame_size place n offset idx s).0 idx)
      makes (slots, next) = (λ h. ground arith, λ h. ground arith)

      keeps :
          (c : ℕ) (s : Box (Slot P) × ℕ)
          → IsPlaced (λ k. place (offset * frame_size + k)) n idx (s.0 idx)
          → IsPlaced
              (λ k. place (offset * frame_size + k))
              n
              idx
              ((init_slot frame_size place n offset c s).0 idx)
      keeps c (slots, next) (live, dead) = elim (ℕ_discrete idx c) [
        | yes e ↦
            subst
              (λ k.
                IsPlaced (λ k'. place (offset * frame_size + k')) n idx
                  ((init_slot frame_size place n offset k (slots, next)).0 idx))
              e (makes (slots, next))
        | no ne ↦ (λ h. ground (arith, live h), λ h. ground (arith, dead h))
      ]

module _ {V P : Type 0} (frame_size : ℕ) (place : Region V → ℕ → P) {div_ceil : ℕ → ℕ → ℕ}
    (ceil : IsDivCeil div_ceil) (positive : 0 < frame_size) (regions : Box (Region V))
    (num_regions : ℕ) (scan : Box ℕ) (junk : Box (Slot P)) (slot_order : List ℕ) where
  abbrev sizes : Box ℕ
  sizes r = div_ceil (regions r).num_particles frame_size

  -- What a block leaves that works on place `i` of region `r`.
  abbrev made_at : ℕ → ℕ → ℕ → Frame P × ℕ
  made_at r i next_id =
      create_particles_in_frame frame_size (place (regions r)) junk slot_order
        (particles_in_frame frame_size (regions r).num_particles (sizes r) i) i next_id

  abbrev after_block : ℕ → ℕ → Created P → Created P
  after_block r i s = record {
    frames = update s.frames r (s.frames r ++ (made_at r i s.next_id).0 ∷ []);
    next_id = (made_at r i s.next_id).1;
  }

  last_frame_nonempty :
      (n : ℕ) → 0 < div_ceil n frame_size → (get_size_last_frame frame_size n == 0) ≡ false
  unfolding get_size_last_frame
  last_frame_nonempty zero h = absurd (grind (arith, ceil.tight 0 frame_size positive))
  last_frame_nonempty (suc n) h = ground arith

  -- The frame holds the region's particle `j`, live and placed.
  abbrev pub HasParticle : ℕ → ℕ → Frame P → Type 0
  HasParticle r j f =
      ((f.slots (j % frame_size)).multi_mask ≡ 1)
      × ((f.slots (j % frame_size)).particle ≡ place (regions r) j)

  abbrev pub Holds : ℕ → ℕ → Created P → Type 0
  Holds r j s = Any (HasParticle r j) (s.frames r)

  after_block-Holds : (r j i c : ℕ) (s : Created P) → Holds r j s → Holds r j (after_block c i s)
  after_block-Holds r j i c s h = elim (ℕ_discrete r c) [
    | yes e ↦
        subst (λ k. Holds r j (after_block k i s)) e
          (rw (==_self r) (Any-append (HasParticle r j) (s.frames r) _ (inl h)))
    | no ne ↦ rw (ne→== r c ne) h
  ]

  made-Holds :
      (r j : ℕ) (s : Created P)
      → Covers frame_size slot_order
      → j < (regions r).num_particles
      → Holds r j (after_block r (j / frame_size) s)
  made-Holds r j s covers lt =
      let n : ℕ = (regions r).num_particles in
      let (frame, slot, e) = particle_has_slot frame_size ceil positive n j lt in
      let live =
        (live_slot_iff frame_size ceil positive n (j / frame_size) (j % frame_size) frame slot).1
          (omega (arith, e)) in
      let placed =
        (create-IsPlaced frame_size (place (regions r)) junk slot_order
            (particles_in_frame frame_size n (sizes r) (j / frame_size)) (j / frame_size) s.next_id
            (j % frame_size) covers slot).0
          live in
      rw (==_self r) (
        Any-append (HasParticle r j) (s.frames r) _
          (inr (inl (placed.0, placed.1 ∙ ap (place (regions r)) e))))

  module _ (scanned : (m : ℕ) → m < num_regions → scan m ≡ prefix_sum sizes (suc m))
      (few : prefix_sum sizes num_regions < i31) (heap : ℕ → Bool)
      (heap_lasts : (b : ℕ) → heap b ≡ true) where
    init_block-after :
        (r i : ℕ) (s : Created P)
        → r < num_regions
        → i < sizes r
        → init_block frame_size place heap regions num_regions scan junk slot_order
            (prefix_sum sizes r + i)
            s
          ≡ some (after_block r i s)
    unfolding init_block
    init_block-after r i s lt small =
        let in_range : sizes r < i31 =
          omega (arith, few, prefix_sum_entry sizes num_regions r lt) in
        rw (find_frame_location_inverse sizes scan num_regions r i scanned few lt small, init_block)
          (rw
            (
              heap_lasts (prefix_sum sizes r + i),
              int_leb-lt i (sizes r) small in_range,
              last_frame_nonempty (regions r).num_particles (omega arith),
            )
            refl)

    abbrev kernel : ℕ → Created P → Option (Created P)
    kernel = init_block frame_size place heap regions num_regions scan junk slot_order

    abbrev launch : List ℕ → Created P → Option (Created P)
    launch = init_particle_regions frame_size place heap regions num_regions scan junk slot_order

    -- What the launch still has to create, its blocks will.
    abbrev Pending : ℕ → ℕ → List ℕ → Created P → Type 0
    Pending r j order s = Holds r j s ⊎ (has (prefix_sum sizes r + j / frame_size) order ≡ true)

    Pending-step :
        (r j b i c : ℕ) (order : List ℕ) (s : Created P)
        → Covers frame_size slot_order
        → r < num_regions
        → c < num_regions
        → i < sizes c
        → j < (regions r).num_particles
        → prefix_sum sizes c + i ≡ b
        → Pending r j (b ∷ order) s
        → Pending r j order (after_block c i s)
    Pending-step r j b i c order s covers lr lc li lt e (inl h) =
        inl (after_block-Holds r j i c s h)
    Pending-step r j b i c order s covers lr lc li lt e (inr h) =
        elim (ℕ_discrete (prefix_sum sizes r + j / frame_size) b) [
          | no ne ↦ inr (rw (ne→== _ b ne) at h)
          | yes here ↦
              let frame = (particle_has_slot frame_size ceil positive _ j lt).0 in
              let (same_r, same_i) =
                place_unique sizes r (j / frame_size) c i frame li (here ∙ sym e) in
              inl (rw (← same_r, ← same_i) (made-Holds r j s covers lt))
        ]

    launch-Holds :
        (order : List ℕ) (s : Created P)
        → Covers frame_size slot_order
        → All (λ b. b < prefix_sum sizes num_regions) order
        → (t : Created P) × (launch order s ≡ some t)
          × ((r j : ℕ)
              → r < num_regions
              → j < (regions r).num_particles
              → Pending r j order s
              → Holds r j t)
    unfolding init_particle_regions
    launch-Holds [] s covers valid =
        (s, refl, λ r j lr small h. elim h [ inl held ↦ held | inr gone ↦ cc ])
    launch-Holds (b ∷ order) s covers (lt, valid) =
        let (c, i, lc, li, e) = place_of sizes num_regions b lt in
        let (t, done, holds) = launch-Holds order (after_block c i s) covers valid in
        let step : kernel b s ≡ some (after_block c i s) =
          subst (λ k. kernel k s ≡ some (after_block c i s)) e (init_block-after c i s lc li) in
        (
          t,
          rw (step, init_particle_regions) done,
          λ r j lr small h.
              holds r j lr small (Pending-step r j b i c order s covers lr lc li small e h),
        )

    -- While the device heap gives every block a frame, and for fewer than 2^31 frames: whatever the
    -- order of the launch's blocks, all of them and none beyond, and of the slots in a block, the
    -- launch over the scanned frame counts ends with no failed assertion, and afterwards every
    -- particle index below a region's particle count is live in a frame of that region, placed by
    -- the setup for that index.
    pub init_particle_regions-Holds :
        (order : List ℕ) (s : Created P)
        → Covers frame_size slot_order
        → Covers (prefix_sum sizes num_regions) order
        → All (λ b. b < prefix_sum sizes num_regions) order
        → (t : Created P) × (init_particle_regions frame_size place heap regions num_regions scan
              junk slot_order order s
            ≡ some t)
          × ((r j : ℕ) → r < num_regions → j < (regions r).num_particles → Holds r j t)
    init_particle_regions-Holds order s covers complete valid =
        let (t, done, holds) = launch-Holds order s covers valid in
        (t, done, λ r j lr small. holds r j lr small (inr (complete _ (in_range r j lr small))))
      where
        in_range :
            (r j : ℕ)
            → r < num_regions
            → j < (regions r).num_particles
            → prefix_sum sizes r + j / frame_size < prefix_sum sizes num_regions
        in_range r j lr small =
            place_in_range sizes r num_regions (j / frame_size) lr
              (particle_has_slot frame_size ceil positive _ j small).0
