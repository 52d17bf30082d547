-- ===== src/RegionBounds/Hull.antt =====
-- What one region's volume becomes.
use mathlib.Core.Path.{subst}
use native.Mathlib.Decide.{dec_lt, ℕ_discrete}
use spearhed.Base.{
  ℕ, zero, suc, ◌+◌, ◌<◌, ◌≤◌, ◌-◌, ◌==◌, ◌≡◌, ◌↔◌, refl, sym, ap, ◌∙◌, arith, Box, update, ltb,
  Bool, true, some, List, [], ◌∷◌, if◌then◌else◌, has, Covers, Distinct, visit-run_blocks,
  run_blocks, run_blocks_keeps, run_blocks_establishes, Bool-cases, inl, inr, ==_iff, ==_self,
  ne→==, lt→ltb,
}
use spearhed.BoundingBox.{Scalar, Aabb, default_box, extend_vec, extend_box}
use spearhed.BoundingBox.Extend.{
  AtMost, IsTotal, Contains, Within, Within-extend_vec, Within-extend_box,
}
use spearhed.FrameSchedule.{lockstep_for_each_particle}
use spearhed.Hierarchy.{for_each, for_each_child}
use spearhed.RegionBuffer.{Region}
use spearhed.RegionBounds.{
  Run, max_block_size, frame_body, local_bounds, load_bounds, update_region,
}
use spearhed.TreeReduce.{tree_reduce}
use spearhed.TreeReduce.Tree.{pow2, pow2_gt, tree, tree_reduce-tree}

-- Every scalar lies between the two limits.
pub record IsBounded {A : Type 0} (sc : Scalar A) : Type 0 where
  pub at_most_highest : (a : A) → AtMost sc a sc.highest
  pub at_least_lowest : (a : A) → AtMost sc sc.lowest a

-- A loop of steps that each add a condition on the boxes around.
loop-Within :
    {A : Type 0} (sc : Scalar A) (c : Aabb A) (Q : ℕ → Type 0) (kernel : ℕ → Aabb A → Aabb A)
    → ((x : ℕ) (b : Aabb A) → Within sc (kernel x b) c ↔ (Q x × Within sc b c))
    → (xs : List ℕ) (b : Aabb A)
    → Within sc (run_blocks kernel xs b) c ↔ (((x : ℕ) → has x xs ≡ true → Q x) × Within sc b c)
unfolding run_blocks
loop-Within sc c Q kernel adds [] b = (λ w. (λ x h. cc, w), λ (all, w). w)
loop-Within sc c Q kernel adds (y ∷ ys) b =
    let ih = loop-Within sc c Q kernel adds ys (kernel y b) in
    (
      λ w. (
        λ x h. elim (Bool-cases (x == y)) [
          | inl e ↦ subst Q (sym ((==_iff x y).0 e)) ((adds y b).0 (ih.0 w).1).0
          | inr e ↦ (ih.0 w).0 x (rw e at h)
        ],
        ((adds y b).0 (ih.0 w).1).1,
      ),
      λ (all, w). ih.1 (λ x h. all x (later x h), (adds y b).1 (all y (rw (==_self y) refl), w)),
    )
  where
    later : (x : ℕ) → has x ys ≡ true → has x (y ∷ ys) ≡ true
    later x e = elim (Bool-cases (x == y)) [ inl t ↦ rw t refl | inr t ↦ rw t e ]

tree-Within :
    {A : Type 0} (sc : Scalar A) (total : IsTotal sc) (c : Aabb A) (k : ℕ) (box : Box (Aabb A))
    → Within sc (tree (λ a b. extend_box sc b a) k box) c
      ↔ ((t : ℕ) → t < pow2 k → Within sc (box t) c)
tree-Within sc total c zero box =
    (λ w t lt. subst (λ u. Within sc (box u) c) (omega arith) w, λ all. all 0 (omega arith))
tree-Within sc total c (suc k) box =
    let ih = tree-Within sc total c k (λ t. extend_box sc (box (t + pow2 k)) (box t)) in
    (
      λ w t lt. elim (dec_lt t (pow2 k)) [
        | yes low ↦ ((Within-extend_box sc total (box (t + pow2 k)) (box t) c).0 (ih.0 w t low)).1
        | no high ↦
            subst (λ u. Within sc (box u) c) (omega arith)
              ((Within-extend_box sc total (box ((t - pow2 k) + pow2 k)) (box (t - pow2 k)) c).0
                (ih.0 w (t - pow2 k) (omega arith))).0
      ],
      λ all. ih.1 (λ t lt.
          (Within-extend_box sc total (box (t + pow2 k)) (box t) c).1
            (all (t + pow2 k) (omega arith), all t (omega arith))),
    )

tree-origin :
    {A : Type 0} (sc : Scalar A) (k : ℕ) (box : Box (Aabb A))
    → (tree (λ a b. extend_box sc b a) k box).origin ≡ (box 0).origin
unfolding extend_box
tree-origin sc zero box = refl
tree-origin sc (suc k) box = tree-origin sc k (λ t. extend_box sc (box (t + pow2 k)) (box t))

module _ {A P : Type 0} (sc : Scalar A) (total : IsTotal sc) (frame_size : ℕ) (is_valid : P → Bool)
    (relative_pos : P → Box A) (memory : Box (Box P)) where
  -- The box holds the live particles of the slots below `slots` tells of, in the frames listed.
  abbrev Around : (ℕ → Type 0) → List ℕ → Aabb A → Type 0
  Around Mine frames c =
      (frame : ℕ)
      → has frame frames ≡ true
      → (slot : ℕ) → Mine slot
      → is_valid (memory frame slot) ≡ true
      → Contains sc c (relative_pos (memory frame slot))

  abbrev slot_step : ℕ → ℕ → Aabb A → Aabb A
  slot_step frame slot b =
      if is_valid (memory frame slot) then extend_vec sc (relative_pos (memory frame slot)) b else b

  slot_step-Within :
      (c : Aabb A) (frame slot : ℕ) (b : Aabb A)
      → Within sc (slot_step frame slot b) c ↔ (
          (is_valid (memory frame slot) ≡ true → Contains sc c (relative_pos (memory frame slot)))
          × Within sc b c)
  slot_step-Within c frame slot b =
      let vec = relative_pos (memory frame slot) in
      elim (Bool-cases (is_valid (memory frame slot))) [
        | inl live ↦
            let w = Within-extend_vec sc total vec b c in
            rw live (λ h. (λ _. (w.0 h).0, (w.0 h).1), λ (holds, h). w.1 (holds refl, h))
        | inr dead ↦ rw dead (λ h. (λ e. cc, h), λ (holds, h). h)
      ]

  slot_step-origin : (frame slot : ℕ) (b : Aabb A) → (slot_step frame slot b).origin ≡ b.origin
  unfolding extend_vec
  slot_step-origin frame slot b = elim (Bool-cases (is_valid (memory frame slot))) [
    | inl live ↦ rw live refl
    | inr dead ↦ rw dead refl
  ]

  abbrev frame_step : List ℕ → ℕ → Aabb A → Aabb A
  frame_step slots frame b = run_blocks (slot_step frame) slots b

  local_bounds-steps :
      (slots : List ℕ) (region : Region (Aabb A))
      → local_bounds sc frame_size is_valid relative_pos memory slots region
        ≡ run_blocks (frame_step slots) region.frames (default_box sc)
  unfolding local_bounds for_each for_each_child frame_body lockstep_for_each_particle
  local_bounds-steps slots region =
      visit-run_blocks (frame_step slots) region.frames (default_box sc)

  local_bounds-Within :
      (slots : List ℕ) (region : Region (Aabb A)) (c : Aabb A)
      → Within sc (local_bounds sc frame_size is_valid relative_pos memory slots region) c
        ↔ (Around (λ slot. has slot slots ≡ true) region.frames c × Within sc (default_box sc) c)
  local_bounds-Within slots region c = rw (local_bounds-steps slots region) (
      loop-Within sc c
        (λ frame.
          (slot : ℕ)
          → has slot slots ≡ true
          → is_valid (memory frame slot) ≡ true
          → Contains sc c (relative_pos (memory frame slot)))
        (frame_step slots)
        (λ frame b. loop-Within sc c _ (slot_step frame) (slot_step-Within c frame) slots b)
        region.frames (default_box sc))

  local_bounds-origin :
      (slots : List ℕ) (region : Region (Aabb A))
      → (local_bounds sc frame_size is_valid relative_pos memory slots region).origin
        ≡ (default_box sc).origin
  local_bounds-origin slots region =
      ap (λ b. b.origin) (local_bounds-steps slots region)
      ∙ run_blocks_keeps (λ b. b.origin) (frame_step slots) region.frames (default_box sc)
          (λ frame b h.
            run_blocks_keeps (λ b. b.origin) (slot_step frame) slots b
              (λ slot d h'. slot_step-origin frame slot d))

  -- The box is the least one around the live particles of the frames, at the default origin.
  pub record IsHull (frames : List ℕ) (volume : Aabb A) : Type 0 where
    pub origin : volume.origin ≡ (default_box sc).origin
    pub hull : (c : Aabb A) → Within sc volume c ↔ Around (λ slot. slot < frame_size) frames c

  -- The region with a new volume, the least one around its live particles.
  abbrev pub Done : Region (Aabb A) → Region (Aabb A) → Type 0
  Done old new =
      (volume : Aabb A) × (new ≡ record old { volume = volume }) × IsHull old.frames volume

  -- What a launch takes for granted of its run: a power of two of threads that the shared memory
  -- has room for, and every slot in the share of some thread.
  pub record IsFair (run : Run A) : Type 0 where
    pub exponent : ℕ
    pub power_of_two : run.num_workers ≡ pow2 exponent
    pub room : run.num_workers ≤ max_block_size
    pub threads_covered : Covers run.num_workers run.thread_order
    pub threads_once : Distinct run.thread_order
    pub slots_below : (t slot : ℕ) → has slot (run.slots t) ≡ true → slot < frame_size
    pub slots_covered :
        (slot : ℕ)
        → slot < frame_size
        → (t : ℕ) × (t < run.num_workers) × (has slot (run.slots t) ≡ true)

  module _ (bounded : IsBounded sc) (run : Run A) (fair : IsFair run) where
    loaded :
        (region : Region (Aabb A)) (s_bounds : Box (Aabb A)) (t : ℕ)
        → t < run.num_workers
        → run_blocks
            (load_bounds sc frame_size is_valid relative_pos memory run region)
            run.thread_order
            s_bounds
            t
          ≡ local_bounds sc frame_size is_valid relative_pos memory (run.slots t) region
    unfolding load_bounds
    loaded region s_bounds t lt =
        run_blocks_establishes
          (λ s. s t ≡ local_bounds sc frame_size is_valid relative_pos memory (run.slots t) region)
          (load_bounds sc frame_size is_valid relative_pos memory run region) t
          (λ s. rw (lt→ltb t max_block_size (omega (arith, fair.room)), ==_self t) refl)
          (λ d s e. elim (Bool-cases (ltb d max_block_size)) [
            | inl inside ↦ rw inside (elim (ℕ_discrete t d) [
              | yes same ↦ rw (← same, ==_self t) refl
              | no ne ↦ rw (ne→== t d ne) e
            ])
            | inr outside ↦ rw outside e
          ])
          run.thread_order s_bounds (inr (fair.threads_covered t lt))

    default-Within : (c : Aabb A) → Within sc (default_box sc) c
    unfolding default_box
    default-Within c tag lt =
        (bounded.at_most_highest (c.min tag), bounded.at_least_lowest (c.max tag))

    -- The update of one region ends, and stores the least box.
    pub update_region-IsHull :
        (region_idx : ℕ) (regions : Box (Region (Aabb A))) (s_bounds : Box (Aabb A))
        → (volume : Aabb A) × (shared : Box (Aabb A)) × (update_region sc frame_size is_valid
              relative_pos memory run region_idx
              (regions, s_bounds)
            ≡ some (
              update regions region_idx (record (regions region_idx) { volume = volume }),
              shared,
            ))
          × IsHull (regions region_idx).frames volume
    unfolding update_region
    update_region-IsHull region_idx regions s_bounds =
        let region = regions region_idx in
        let box =
          run_blocks (load_bounds sc frame_size is_valid relative_pos memory run region)
            run.thread_order s_bounds in
        let (reduced, e, first) =
          tree_reduce-tree (λ a b. extend_box sc b a) fair.exponent run.thread_order box
            (rw fair.power_of_two at fair.threads_covered) fair.threads_once in
        let ends =
          subst (λ n. tree_reduce (λ a b. extend_box sc b a) n run.thread_order box ≡ some reduced)
            (sym fair.power_of_two) e in
        rw (ends, update_region)
          (
            reduced 0,
            reduced,
            refl,
            rw first
                (tree_hull region box (λ t lt. loaded region s_bounds t (rw fair.power_of_two lt))),
          )
      where
        tree_hull :
            (region : Region (Aabb A)) (box : Box (Aabb A))
            → ((t : ℕ)
                → t < pow2 fair.exponent
                → box t
                  ≡ local_bounds sc frame_size is_valid relative_pos memory (run.slots t) region)
            → IsHull region.frames (tree (λ a b. extend_box sc b a) fair.exponent box)
        tree_hull region box holds = record {
          origin =
              tree-origin sc fair.exponent box
              ∙ ap (λ b. b.origin) (holds 0 (omega (arith, pow2_gt fair.exponent)))
              ∙ local_bounds-origin (run.slots 0) region;
          hull = λ c.
              let all = tree-Within sc total c fair.exponent box in
              (
                λ w frame listed slot lt live.
                    let (t, t_lt, mine) = fair.slots_covered slot lt in
                    let local =
                      subst (λ b. Within sc b c) (holds t (rw fair.power_of_two at t_lt))
                        (all.0 w t (rw fair.power_of_two at t_lt)) in
                    ((local_bounds-Within (run.slots t) region c).0 local).0 frame listed slot mine
                      live,
                λ around. all.1 (λ t t_lt.
                    subst (λ b. Within sc b c) (sym (holds t t_lt))
                      ((local_bounds-Within (run.slots t) region c).1 (
                        λ frame listed slot mine live.
                            around frame listed slot (fair.slots_below t slot mine) live,
                        default-Within c,
                      ))),
              );
        }
