-- ===== src/Output/Copied.antt =====
-- What the array holds after a copy.
use native.Mathlib.Decide.{ℕ_discrete, dec_lt}
use spearhed.Base.{
  ℕ, zero, suc, ◌+◌, ◌-◌, ◌%◌, ◌<◌, ◌≡◌, refl, sym, ap, ◌∙◌, arith, Box, u32, u64, some, List, [],
  ◌∷◌, ◌++◌, length, get_or, visit, ==_self, ne→==, length-append, concat_map, map, All,
}
use mathlib.Core.List.{append-nil, append_assoc}
use spearhed.RegionBuffer.{Region}
use spearhed.Output.{
  HostFrame, CopyTask, region_tasks, copy_tasks, total_particles, copy_n, run_task, copy_particles,
}

copy_n-inside :
    {P : Type 0} (src : Box P) (count offset i : ℕ) (dst : Box P)
    → i < count
    → copy_n src count offset dst (offset + i) ≡ src i
unfolding copy_n
copy_n-inside src zero offset i dst lt = elim lt [ ]
copy_n-inside src (suc count) offset i dst lt = elim (ℕ_discrete i count) [
  | yes e ↦ rw (e, ==_self (offset + count)) refl
  | no ne ↦
      rw (ne→== (offset + i) (offset + count) (λ h. omega arith))
        (copy_n-inside src count offset i dst (omega arith))
]

copy_n-below :
    {P : Type 0} (src : Box P) (count offset j : ℕ) (dst : Box P)
    → j < offset
    → copy_n src count offset dst j ≡ dst j
unfolding copy_n
copy_n-below src zero offset j dst lt = refl
copy_n-below src (suc count) offset j dst lt =
    rw (ne→== j (offset + count) (λ h. omega arith)) (copy_n-below src count offset j dst lt)

-- The first particles of a frame, from one slot on.
abbrev pub slots_from : {P : Type 0} → Box P → ℕ → ℕ → List P
slots_from src i zero = []
slots_from src i (suc n) = src i ∷ slots_from src (suc i) n

slots_from-length : {P : Type 0} (src : Box P) (i n : ℕ) → length (slots_from src i n) ≡ n
slots_from-length src i zero = refl
slots_from-length src i (suc n) = ap suc (slots_from-length src (suc i) n)

get_or-slots_from :
    {P : Type 0} (src : Box P) (i n j : ℕ) (d : P)
    → j < n
    → get_or (slots_from src i n) j d ≡ src (i + j)
get_or-slots_from src i zero j d lt = elim lt [ ]
get_or-slots_from src i (suc n) zero d lt = ap src (omega arith)
get_or-slots_from src i (suc n) (suc j) d lt =
    get_or-slots_from src (suc i) n j d (omega arith) ∙ ap src (omega arith)

get_or-append_left :
    {P : Type 0} (xs ys : List P) (j : ℕ) (d : P)
    → j < length xs
    → get_or (xs ++ ys) j d ≡ get_or xs j d
get_or-append_left [] ys j d lt = elim lt [ ]
get_or-append_left (x ∷ xs) ys zero d lt = refl
get_or-append_left (x ∷ xs) ys (suc j) d lt = get_or-append_left xs ys j d (omega arith)

get_or-append_right :
    {P : Type 0} (xs ys : List P) (j : ℕ) (d : P)
    → get_or (xs ++ ys) (length xs + j) d ≡ get_or ys j d
get_or-append_right [] ys j d = ap (λ k. get_or ys k d) (omega arith)
get_or-append_right (x ∷ xs) ys j d =
    let e : suc (length xs) + j ≡ suc (length xs + j) = omega arith in
    rw e (get_or-append_right xs ys j d)

-- The particles of the frames, in the frames' order.
abbrev pub packed : {P : Type 0} → List (HostFrame P) → List P
packed frames = concat_map (λ f. slots_from f.particles_soa 0 f.live_particles) frames

abbrev frame_tasks : {P : Type 0} → List (HostFrame P) → ℕ → List (CopyTask P)
frame_tasks [] w = []
frame_tasks (f ∷ fs) w =
    record { host_frame = f; count = f.live_particles; write_offset = w }
    ∷ frame_tasks fs (w + f.live_particles)

abbrev run_tasks : {P : Type 0} → List (HostFrame P) → ℕ → Box P → Box P
run_tasks fs w dst = visit run_task (frame_tasks fs w) dst

run_tasks-below :
    {P : Type 0} (fs : List (HostFrame P)) (w j : ℕ) (dst : Box P)
    → j < w
    → run_tasks fs w dst j ≡ dst j
unfolding visit run_task
run_tasks-below [] w j dst lt = refl
run_tasks-below (f ∷ fs) w j dst lt =
    run_tasks-below fs (w + f.live_particles) j _ (omega arith)
    ∙ copy_n-below f.particles_soa f.live_particles w j dst lt

run_tasks-packed :
    {P : Type 0} (fs : List (HostFrame P)) (w j : ℕ) (dst : Box P) (d : P)
    → j < length (packed fs)
    → run_tasks fs w dst (w + j) ≡ get_or (packed fs) j d
unfolding visit run_task
run_tasks-packed [] w j dst d lt = elim lt [ ]
run_tasks-packed (f ∷ fs) w j dst d lt = elim (dec_lt j f.live_particles) [
  | yes own ↦
      let mine = slots_from f.particles_soa 0 f.live_particles in
      let len = slots_from-length f.particles_soa 0 f.live_particles in
      run_tasks-below fs (w + f.live_particles) (w + j) _ (omega arith)
      ∙ copy_n-inside f.particles_soa f.live_particles w j dst own
      ∙ sym (
          get_or-append_left mine (packed fs) j d (omega (arith, len))
          ∙ get_or-slots_from f.particles_soa 0 f.live_particles j d own
          ∙ ap f.particles_soa (omega arith))
  | no later ↦
      let mine = slots_from f.particles_soa 0 f.live_particles in
      let len = slots_from-length f.particles_soa 0 f.live_particles in
      let total = length-append mine (packed fs) in
      let k = j - f.live_particles in
      let e : (w + f.live_particles) + (j - f.live_particles) ≡ w + j = omega arith in
      let e' : length mine + (j - f.live_particles) ≡ j = omega (arith, len) in
      ap (run_tasks (f ∷ fs) w dst) (sym e)
      ∙ run_tasks-packed fs (w + f.live_particles) (j - f.live_particles) _ d
          (omega (arith, len, total, lt))
      ∙ sym (get_or-append_right mine (packed fs) (j - f.live_particles) d)
      ∙ ap (λ k. get_or (mine ++ packed fs) k d) e'
]

abbrev sum_live : {P : Type 0} → List (HostFrame P) → ℕ
sum_live [] = 0
sum_live (f ∷ fs) = f.live_particles + sum_live fs

packed-length : {P : Type 0} (fs : List (HostFrame P)) → length (packed fs) ≡ sum_live fs
packed-length [] = refl
packed-length (f ∷ fs) = omega (
  arith,
  length-append (slots_from f.particles_soa 0 f.live_particles) (packed fs),
  slots_from-length f.particles_soa 0 f.live_particles,
  packed-length fs,
)

module _ {P : Type 0} (div_ceil : ℕ → ℕ → ℕ) (frame_size : ℕ) (heap : Box (HostFrame P))
    (heap_offset : ℕ) where
  abbrev pub host_frames : List ℕ → List (HostFrame P)
  host_frames addresses = map (λ a. heap ((a + heap_offset) % u64)) addresses

  -- The list has as many frames as its particle count asks for, and they hold that many particles.
  pub record IsPacked {V : Type 0} (region : Region V) : Type 0 where
    pub enough_frames : length region.frames ≡ div_ceil region.num_particles frame_size
    pub all_live : sum_live (host_frames region.frames) ≡ region.num_particles

  -- All frames of the regions on the host, in the order of the regions and of their lists.
  abbrev pub all_frames : {V : Type 0} → List (Region V) → List (HostFrame P)
  all_frames regions = concat_map (λ r. host_frames r.frames) regions

  region_tasks-frames :
      (addresses : List ℕ) (tasks : List (CopyTask P)) (w : ℕ)
      → w + sum_live (host_frames addresses) < u32
      → region_tasks div_ceil frame_size heap heap_offset (length addresses) addresses (tasks, w)
        ≡ some
            (tasks ++ frame_tasks (host_frames addresses) w, w + sum_live (host_frames addresses))
  unfolding region_tasks
  region_tasks-frames [] tasks w small =
      let e : w + 0 ≡ w = omega arith in rw (append-nil tasks, e) refl
  region_tasks-frames (a ∷ addresses) tasks w small =
      let live = (heap ((a + heap_offset) % u64)).live_particles in
      let same : (w + live) % u32 ≡ w + live = omega (arith, small) in
      let e : (w + live) + sum_live (host_frames addresses)
          ≡ w + (live + sum_live (host_frames addresses)) =
        omega arith in
      let task : CopyTask P = record {
        host_frame = heap ((a + heap_offset) % u64);
        count = live;
        write_offset = w;
      } in
      rw (same, region_tasks)
        (region_tasks-frames addresses (tasks ++ (task ∷ [])) (w + live) (omega (arith, small))
          ∙ rw (e, append_assoc tasks (task ∷ []) (frame_tasks (host_frames addresses) (w + live)))
              refl)

  frame_tasks-append :
      (xs ys : List (HostFrame P)) (w : ℕ)
      → frame_tasks (xs ++ ys) w ≡ frame_tasks xs w ++ frame_tasks ys (w + sum_live xs)
  frame_tasks-append [] ys w = ap (frame_tasks ys) (omega arith)
  frame_tasks-append (x ∷ xs) ys w =
      let e : (w + x.live_particles) + sum_live xs ≡ w + (x.live_particles + sum_live xs) =
        omega arith in
      rw (frame_tasks-append xs ys (w + x.live_particles), e) refl

  sum_live-append : (xs ys : List (HostFrame P)) → sum_live (xs ++ ys) ≡ sum_live xs + sum_live ys
  sum_live-append [] ys = omega arith
  sum_live-append (x ∷ xs) ys = omega (arith, sum_live-append xs ys)

  module _ {V : Type 0} where
    copy_tasks-frames :
        (regions : List (Region V)) (tasks : List (CopyTask P)) (w : ℕ)
        → All {0, 0} IsPacked regions
        → w + sum_live (all_frames regions) < u32
        → (copy_tasks div_ceil frame_size heap heap_offset regions (tasks, w)
            ≡ some (tasks ++ frame_tasks (all_frames regions) w, w + sum_live (all_frames regions)))
          × (total_particles regions w ≡ w + sum_live (all_frames regions))
    unfolding copy_tasks total_particles
    copy_tasks-frames [] tasks w h small =
        let e : w + 0 ≡ w = omega arith in rw (append-nil tasks, e) (refl, refl)
    copy_tasks-frames (region ∷ regions) tasks w (packs, h) small =
        let own = host_frames region.frames in
        let sums = sum_live-append own (all_frames regions) in
        let here = region_tasks-frames region.frames tasks w (omega (arith, sums, small)) in
        let first : region_tasks div_ceil frame_size heap heap_offset
              (div_ceil region.num_particles frame_size) region.frames (tasks, w)
            ≡ some (tasks ++ frame_tasks own w, w + sum_live own) =
          ap (λ n. region_tasks div_ceil frame_size heap heap_offset n region.frames (tasks, w))
            (sym packs.enough_frames)
          ∙ here in
        let (ih, ih') =
          copy_tasks-frames regions (tasks ++ frame_tasks own w) (w + sum_live own) h
            (omega (arith, sums, small)) in
        let e : (w + sum_live own) + sum_live (all_frames regions)
            ≡ w + sum_live (own ++ all_frames regions) =
          omega (arith, sums) in
        let count : (w + region.num_particles) % u32 ≡ w + sum_live own =
          omega (arith, packs.all_live, sums, small) in
        (
          rw (first, copy_tasks)
              (ih
                ∙ rw
                    (
                      e,
                      append_assoc tasks (frame_tasks own w)
                          (frame_tasks (all_frames regions) (w + sum_live own)),
                      sym (frame_tasks-append own (all_frames regions) w),
                    )
                    refl),
          rw count (ih' ∙ e),
        )

    -- Over regions whose lists hold the frames and the particles that their counts tell of, and
    -- while all particles are fewer than 2^32: the copy ends, gives the array room for exactly the
    -- live particles of all frames, and fills it with them in the order of the regions, of their
    -- lists and of the slots. No particle is lost or doubled, however the frames are filled.
    pub copy_particles-packed :
        (regions : List (Region V)) (fresh : Box P)
        → All {0, 0} IsPacked regions
        → sum_live (all_frames regions) < u32
        → (out : Box P) × (copy_particles div_ceil frame_size heap heap_offset regions fresh
            ≡ some (length (packed (all_frames regions)), out))
          × ((j : ℕ) (d : P)
              → j < length (packed (all_frames regions))
              → out j ≡ get_or (packed (all_frames regions)) j d)
    unfolding copy_particles
    copy_particles-packed regions fresh h small =
        let frames = all_frames regions in
        let (e, e') = copy_tasks-frames regions [] 0 h (omega (arith, small)) in
        let size : total_particles regions 0 ≡ length (packed frames) =
          e' ∙ omega (arith, packed-length frames) in
        (
          run_tasks frames 0 fresh,
          rw (e, copy_particles) (ap (λ n. some (n, run_tasks frames 0 fresh)) size),
          λ j d lt.
              let zero_plus : 0 + j ≡ j = omega arith in
              rw zero_plus at (run_tasks-packed frames 0 j fresh d lt),
        )
