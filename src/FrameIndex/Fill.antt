-- ===== src/FrameIndex/Fill.antt =====
-- The two kernels: what the count leaves for the scan, and what the fill writes.
use native.Mathlib.Decide.{dec_lt, ℕ_discrete}
use mathlib.Core.Path.{subst}
use spearhed.Base.{
  ℕ, zero, suc, ◌+◌, ◌-◌, ◌≤◌, ◌<◌, ◌≡◌, ◌≢◌, ◌⊎◌, refl, inl, inr, arith, Box, update, ◌==◌, List,
  [], ◌∷◌, length, get_or, if◌then◌else◌, prefix_sum, prefix_sum_mono, run_blocks,
  run_blocks_establishes, Covers, ==_iff, lt→leb, le→leb,
}
use spearhed.FrameDispatch.{count_frames}
use spearhed.FrameIndex.{fill_frames, build_frame_index}

abbrev pub sizes : Box (List ℕ) → Box ℕ
sizes frames r = length (frames r)

-- The first slot of region `r` in the layout that keeps the regions' frames together.
abbrev pub start : Box (List ℕ) → ℕ → ℕ
start frames r = prefix_sum (sizes frames) r

-- The count kernel writes every region's number of frames, in any order of its blocks.
pub count_frames-length :
    (frames : Box (List ℕ)) (n r : ℕ) (order : List ℕ) (counts : Box ℕ)
    → Covers n order
    → r < n
    → run_blocks (count_frames frames n) order counts r ≡ length (frames r)
unfolding count_frames
count_frames-length frames n r order counts covers lt =
    run_blocks_establishes (λ s. s r ≡ length (frames r)) (count_frames frames n) r
      (λ s. ground arith) (λ c s e. ground (arith, ==_iff r c)) order counts (inr (covers r lt))

-- One list's loop writes its own slots and no others.
fill_frames-outside :
    (frames : List ℕ) (slot block j : ℕ) (boxes : Box ℕ × Box ℕ)
    → ((j < slot) ⊎ (slot + length frames ≤ j))
    → ((fill_frames frames slot block boxes).0 j ≡ boxes.0 j)
      × ((fill_frames frames slot block boxes).1 j ≡ boxes.1 j)
unfolding fill_frames
fill_frames-outside [] slot block j boxes out = (refl, refl)
fill_frames-outside (f ∷ rest) slot block j (ptrs, owners) out =
    let ih =
      fill_frames-outside rest (suc slot) block j (update ptrs slot f, update owners slot block)
        (ground arith) in
    ground (arith, ih)

fill_frames-inside :
    (frames : List ℕ) (slot block i : ℕ) (boxes : Box ℕ × Box ℕ)
    → i < length frames
    → ((fill_frames frames slot block boxes).0 (slot + i) ≡ get_or frames i 0)
      × ((fill_frames frames slot block boxes).1 (slot + i) ≡ block)
unfolding fill_frames
fill_frames-inside [] slot block i boxes lt = elim lt [ ]
fill_frames-inside (f ∷ rest) slot block zero (ptrs, owners) lt = ground (
  arith,
  fill_frames-outside rest (suc slot) block (slot + 0)
      (update ptrs slot f, update owners slot block) (inl (omega arith)),
)
fill_frames-inside (f ∷ rest) slot block (suc i) (ptrs, owners) lt =
    let e : slot + suc i ≡ suc slot + i = omega arith in
    rw e (
      fill_frames-inside rest (suc slot) block i (update ptrs slot f, update owners slot block)
        (omega arith))

-- The regions' slots do not overlap.
pub start-apart :
    (frames : Box (List ℕ)) (r c : ℕ) → r < c → start frames r + length (frames r) ≤ start frames c
unfolding prefix_sum
start-apart frames r c lt = prefix_sum_mono (sizes frames) (suc r) c lt

-- The slots of region `r` hold its frames and its number.
abbrev pub Filled : Box (List ℕ) → ℕ → Box ℕ × Box ℕ → Type 0
Filled frames r (ptrs, owners) =
    (i : ℕ)
    → i < length (frames r)
    → (ptrs (start frames r + i) ≡ get_or (frames r) i 0) × (owners (start frames r + i) ≡ r)

-- Every slot of the scan holds the first slot behind its region.
abbrev pub IsScan : Box (List ℕ) → ℕ → Box ℕ → Type 0
IsScan frames n scan = (r : ℕ) → r < n → scan r ≡ start frames (suc r)

base-start :
    (frames : Box (List ℕ)) (n r : ℕ) (scan : Box ℕ)
    → IsScan frames n scan
    → r < n
    → (if r == 0 then 0 else scan (r - 1)) ≡ start frames r
unfolding prefix_sum
base-start frames n zero scan s lt = refl
base-start frames n (suc r) scan s lt = ground (arith, s r)

module _ (frames : Box (List ℕ)) (n : ℕ) (scan : Box ℕ) (s : IsScan frames n scan) where
  build-makes :
      (r : ℕ) (boxes : Box ℕ × Box ℕ)
      → r < n
      → Filled frames r (build_frame_index frames n scan r boxes)
  unfolding build_frame_index
  build-makes r boxes lt i h =
      rw (lt→leb n r lt, base-start frames n r scan s lt)
        (fill_frames-inside (frames r) (start frames r) r i boxes h)

  build-keeps :
      (r c : ℕ) (boxes : Box ℕ × Box ℕ)
      → Filled frames r boxes
      → r ≢ c
      → Filled frames r (build_frame_index frames n scan c boxes)
  unfolding build_frame_index
  build-keeps r c boxes filled ne i h = elim (dec_lt c n) [
    | yes lt ↦
        rw (lt→leb n c lt, base-start frames n c scan s lt)
          (ground (
            arith,
            filled i,
            start-apart frames r c,
            start-apart frames c r,
            fill_frames-outside (frames c) (start frames c) c (start frames r + i) boxes,
          ))
    | no ge ↦ rw (le→leb n c (omega arith)) (filled i h)
  ]

  -- After the fill kernel, in any order of its blocks, every region's slots are right.
  pub build_frame_index-Filled :
      (order : List ℕ) (boxes : Box ℕ × Box ℕ)
      → Covers n order
      → (r : ℕ) → r < n
      → Filled frames r (run_blocks (build_frame_index frames n scan) order boxes)
  build_frame_index-Filled order boxes covers r lt =
      run_blocks_establishes (Filled frames r) (build_frame_index frames n scan) r
        (λ b. build-makes r b lt) keeps order boxes (inr (covers r lt))
    where
      keeps :
          (c : ℕ) (b : Box ℕ × Box ℕ)
          → Filled frames r b
          → Filled frames r (build_frame_index frames n scan c b)
      keeps c b filled = elim (ℕ_discrete r c) [
        | yes e ↦
            subst (λ k. Filled frames r (build_frame_index frames n scan k b)) e
              (build-makes r b lt)
        | no ne ↦ build-keeps r c b filled ne
      ]
