-- ===== src/FrameSchedule/Launch.antt =====
-- A launch over the live particles of a buffer.
use native.Mathlib.Decide.{dec_lt}
use spearhed.Base.{
  ℕ, zero, suc, ◌+◌, ◌-◌, ◌<◌, ◌≡◌, ◌≢◌, refl, sym, ap, ◌∙◌, arith, Box, ◌==◌, Bool, true, false,
  Option, some, List, length, get_or, Covers, Distinct, prefix_sum, run_blocks, i31, Bool-cases,
  inl, inr, ==_iff,
}
use spearhed.FrameDispatch.{num_blocks}
use spearhed.FrameIndex.{FrameIndex, Device, empty, is_fresh}
use spearhed.FrameIndex.Fill.{start, start-apart}
use spearhed.FrameIndex.Rebuild.{IsExact, lists, rebuild-IsExact}
use spearhed.RegionBuffer.{Region, RegionBuffer, IsValid}
use spearhed.FrameSchedule.{
  IdxMap, schedule_frames, ForEachConfig, for_each_kernel, launch_for_each_frame_in_block_indexed,
  launch_for_each, launch_for_each_once,
}
use spearhed.FrameSchedule.Update.{
  IsPartition, SharesOut, Matches, Memory, occupied, rewrite_particle, rewritten,
  schedule-IsPartition, launch-own, launch-other,
}

-- Every slot of the index belongs to a frame of some region.
locate :
    (frames : Box (List ℕ)) (n g : ℕ)
    → g < start frames n
    → (r i : ℕ) × (r < n) × (i < length (frames r)) × (g ≡ start frames r + i)
unfolding prefix_sum
locate frames zero g lt = elim lt [ ]
locate frames (suc n) g lt = elim (dec_lt g (start frames n)) [
  | yes before ↦
      let (r, i, r_lt, i_lt, e) = locate frames n g before in (r, i, omega arith, i_lt, e)
  | no after ↦ (n, g - start frames n, omega arith, omega arith, omega arith)
]

-- No frame is in two lists, or twice in one.
abbrev pub Apart : Box (List ℕ) → ℕ → Type 0
Apart frames n =
    (r s i j : ℕ)
    → r < n
    → s < n
    → i < length (frames r)
    → j < length (frames s)
    → get_or (frames r) i 0 ≡ get_or (frames s) j 0
    → (r ≡ s) × (i ≡ j)

-- What a launch takes for granted of its run: alpaka's maps, the orders of slots and blocks.
pub record IsRun (frame_size : ℕ) (idx_map : IdxMap) (cfg : ForEachConfig) (slot_order : List ℕ)
    (order : ℕ → List ℕ) : Type 0 where
  pub shares_out : SharesOut idx_map
  pub matches : Matches cfg.schedule cfg.grid
  pub slots_once : Distinct slot_order
  pub slots_covered : Covers frame_size slot_order
  pub blocks_once : (grid : ℕ) → Distinct (order grid)
  pub blocks_covered : (grid : ℕ) → Covers grid (order grid)

-- The update `f` happened to every live particle of the lists' frames and to nothing else.
pub record IsUpdated {P : Type 0} (is_valid : P → Bool) (f : P → P) (frame_size : ℕ)
    (frames : Box (List ℕ)) (n : ℕ) (before after : Memory is_valid f) : Type 0 where
  pub listed :
      (r i slot : ℕ)
      → r < n
      → i < length (frames r)
      → slot < frame_size
      → after (get_or (frames r) i 0) slot
        ≡ rewritten is_valid f (before (get_or (frames r) i 0) slot)
  pub others :
      (frame slot : ℕ)
      → ((r i : ℕ) → r < n → i < length (frames r) → frame ≢ get_or (frames r) i 0)
      → after frame slot ≡ before frame slot

module _ {V P : Type 0} (is_valid : P → Bool) (f : P → P) (frame_size : ℕ) (idx_map : IdxMap)
    (cfg : ForEachConfig) (slot_order : List ℕ) (order : ℕ → List ℕ)
    (run : IsRun frame_size idx_map cfg slot_order order) (b : RegionBuffer (Region V))
    (memory : Memory is_valid f) (small : start (lists b) b.size < i31)
    (apart : Apart (lists b) b.size) where
  module _ (idx : FrameIndex) (exact : IsExact (lists b) b.size idx)
      (some_frames : (idx.total_frames == 0) ≡ false) where
    abbrev grid : ℕ
    grid = num_blocks cfg.grid idx.total_frames

    partition :
        IsPartition
          (schedule_frames idx_map cfg.schedule idx.total_frames grid)
          idx.total_frames
          grid
    partition =
        schedule-IsPartition idx_map cfg.schedule cfg.grid idx.total_frames run.shares_out
          run.matches (ground arith)

    -- The slots of the index hold different frames.
    pub distinct :
        (g h : ℕ)
        → g < idx.total_frames
        → h < idx.total_frames
        → exact.ptrs g ≡ exact.ptrs h
        → g ≡ h
    distinct g h lt lt' e =
        let (r, i, r_lt, i_lt, at) = locate (lists b) b.size g (rw exact.total at lt) in
        let (s, j, s_lt, j_lt, at') = locate (lists b) b.size h (rw exact.total at lt') in
        let same = apart r s i j r_lt s_lt i_lt j_lt (
          sym (exact.filled r r_lt i i_lt).0
          ∙ ap exact.ptrs (sym at)
          ∙ e
          ∙ ap exact.ptrs at'
          ∙ (exact.filled s s_lt j j_lt).0) in
        at
        ∙ ap (λ k. start (lists b) k + i) same.0
        ∙ ap (λ k. start (lists b) s + k) same.1
        ∙ sym at'

    abbrev launched : Memory is_valid f
    launched =
        run_blocks
          (for_each_kernel idx_map cfg (occupied is_valid f) slot_order
            (rewrite_particle is_valid f) exact.ptrs idx.total_frames grid)
          (order grid) memory

    launched-IsUpdated : IsUpdated is_valid f frame_size (lists b) b.size memory launched
    unfolding for_each_kernel
    launched-IsUpdated = record {
      listed = λ r i slot r_lt i_lt slot_lt.
          let in_total : start (lists b) r + i < idx.total_frames =
            omega (arith, exact.total, start-apart (lists b) r b.size r_lt) in
          launch-own is_valid f (get_or (lists b r) i 0) slot idx_map cfg.schedule exact.ptrs
            idx.total_frames grid slot_order partition (omega (arith, exact.total)) distinct
            run.slots_once (run.slots_covered slot slot_lt) (order grid) (start (lists b) r + i)
            memory in_total (exact.filled r r_lt i i_lt).0 (run.blocks_once grid)
            (run.blocks_covered grid);
      others = λ frame slot unlisted.
          launch-other is_valid f frame slot idx_map cfg.schedule exact.ptrs idx.total_frames grid
            slot_order partition (order grid) memory
            (λ g lt e.
              let (r, i, r_lt, i_lt, at) = locate (lists b) b.size g (rw exact.total at lt) in
              unlisted r i r_lt i_lt (e ∙ ap exact.ptrs at ∙ (exact.filled r r_lt i i_lt).0));
    }

  nothing :
      start (lists b) b.size ≡ 0 → IsUpdated is_valid f frame_size (lists b) b.size memory memory
  nothing e = record {
    listed = λ r i slot r_lt i_lt slot_lt.
        absurd (omega (arith, start-apart (lists b) r b.size r_lt, e));
    others = λ frame slot unlisted. refl;
  }

  abbrev Outcome : Option (Memory is_valid f) → Type 0
  Outcome r =
      (out : Memory is_valid f) × (r ≡ some out)
      × IsUpdated is_valid f frame_size (lists b) b.size memory out

  -- Over an exact and fresh index a launch with a body that rewrites its own particle ends, and has
  -- updated every live particle of the listed frames once, and nothing else, whatever the schedule,
  -- the grid that matches it, and the order of slots and blocks.
  pub launch_for_each-IsUpdated :
      (idx : FrameIndex)
      → IsExact (lists b) b.size idx
      → is_fresh b idx ≡ true
      → Outcome (
          launch_for_each idx_map cfg
            (occupied is_valid f)
            slot_order
            order
            b
            idx
            (rewrite_particle is_valid f)
            memory)
  unfolding launch_for_each launch_for_each_frame_in_block_indexed
  launch_for_each-IsUpdated idx exact fresh = elim (Bool-cases (idx.total_frames == 0)) [
    | inl none_left ↦
        rw (fresh, none_left)
          (memory, refl, nothing (sym exact.total ∙ (==_iff idx.total_frames 0).0 none_left))
    | inr some_left ↦
        rw (fresh, some_left, exact.has_ptrs)
          (launched idx exact some_left, refl, launched-IsUpdated idx exact some_left)
  ]

  -- A launch that builds its own index ends too, over a valid buffer with fewer than 2^31 frames of
  -- lists that do not share any, and has updated every live particle of the listed frames once, and
  -- nothing else, whatever the schedule, the grid that matches it, and the order of slots and
  -- blocks.
  pub launch_for_each_once-IsUpdated :
      (dev : Device)
      → IsValid b
      → Covers b.size dev.count_order
      → Covers b.size dev.fill_order
      → Outcome (
          launch_for_each_once dev idx_map cfg
            (occupied is_valid f)
            slot_order
            order
            b
            (rewrite_particle is_valid f)
            memory)
  unfolding launch_for_each_once prefix_sum empty
  launch_for_each_once-IsUpdated dev valid counts fills = elim (Bool-cases (b.size == 0)) [
    | inl empty ↦
        rw empty (memory, refl, nothing (ap (start (lists b)) ((==_iff b.size 0).0 empty) ∙ refl))
    | inr regions ↦
        let (idx, built, exact, now, _) =
          rebuild-IsExact dev b empty valid tt (omega (arith, small), omega arith, inl refl) counts
            fills in
        rw (regions, built) (launch_for_each-IsUpdated idx exact now)
  ]
