-- ===== src/FrameIndex/Rebuild.antt =====
-- A rebuilt index describes the frame lists exactly.
use Prim.Native.Nat.{max}
use native.Mathlib.Decide.{dec_lt}
use spearhed.Base.{
  ℕ, ◌≤◌, ◌<◌, ◌≡◌, refl, ◌∙◌, inl, inr, arith, Box, Option, none, some, List, [], Covers,
  Option-cases, lt→ltb, le→ltb, Bool-cases, leb, ltb, if◌then◌else◌, i31, true, prefix_sum,
  prefix_sum_congr, suc,
}
use spearhed.FrameDispatch.{inclusive_scan_host}
use spearhed.FrameDispatch.Scan.{inclusive_scan_host-prefix_sum}
use spearhed.RegionBuffer.{Region, Storage, RegionBuffer, IsValid, get_device_data_box}
use spearhed.FrameIndex.{
  FrameIndex, Device, ◌>>=◌, ensure_region_capacity, ensure_frame_capacity, frames_of, count, fill,
  rebuild,
}
use spearhed.FrameIndex.Fill.{
  sizes, start, start-apart, Filled, IsScan, count_frames-length, build_frame_index-Filled,
}
use spearhed.FrameIndex.{new_capacity, is_fresh}
use spearhed.FrameIndex.Capacity.{Modest, new_capacity_fits}

-- The two per-frame buffers are allocated together.
abbrev pub IsPaired : Option (Box ℕ) → Option (Box ℕ) → Type 0
IsPaired none owners = Unit {0}
IsPaired (some ptrs) none = ⊥
IsPaired (some ptrs) (some owners) = Unit {0}

-- The index holds, region by region, the frames of the lists and their owners, with the scan
-- beside them, and all of it within its capacity.
pub record IsExact (frames : Box (List ℕ)) (n : ℕ) (idx : FrameIndex) : Type 0 where
  pub ptrs : Box ℕ
  pub owners : Box ℕ
  pub scan : Box ℕ
  pub has_ptrs : idx.frame_ptrs ≡ some ptrs
  pub has_owners : idx.region_idx_per_frame ≡ some owners
  pub has_scan : idx.frames_per_region ≡ some scan
  pub filled : (r : ℕ) → r < n → Filled frames r (ptrs, owners)
  pub scanned : IsScan frames n scan
  pub total : idx.total_frames ≡ start frames n
  pub fits : idx.total_frames ≤ idx.frame_capacity

-- The counts that the scan is given.
abbrev Counted : Box (List ℕ) → ℕ → Option (Box ℕ) → Type 0
Counted frames n r =
    (counts : Box ℕ) × (r ≡ some counts) × ((i : ℕ) → i < n → counts i ≡ sizes frames i)

module _ {V : Type 0} where
  -- The frame lists of the regions that are stored.
  abbrev pub stored : Option (Storage (Region V)) → Box (List ℕ)
  stored none = λ r. []
  stored (some s) = frames_of s.slots

  abbrev pub lists : RegionBuffer (Region V) → Box (List ℕ)
  lists b = stored b.buffer

  device_box :
      (b : RegionBuffer (Region V))
      → IsValid b
      → 0 < b.size
      → (s : Storage (Region V)) × (b.buffer ≡ some s)
  device_box b v h = elim (Option-cases b.buffer) [
    | inl e ↦ absurd (omega (arith, rw e at v.fits))
    | inr found ↦ found
  ]

  count-Counted :
      (dev : Device) (b : RegionBuffer (Region V)) (counts : Box ℕ)
      → IsValid b
      → Covers b.size dev.count_order
      → Counted (lists b) b.size (count dev b counts)
  unfolding count get_device_data_box
  count-Counted dev b counts v covers = elim (dec_lt 0 b.size) [
    | yes pos ↦
        let (s, e) = device_box b v pos in
        rw (lt→ltb 0 b.size pos, e, get_device_data_box)
          (
            _,
            refl,
            λ i lt.
                count_frames-length (frames_of s.slots) b.size i dev.count_order counts covers lt,
          )
    | no none_there ↦ rw (le→ltb 0 b.size (omega arith)) (_, refl, λ i lt. absurd (omega arith))
  ]

  fill-Filled :
      (dev : Device) (b : RegionBuffer (Region V)) (scan : Box ℕ) (boxes : Box ℕ × Box ℕ)
      → IsValid b
      → Covers b.size dev.fill_order
      → IsScan (lists b) b.size scan
      → (out : Box ℕ × Box ℕ) × (fill dev b (start (lists b) b.size) scan boxes ≡ some out)
        × ((r : ℕ) → r < b.size → Filled (lists b) r out)
  unfolding fill get_device_data_box
  fill-Filled dev b scan boxes v covers s = elim (dec_lt 0 b.size) [
    | no none_there ↦ rw (le→ltb 0 b.size (omega arith)) (boxes, refl, λ r lt. absurd (omega arith))
    | yes pos ↦ elim (dec_lt 0 (start (lists b) b.size)) [
      | no no_frames ↦
          rw (le→ltb 0 (start (lists b) b.size) (omega arith), lt→ltb 0 b.size pos)
            (boxes, refl, λ r lt i h. absurd (omega (arith, start-apart (lists b) r b.size lt)))
      | yes some_frames ↦
          let (store, e) = device_box b v pos in
          rw (lt→ltb 0 b.size pos, lt→ltb 0 (start (lists b) b.size) some_frames)
            (rw (e, get_device_data_box)
              (
                _,
                refl,
                build_frame_index-Filled (frames_of store.slots) b.size scan (rw e at s)
                    dev.fill_order boxes covers,
              ))
    ]
  ]

-- The state between the scan and the fill: room for every frame.
record Grown (idx : FrameIndex) (needed : ℕ) (r : Option FrameIndex) : Type 0 where
  grown : FrameIndex
  returned : r ≡ some grown
  ptrs : Box ℕ
  owners : Box ℕ
  has_ptrs : grown.frame_ptrs ≡ some ptrs
  has_owners : grown.region_idx_per_frame ≡ some owners
  same_scan : grown.frames_per_region ≡ idx.frames_per_region
  same_total : grown.total_frames ≡ idx.total_frames
  room : needed ≤ grown.frame_capacity
  an_int : grown.frame_capacity < i31

ensure-Grown :
    (dev : Device) (idx : FrameIndex) (needed : ℕ)
    → 0 < needed
    → Modest idx.frame_capacity needed
    → IsPaired idx.frame_ptrs idx.region_idx_per_frame
    → Grown idx needed (ensure_frame_capacity dev needed idx)
unfolding ensure_frame_capacity
ensure-Grown dev idx needed positive small paired = elim (Option-cases idx.frame_ptrs) [
  | inl e ↦ simp (e, ensure_frame_capacity) allocated
  | inr (ptrs, e) ↦
      simp (e, ensure_frame_capacity)
        (elim (Bool-cases (leb needed idx.frame_capacity)) [
          | inr short ↦ rw short allocated
          | inl fits ↦ rw fits (elim (Option-cases idx.region_idx_per_frame) [
            | inl e' ↦ absurd (rw (e, e') at paired)
            | inr (owners, e') ↦ record {
              grown = idx;
              returned = refl;
              ptrs = ptrs;
              owners = owners;
              has_ptrs = e;
              has_owners = e';
              same_scan = refl;
              same_total = refl;
              room = ground arith;
              an_int = small.1;
            }
          ])
        ])
]
  where
    chosen : (c : ℕ) × (new_capacity idx.frame_capacity needed ≡ some c) × (needed ≤ c) × (c < i31)
    chosen = new_capacity_fits idx.frame_capacity needed positive small

    allocated : Grown idx needed (
        new_capacity idx.frame_capacity needed >>= λ capacity.
        (if ltb capacity i31
          then some (record idx {
            frame_capacity = capacity;
            frame_ptrs = some dev.fresh_ptrs;
            region_idx_per_frame = some dev.fresh_owners;
          })
          else none))
    allocated =
        rw (chosen.1, lt→ltb chosen.0 i31 chosen.3)
          (record {
            grown = record idx {
              frame_capacity = chosen.0;
              frame_ptrs = some dev.fresh_ptrs;
              region_idx_per_frame = some dev.fresh_owners;
            };
            returned = refl;
            ptrs = dev.fresh_ptrs;
            owners = dev.fresh_owners;
            has_ptrs = refl;
            has_owners = refl;
            same_scan = refl;
            same_total = refl;
            room = chosen.2;
            an_int = chosen.3;
          })

ensure_region-has_scan :
    (fresh : Box ℕ) (needed : ℕ) (idx : FrameIndex)
    → (counts : Box ℕ) × ((ensure_region_capacity fresh needed idx).frames_per_region ≡ some counts)
      × ((ensure_region_capacity fresh needed idx).frame_ptrs ≡ idx.frame_ptrs)
      × ((ensure_region_capacity fresh needed idx).region_idx_per_frame ≡ idx.region_idx_per_frame)
      × ((ensure_region_capacity fresh needed idx).frame_capacity ≡ idx.frame_capacity)
unfolding ensure_region_capacity
ensure_region-has_scan fresh needed idx = elim (Option-cases idx.frames_per_region) [
  | inl e ↦ rw (e, ensure_region_capacity) (fresh, refl, refl, refl, refl)
  | inr (counts, e) ↦
      rw (e, ensure_region_capacity)
        (elim (Bool-cases (leb needed idx.region_capacity)) [
          | inl fits ↦ rw fits (counts, e, refl, refl, refl)
          | inr short ↦ rw short (fresh, refl, refl, refl, refl)
        ])
]

-- The scan of the counts: the first slot behind every region, and the number of frames.
inclusive_scan_host-IsScan :
    (frames : Box (List ℕ)) (n : ℕ) (counts : Box ℕ)
    → ((i : ℕ) → i < n → counts i ≡ sizes frames i)
    → start frames n < i31
    → IsScan frames n (inclusive_scan_host counts n).0
      × ((inclusive_scan_host counts n).1 ≡ start frames n)
inclusive_scan_host-IsScan frames n counts right small = (
  λ r lt.
      scanned.0 r lt
      ∙ prefix_sum_congr counts (sizes frames) (suc r) (λ i h. right i (omega arith)),
  scanned.2 ∙ total,
)
  where
    total : prefix_sum counts n ≡ start frames n
    total = prefix_sum_congr counts (sizes frames) n right

    scanned :
        ((j : ℕ) → j < n → (inclusive_scan_host counts n).0 j ≡ prefix_sum counts (suc j))
        × ((j : ℕ) → n ≤ j → (inclusive_scan_host counts n).0 j ≡ counts j)
        × ((inclusive_scan_host counts n).1 ≡ prefix_sum counts n)
    scanned = inclusive_scan_host-prefix_sum counts n (omega (arith, total))

-- A rebuild of an index over a valid buffer ends, and leaves the index exact for the frame lists
-- that the device then holds, tagged with that buffer and its version, with a capacity below 2^31.
-- The per-frame buffers are allocated together, the old capacity is below 2^31, and there are fewer
-- than 2^31 frames if it is zero, and at most 2^30 otherwise. The blocks of the two kernels may run
-- in any order, each region's among them.
pub rebuild-IsExact :
    {V : Type 0} (dev : Device) (b : RegionBuffer (Region V)) (idx : FrameIndex)
    → IsValid b
    → IsPaired idx.frame_ptrs idx.region_idx_per_frame
    → Modest idx.frame_capacity (max (start (lists b) b.size) 1)
    → Covers b.size dev.count_order
    → Covers b.size dev.fill_order
    → (built : FrameIndex) × (rebuild dev b idx ≡ some built)
      × IsExact (lists b) b.size built
      × (is_fresh b built ≡ true)
      × (built.frame_capacity < i31)
unfolding rebuild is_fresh
rebuild-IsExact dev b idx v paired small counts_run fill_run =
    let (zeroed, has_zeroed, same_ptrs, same_owners, same_capacity) =
      ensure_region-has_scan dev.fresh_counts (max b.size 1) idx in
    let (counts, counted, right) = count-Counted dev b zeroed v counts_run in
    let (scanned, total) =
      inclusive_scan_host-IsScan (lists b) b.size counts right (omega (arith, small.0)) in
    let scan : Box ℕ = (inclusive_scan_host counts b.size).0 in
    let sized : FrameIndex = ensure_region_capacity dev.fresh_counts (max b.size 1) idx in
    let totalled : FrameIndex = record sized {
      frames_per_region = some scan;
      total_frames = start (lists b) b.size;
    } in
    let g =
      ensure-Grown dev totalled (max (start (lists b) b.size) 1) (omega arith)
        (rw same_capacity small) (rw (same_ptrs, same_owners) paired) in
    let (out, filled, right_slots) = fill-Filled dev b scan (g.ptrs, g.owners) v fill_run scanned in
    rw (has_zeroed) (
      rw (counted) (
        rw total (
          rw g.returned (
            rw (g.has_ptrs) (
              rw (g.has_owners) (
                rw filled (
                  _,
                  refl,
                  record {
                    ptrs = out.0;
                    owners = out.1;
                    scan = scan;
                    has_ptrs = refl;
                    has_owners = refl;
                    has_scan = g.same_scan;
                    filled = right_slots;
                    scanned = scanned;
                    total = g.same_total;
                    fits = omega (arith, g.same_total, g.room);
                  },
                  ground arith,
                  g.an_int,
                )))))))
