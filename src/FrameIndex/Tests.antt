-- ===== src/FrameIndex/Tests.antt =====
-- Two regions with two frames and one, indexed; and the theorems at that buffer.
use Prim.Native.Nat.{max}
use spearhed.Base.{
  inl, ℕ, suc, ◌+◌, ◌*◌, ◌≤◌, ◌<◌, ◌≡◌, refl, arith, Box, i31, true, none, some, List, [], ◌∷◌,
  ◌==◌, if◌then◌else◌, Covers, prefix_sum,
}
use spearhed.RegionBuffer.{Region, RegionBuffer, create, touch, push_back, host_to_device}
use spearhed.FrameDispatch.{inclusive_scan_host}
use spearhed.FrameDispatch.Scan.{inclusive_scan_host-prefix_sum}
use spearhed.FrameIndex.{
  FrameIndex, Device, empty, grow, new_capacity, rebuild, refresh_if_stale, is_fresh,
}
use spearhed.FrameIndex.Capacity.{new_capacity_suffices, grow-diverges}
use spearhed.FrameIndex.Rebuild.{IsExact, lists, rebuild-IsExact}
use spearhed.FrameIndex.History.{
  System, Reach, here, next, creates, pushes, uploads, refreshes, initial, fresh-IsExact,
}

abbrev region : List ℕ → Region ℕ
region frames = record { frames = frames; num_particles = 0; volume = 0 }

abbrev two_regions : RegionBuffer (Region ℕ)
two_regions = record {
  buffer = some (record {
    host = λ r. region [];
    slots = λ r. if r == 0 then region (11 ∷ 12 ∷ []) else region (13 ∷ []);
    capacity = 2;
  });
  size = 2;
  topology_version = 3;
  address = 7;
}

-- The blocks run backwards.
abbrev device : Device
device = record {
  fresh_ptrs = λ _. 99;
  fresh_owners = λ _. 99;
  fresh_counts = λ _. 99;
  count_order = 1 ∷ 0 ∷ [];
  fill_order = 1 ∷ 0 ∷ [];
}

covers : Covers 2 (1 ∷ 0 ∷ [])
covers b lt = ground arith

counts : Box ℕ
counts i = if i == 0 then 2 else if i == 1 then 0 else 5

inclusive_scan_host-prefix_sum_example :
    ((j : ℕ) → j < 3 → (inclusive_scan_host counts 3).0 j ≡ prefix_sum counts (suc j))
    × ((j : ℕ) → 3 ≤ j → (inclusive_scan_host counts 3).0 j ≡ counts j)
    × ((inclusive_scan_host counts 3).1 ≡ prefix_sum counts 3)
unfolding counts prefix_sum
inclusive_scan_host-prefix_sum_example = inclusive_scan_host-prefix_sum counts 3 (omega arith)

scanned_total : (inclusive_scan_host counts 3).1 ≡ 7
unfolding counts inclusive_scan_host
scanned_total = refl

new_capacity_suffices_example :
    (c : ℕ) × (new_capacity 3 10 ≡ some c) × (10 ≤ c) × (c ≤ max 3 (2 * 10))
new_capacity_suffices_example = new_capacity_suffices 3 10 (omega arith)

doubled_twice : new_capacity 3 10 ≡ some 12
unfolding new_capacity
doubled_twice = refl

grow-diverges_example : grow 40 i31 (i31 + 1) ≡ none
grow-diverges_example = grow-diverges 40 (i31 + 1) (omega arith)

rebuild-IsExact_example :
    (built : FrameIndex) × (rebuild device two_regions empty ≡ some built)
    × IsExact (lists two_regions) 2 built
    × (is_fresh two_regions built ≡ true)
    × (built.frame_capacity < i31)
unfolding empty prefix_sum
rebuild-IsExact_example =
    rebuild-IsExact device two_regions empty (record { fits = omega arith }) tt
      (omega arith, omega arith, inl refl) covers covers

-- A buffer of one region with one frame, made and indexed step by step.
one_region : RegionBuffer (Region ℕ)
one_region = record {
  buffer = some (record {
    host = λ r. if r == 0 then region (11 ∷ []) else region [];
    slots = λ r. if r == 0 then region (11 ∷ []) else region [];
    capacity = 1;
  });
  size = 1;
  topology_version = 2;
  address = 7;
}

built :
    (idx : FrameIndex) × (rebuild device one_region empty ≡ some idx)
    × IsExact (lists one_region) 1 idx
    × (is_fresh one_region idx ≡ true)
    × (idx.frame_capacity < i31)
unfolding empty prefix_sum one_region
built =
    rebuild-IsExact device one_region empty (record { fits = omega arith }) tt
      (omega arith, omega arith, inl refl) (λ b lt. ground arith) (λ b lt. ground arith)

indexed : System ℕ
indexed = record { buffer = one_region; index = built.0 }

indexed-Reach : Reach (initial 7) indexed 4
unfolding indexed initial empty create touch push_back host_to_device refresh_if_stale is_fresh
    one_region
indexed-Reach =
    next
      (next
        (next (next here (creates (λ _. region []) 1 refl)) (pushes (region (11 ∷ [])) _ refl refl))
        (uploads _ refl refl refl))
      (refreshes device built.0 (λ b lt. ground arith) (λ b lt. ground arith)
        (unfold prefix_sum in omega arith) built.1 refl)

fresh-IsExact_example : IsExact (lists indexed.buffer) indexed.buffer.size indexed.index
unfolding indexed
fresh-IsExact_example = fresh-IsExact 7 indexed 4 indexed-Reach (omega arith) built.3
