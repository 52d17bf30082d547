-- ===== src/RegionBounds/Tests.antt =====
-- Two regions on a line, two threads; and the theorems there.
use Prim.Native.Nat.{min}
use spearhed.Base.{
  ℕ, ◌+◌, ◌-◌, ◌*◌, ◌<◌, ◌≤◌, ◌≡◌, refl, arith, Box, ltb, ◌==◌, Bool, some, List, [], ◌∷◌,
  if◌then◌else◌, upwards,
}
use spearhed.BoundingBox.{Scalar, Aabb}
use spearhed.BoundingBox.Extend.{IsTotal}
use spearhed.RegionBuffer.{Region, Storage, RegionBuffer}
use spearhed.RegionBounds.{Run, threads_per_block, max_blocks, num_blocks}
use spearhed.RegionBounds.Hull.{IsBounded, IsFair}
use spearhed.RegionBounds.Update.{num_blocks-bounds}

-- Numbers above 100 count as 100.
abbrev pub clamped : Scalar ℕ
clamped = record {
  below = λ a b. ltb (min a 100) (min b 100);
  plus = λ a b. a + b;
  minus = λ a b. min a 100 - b;
  times = λ a b. a * b;
  zero_scalar = 0;
  one_scalar = 1;
  highest = 100;
  lowest = 0;
  dim = 1;
}

pub total : IsTotal clamped
total = record {
  at_most_trans = λ a b c x y. ground arith;
  at_most_of_below = λ a b h. ground arith;
  at_most_refl = λ a. ground arith;
}

pub bounded : IsBounded clamped
bounded = record { at_most_highest = λ a. ground arith; at_least_lowest = λ a. ground arith }

-- A particle is its position; nothing is at 0.
abbrev pub alive : ℕ → Bool
alive p = ltb 0 p

abbrev pub at : ℕ → Box ℕ
at p tag = p

-- Frame 5 holds 7 and 3, frame 6 holds 9.
abbrev pub memory : Box (Box ℕ)
memory frame slot = if frame == 5 then (if slot == 0 then 7 else 3) else if slot == 0 then 9 else 0

abbrev pub run : Run ℕ
run = record {
  num_workers = 2;
  thread_order = 1 ∷ 0 ∷ [];
  slots = λ t. if t == 0 then 0 ∷ [] else if t == 1 then 1 ∷ [] else [];
  block_order = λ grid. upwards grid 0;
  shared = λ block t. record { origin = λ tag. 8; min = λ tag. 8; max = λ tag. 8 };
}

pub fair : IsFair clamped total 2 alive at memory run
fair = record {
  exponent = 1;
  power_of_two = refl;
  room = omega arith;
  threads_covered = λ b lt. ground arith;
  threads_once = (refl, (refl, tt));
  slots_below = λ t slot h. ground arith;
  slots_covered = λ slot lt. (slot, lt, ground arith);
}

abbrev pub region : List ℕ → Region (Aabb ℕ)
region frames = record {
  frames = frames;
  num_particles = 3;
  volume = record { origin = λ tag. 4; min = λ tag. 4; max = λ tag. 4 };
}

abbrev pub storage : Storage (Region (Aabb ℕ))
storage = record {
  host = λ r. region [];
  slots = λ r. if r == 0 then region (5 ∷ 6 ∷ []) else region [];
  capacity = 4;
}

abbrev pub buffer : RegionBuffer (Region (Aabb ℕ))
buffer = record { buffer = some storage; size = 2; topology_version = 3; address = 7 }

num_blocks-bounds_example :
    (0 < num_blocks 600)
    × (num_blocks 600 ≤ max_blocks)
    × (0 < 600 → num_blocks 600 * threads_per_block < 600 + threads_per_block)
    × (num_blocks 600 < max_blocks → 600 ≤ num_blocks 600 * threads_per_block)
num_blocks-bounds_example = num_blocks-bounds 600 (omega arith)

three_blocks : num_blocks 600 ≡ 3
unfolding num_blocks
three_blocks = refl
