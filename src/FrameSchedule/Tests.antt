-- ===== src/FrameSchedule/Tests.antt =====
-- A launch over two regions with three frames of two slots, by two blocks in strides.
use native.Mathlib.Decide.{ℕ_discrete}
use spearhed.Base.{
  lt→ltb, le→ltb, prefix_sum, ◌∙◌, ℕ, zero, suc, ◌+◌, ◌%◌, ◌<◌, ◌≡◌, ◌≢◌, refl, ap, sym, ◌*◌,
  length, upwards-has, upwards-Distinct, arith, Box, ltb, ◌==◌, ◌&&◌, Bool, some, List, [], ◌∷◌,
  if◌then◌else◌, has, upwards, get_or, Covers, Distinct, Bool-cases, inl, inr, ==_self, ne→==,
}
use spearhed.RegionBuffer.{Region, RegionBuffer}
use spearhed.FrameDispatch.{fixed_grid}
use spearhed.FrameIndex.{Device}
use spearhed.FrameIndex.Rebuild.{lists}
use spearhed.FrameSchedule.{IdxMap, ForEachConfig, grid_stride, launch_for_each_once}
use spearhed.FrameSchedule.Update.{SharesOut, occupied, rewrite_particle}
use spearhed.FrameSchedule.Launch.{Apart, IsRun, IsUpdated, launch_for_each_once-IsUpdated}

share : ℕ → ℕ → ℕ → List ℕ
share block grid zero = []
share block grid (suc n) = if n % grid == block then n ∷ share block grid n else share block grid n

ltb-suc : (g n : ℕ) → g ≢ n → ltb g n ≡ ltb g (suc n)
ltb-suc g n ne = ground arith

has-share : (block grid n g : ℕ) → has g (share block grid n) ≡ (ltb g n && (g % grid == block))
unfolding share
has-share block grid zero g = ground arith
has-share block grid (suc n) g = elim (Bool-cases (n % grid == block)) [
  | inl t ↦ elim (ℕ_discrete g n) [
    | yes e ↦ rw (e, t, ==_self n, lt→ltb n (suc n) (omega arith)) refl
    | no ne ↦
        rw (t, ne→== g n ne)
          (has-share block grid n g ∙ ap (λ x. x && (g % grid == block)) (ltb-suc g n ne))
  ]
  | inr t ↦ elim (ℕ_discrete g n) [
    | yes e ↦
        rw (e, t)
          (has-share block grid n n
            ∙ rw (t, le→ltb n n (omega arith), lt→ltb n (suc n) (omega arith)) refl)
    | no ne ↦ rw t (has-share block grid n g ∙ ap (λ x. x && (g % grid == block)) (ltb-suc g n ne))
  ]
]

share-Distinct : (block grid n : ℕ) → Distinct (share block grid n)
unfolding share
share-Distinct block grid zero = tt
share-Distinct block grid (suc n) = elim (Bool-cases (n % grid == block)) [
  | inl e ↦ rw e (rw (has-share block grid n n) (ground arith), share-Distinct block grid n)
  | inr e ↦ rw e (share-Distinct block grid n)
]

pub strided_map : IdxMap
strided_map layout total grid block = share block grid total

pub strided_map-SharesOut : SharesOut strided_map
unfolding strided_map
strided_map-SharesOut = record {
  shares = λ layout total grid lt. record {
    in_range = λ b g h. ground (arith, has-share b grid total g);
    no_repeats = λ b. share-Distinct b grid total;
    owner = λ g _. g % grid;
    owner_lt = λ g _. omega arith;
    owned = λ g g_lt.
        has-share (g % grid) grid total g ∙ rw (lt→ltb g total g_lt, ==_self (g % grid)) refl;
    only_owner = λ g g_lt c ne.
        has-share c grid total g ∙ rw (lt→ltb g total g_lt, ne→== (g % grid) c ne) refl;
  };
}

abbrev region : List ℕ → Region ℕ
region frames = record { frames = frames; num_particles = 0; volume = 0 }

abbrev two_regions : RegionBuffer (Region ℕ)
two_regions = record {
  buffer = some (record {
    host = λ r. region [];
    slots = λ r. if r == 0 then region (11 ∷ 12 ∷ []) else region (13 ∷ []);
    capacity = 2;
  });
  size = 2;
  topology_version = 3;
  address = 7;
}

abbrev device : Device
device = record {
  fresh_ptrs = λ _. 99;
  fresh_owners = λ _. 99;
  fresh_counts = λ _. 99;
  count_order = 1 ∷ 0 ∷ [];
  fill_order = 1 ∷ 0 ∷ [];
}

abbrev two_blocks : ForEachConfig
two_blocks = record { schedule = grid_stride; grid = fixed_grid 2 }

-- An even number is dead.
abbrev odd : ℕ → Bool
odd p = p % 2 == 1

memory : Box (Box ℕ)
memory frame slot = frame + slot

upwards-IsRun : IsRun 2 strided_map two_blocks (1 ∷ 0 ∷ []) (λ grid. upwards grid 0)
upwards-IsRun = record {
  shares_out = strided_map-SharesOut;
  matches = omega arith;
  slots_once = (refl, (refl, tt));
  slots_covered = λ b lt. ground arith;
  blocks_once = λ grid. upwards-Distinct grid 0;
  blocks_covered = λ grid b lt. upwards-has grid 0 b ∙ ground arith;
}

covers : Covers 2 (1 ∷ 0 ∷ [])
covers b lt = ground arith

number :
    (r i : ℕ)
    → r < 2
    → i < length (lists two_regions r)
    → (get_or (lists two_regions r) i 0 ≡ 11 + (i + r * 2)) × (i + r < 2)
number zero zero lt i_lt = (refl, omega arith)
number zero (suc zero) lt i_lt = (refl, omega arith)
number zero (suc (suc i)) lt i_lt = absurd (omega arith)
number (suc zero) zero lt i_lt = (refl, omega arith)
number (suc zero) (suc i) lt i_lt = absurd (omega arith)
number (suc (suc r)) i lt i_lt = absurd (omega arith)

two_regions-Apart : Apart (lists two_regions) 2
two_regions-Apart r s i j r_lt s_lt i_lt j_lt e =
    let (at, small) = number r i r_lt i_lt in
    let (at', small') = number s j s_lt j_lt in
    let same : 11 + (i + r * 2) ≡ 11 + (j + s * 2) = sym at ∙ e ∙ at' in (omega arith, omega arith)

launch_for_each_once-IsUpdated_example :
    (out : Box (Box ℕ)) × (launch_for_each_once device strided_map two_blocks
        (occupied odd suc)
        (1 ∷ 0 ∷ [])
        (λ grid. upwards grid 0)
        two_regions
        (rewrite_particle odd suc)
        memory
      ≡ some out)
    × IsUpdated odd suc 2 (lists two_regions) 2 memory out
launch_for_each_once-IsUpdated_example =
    launch_for_each_once-IsUpdated odd suc 2 strided_map two_blocks (1 ∷ 0 ∷ [])
      (λ grid. upwards grid 0) upwards-IsRun two_regions memory (unfold prefix_sum in omega arith)
      two_regions-Apart device (record { fits = omega arith }) covers covers
