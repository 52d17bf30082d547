-- ===== src/Interaction/Tests.antt =====
-- Particles on a line that add up the masses around them: two frames of two slots, met twice.
use spearhed.Base.{
  ℕ, ◌+◌, ◌-◌, ◌*◌, ◌≡◌, refl, Box, ltb, ◌==◌, Bool, true, false, List, [], ◌∷◌, if◌then◌else◌,
}
use spearhed.RegionBuffer.{Region}
use spearhed.Interaction.{Functor, SourceView, Launch, squares}
use spearhed.Interaction.Grid.{gathered}

record Particle : Type 0 where
  live : Bool
  position : ℕ
  mass : ℕ
  density : ℕ

abbrev distance : ℕ → ℕ → ℕ
distance a b = (a - b) + (b - a)

abbrev summation : Functor ℕ ℕ Particle Unit ℕ Unit ℕ
summation = record {
  minus = distance;
  plus = λ a b. a + b;
  times = λ a b. a * b;
  below = ltb;
  rsqrt = λ a. a;
  nought = 0;
  sentinel = 1000;
  dim = 1;
  frame_size = 2;
  origin = λ v tag. 0;
  is_valid = λ p. p.live;
  relative_pos = λ p tag. p.position;
  own_reads = λ p. tt;
  own_accumulate = λ p. p.density;
  flush = λ p d. record p { density = d };
  prepare = λ r. tt;
  stage = λ p. p.mass;
  call = λ r q mass ctx density. density + mass;
}

abbrev particle : Bool → ℕ → Particle
particle live at = record { live = live; position = at; mass = 3; density = 0 }

-- Frame 5 holds particles at 1 and 2, frame 6 one at 4 and a dead slot.
abbrev memory : Box (Box Particle)
memory f i =
    if f == 5 then particle true (i + 1) else if i == 0 then particle true 4 else particle false 4

abbrev line : Box (Region ℕ)
line r = record { frames = 5 ∷ 6 ∷ []; num_particles = 3; volume = 0 }

abbrev source : SourceView ℕ
source = record { regions = line; neighbour_regions = λ n. 0; region_offsets = λ r. r }

abbrev launched : Launch summation
launched = record {
  target = line;
  frame_ptrs = λ b. b + 5;
  region_idx = λ b. 0;
  total_frames = 2;
  slot_order = 1 ∷ 0 ∷ [];
  junk = (
    λ i. record { valid = true; rel = λ tag. 9; reads = tt; acc = 9; prep = tt },
    record { pos_cache = λ i tag. 9; nb_cache = λ i. 9 },
  );
  radius2 = 9;
}

-- The blocks run backwards.
abbrev backwards : List ℕ
backwards = 1 ∷ 0 ∷ []

-- The particle at 2 has all three masses within 3, itself too; each source adds them.
all_near : (gathered summation launched (source ∷ source ∷ []) memory 0 1).density ≡ 18
unfolding squares
all_near = refl
