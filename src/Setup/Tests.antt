-- ===== src/Setup/Tests.antt =====
-- Two blocks that fill one species, and one that does not.
use spearhed.Base.{
  ℕ, ◌+◌, ◌*◌, Box, ◌==◌, Bool, true, false, none, some, List, [], ◌∷◌, if◌then◌else◌, upwards,
}
use spearhed.ParticleInit.{Created}
use spearhed.ParticleInit.Tests.{div_ceil}
use spearhed.RegionBuffer.{Region, Storage, RegionBuffer}
use spearhed.Setup.{SetupBlock, Run, particle_region}
use spearhed.Setup.Filled.{Filled}

-- A volume is its number; a region gets as many particles as its volume says.
abbrev block : Bool → List ℕ → SetupBlock ℕ ℕ
block targets volumes = record {
  block_targets = targets;
  volumes = volumes;
  num_particles_to_create = λ region. region.volume;
  place_particle = λ region j. region.volume * 100 + j;
}

abbrev blocks : List (SetupBlock ℕ ℕ)
blocks = block true (5 ∷ 0 ∷ []) ∷ block false (9 ∷ []) ∷ block true (3 ∷ []) ∷ []

abbrev new_buffer : RegionBuffer (Region ℕ)
new_buffer = record { buffer = none; size = 0; topology_version = 0; address = 7 }

abbrev fresh : Box (Region ℕ)
fresh i = particle_region 77

abbrev run : Run ℕ
run = record {
  frame_size = 2;
  div_ceil = div_ceil;
  junk = λ i. record { multi_mask = 6; particle_id = 6; particle = 6 };
  allocates = λ begin b. true;
  fresh_counts = λ i. 66;
  slot_order = 1 ∷ 0 ∷ [];
  count_order = λ n. upwards n 0;
  init_order = λ n. upwards n 0;
}

abbrev storage : Storage (Region ℕ)
storage = record {
  host = λ i. particle_region 0;
  slots = λ i. particle_region (if i == 0 then 5 else if i == 1 then 0 else 3);
  capacity = 3;
}

abbrev buffer : RegionBuffer (Region ℕ)
buffer = record { buffer = some storage; size = 3; topology_version = 4; address = 7 }

abbrev created : Created ℕ
created = record { frames = λ r. []; next_id = 40 }
