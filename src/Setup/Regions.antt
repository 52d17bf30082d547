-- ===== src/Setup/Regions.antt =====
-- The buffer that the setup's blocks fill with regions.
use spearhed.Base.{ℕ, ◌+◌, ◌%◌, ◌<◌, ◌≡◌, Box, update, some, List, length, get_or, u64}
use spearhed.RegionBuffer.{Region, Storage, RegionBuffer, touch}
use spearhed.Setup.{particle_region}

module _ {V : Type 0} where
  -- The buffer holds the listed regions behind the `first`, and was changed so many times more.
  pub record IsFilled (side : Storage (Region V) → Box (Region V)) (first capacity changes : ℕ)
      (volumes : List V) (old : Box (Region V)) (b : RegionBuffer (Region V)) : Type 0 where
    pub storage : Storage (Region V)
    pub has_storage : b.buffer ≡ some storage
    pub room : storage.capacity ≡ capacity
    pub number : b.size ≡ first + length volumes
    pub version : b.topology_version ≡ (changes + length volumes) % u64
    pub below : (i : ℕ) → i < first → side storage i ≡ old i
    pub stored :
        (i : ℕ) (v : V)
        → i < length volumes
        → side storage (first + i) ≡ particle_region (get_or volumes i v)

  -- The buffer with one more region.
  pushed : V → RegionBuffer (Region V) → Storage (Region V) → RegionBuffer (Region V)
  pushed volume b s = touch (record b {
    buffer = some (record s { host = update s.host b.size (particle_region volume) });
    size = b.size + 1;
  })
