-- ===== src/RegionBuffer.antt =====
-- packages/pmacc/include/spmacc/particles/regions/ParticleRegionBuffer.hpp: the buffer that owns
-- the regions of one species, and the counter of the changes to its frame lists.
use spearhed.Base.{
  ℕ, ◌+◌, ◌%◌, ◌≤◌, Box, update, u64, ltb, Option, none, some, List, if◌then◌else◌, Option-cases,
  Bool-cases, inl, inr, ◌≡◌, refl, sym, eq_of_some, arith,
}

-- The region record of the kernels: the addresses that an iteration over its frame list visits,
-- the particle count of the list, and the bounding volume.
pub record Region (V : Type 0) : Type 0 where
  pub frames : List ℕ
  pub num_particles : ℕ
  pub volume : V

-- The slots of a HostDeviceBuffer, on the host and on the device, and their number.
pub record Storage (R : Type 0) : Type 0 where
  pub host : Box R
  pub slots : Box R
  pub capacity : ℕ

pub record RegionBuffer (R : Type 0) : Type 0 where
  pub buffer : Option (Storage R)
  pub size : ℕ
  pub topology_version : ℕ
  -- the identity of the object, which an index compares
  pub address : ℕ

module _ {R : Type 0} where
  -- `++topologyVersion`, which a host that launches a kernel that adds or frees frames performs
  -- too.
  unfoldable pub touch : RegionBuffer R → RegionBuffer R
  touch b = record b { topology_version = (b.topology_version + 1) % u64 }

  -- `fresh` is what the new buffer holds, on either side.
  unfoldable pub create : Box R → ℕ → RegionBuffer R → RegionBuffer R
  unfolding touch
  create fresh capacity b = touch (record b {
    buffer = some (record { host = fresh; slots = fresh; capacity = capacity });
    size = 0;
  })

  -- The host's side only. `none` where the optional is empty or the assertion fails.
  unfoldable pub push_back : R → RegionBuffer R → Option (RegionBuffer R)
  unfolding touch
  push_back region b = elim b.buffer [
    | none ↦ none
    | some s ↦
        if ltb b.size s.capacity
        then some (
            touch (record b {
              buffer = some (record s { host = update s.host b.size region });
              size = b.size + 1;
            }))
        else none
  ]

  -- `buffer->hostToDevice()`; `none` where the optional is empty.
  unfoldable pub host_to_device : RegionBuffer R → Option (RegionBuffer R)
  host_to_device b = elim b.buffer [
    | none ↦ none
    | some s ↦ some (record b { buffer = some (record s { slots = s.host }) })
  ]

  -- synchronize
  unfoldable pub synchronize : RegionBuffer R → Option (RegionBuffer R)
  synchronize b = elim b.buffer [
    | none ↦ none
    | some s ↦ some (record b { buffer = some (record s { host = s.slots }) })
  ]

  -- The device box; `none` where the optional is empty.
  unfoldable pub get_device_data_box : RegionBuffer R → Option (Box R)
  get_device_data_box b = elim b.buffer [ none ↦ none | some s ↦ some s.slots ]

  -- The regions that are stored fit the buffer; without a buffer there are none.
  abbrev pub Fits : Option (Storage R) → ℕ → Type 0
  Fits none size = size ≤ 0
  Fits (some s) size = size ≤ s.capacity

  pub record IsValid (b : RegionBuffer R) : Type 0 where
    pub fits : Fits b.buffer b.size

  -- A region that is stored keeps the buffer valid, and counts as a change.
  pub push_back-IsValid :
      (region : R) (b b' : RegionBuffer R)
      → IsValid b
      → push_back region b ≡ some b'
      → IsValid b' × (b'.topology_version ≡ (b.topology_version + 1) % u64)
  unfolding push_back
  push_back-IsValid region b b' v e = elim (Option-cases b.buffer) [
    | inl n ↦ absurd (cc (rw (n, push_back) at e))
    | inr (s, h) ↦ elim (Bool-cases (ltb b.size s.capacity)) [
      | inr full ↦ absurd (cc (rw full at (rw (h, push_back) at e)))
      | inl room ↦
          rw (← eq_of_some (rw room at (rw (h, push_back) at e)))
            (record { fits = ground arith }, refl)
    ]
  ]

  -- What a transfer leaves: the one side is as the other.
  pub host_to_device-stored :
      (b b' : RegionBuffer R)
      → host_to_device b ≡ some b'
      → (s : Storage R) × (b.buffer ≡ some s)
        × (b' ≡ record b { buffer = some (record s { slots = s.host }) })
  unfolding host_to_device
  host_to_device-stored b b' e = elim (Option-cases b.buffer) [
    | inl n ↦ absurd (cc (rw (n, host_to_device) at e))
    | inr (s, h) ↦ (s, h, sym (eq_of_some (rw (h, host_to_device) at e)))
  ]

  pub synchronize-stored :
      (b b' : RegionBuffer R)
      → synchronize b ≡ some b'
      → (s : Storage R) × (b.buffer ≡ some s)
        × (b' ≡ record b { buffer = some (record s { host = s.slots }) })
  unfolding synchronize
  synchronize-stored b b' e = elim (Option-cases b.buffer) [
    | inl n ↦ absurd (cc (rw (n, synchronize) at e))
    | inr (s, h) ↦ (s, h, sym (eq_of_some (rw (h, synchronize) at e)))
  ]
