-- ===== src/FrameIndex/History.antt =====
-- A buffer and an index of it, under any sequence of changes and refreshes. The launcher's
-- assertion and the refresh both trust the version counter; here that trust is shown to be sound.
use mathlib.Core.Path.{subst}
use spearhed.Base.{
  sym, ◌∙◌, List, eq_of_some, ℕ, zero, suc, ◌+◌, ◌*◌, ◌%◌, ◌≤◌, ◌<◌, ◌≡◌, refl, inl, inr, arith,
  Box, u64, i31, true, false, none, some, Covers, Bool-cases,
}
use spearhed.RegionBuffer.{
  Region, Storage, RegionBuffer, IsValid, touch, create, push_back, push_back-IsValid,
  host_to_device, synchronize, host_to_device-stored, synchronize-stored,
}
use spearhed.FrameIndex.{FrameIndex, Device, empty, is_fresh, refresh_if_stale}
use spearhed.FrameIndex.Fill.{start}
use spearhed.FrameIndex.Rebuild.{IsPaired, IsExact, stored, lists, rebuild-IsExact}

pub record System (V : Type 0) : Type 0 where
  pub buffer : RegionBuffer (Region V)
  pub index : FrameIndex

exact-IsPaired :
    (frames : Box (List ℕ)) (n : ℕ) (idx : FrameIndex)
    → IsExact frames n idx
    → IsPaired idx.frame_ptrs idx.region_idx_per_frame
exact-IsPaired frames n idx x = rw (x.has_ptrs, x.has_owners) tt

module _ {V : Type 0} where
  -- `create`, `pushBack`, a transfer to the device before the next refresh and one from it, a
  -- kernel that changes the frame lists and the host's `++topologyVersion` behind it, and a
  -- refresh.
  pub data Step (s t : System V) : Type 0 where
    creates :
        (fresh : Box (Region V)) (capacity : ℕ)
        → t ≡ record s { buffer = create fresh capacity s.buffer }
        → Step s t
    pushes :
        (region : Region V) (b : RegionBuffer (Region V))
        → push_back region s.buffer ≡ some b
        → t ≡ record s { buffer = b }
        → Step s t
    uploads :
        (b : RegionBuffer (Region V))
        → is_fresh s.buffer s.index ≡ false
        → host_to_device s.buffer ≡ some b
        → t ≡ record s { buffer = b }
        → Step s t
    downloads :
        (b : RegionBuffer (Region V))
        → synchronize s.buffer ≡ some b
        → t ≡ record s { buffer = b }
        → Step s t
    mutates :
        (store : Storage (Region V)) (slots : Box (Region V))
        → s.buffer.buffer ≡ some store
        → t ≡ record s {
          buffer = touch (record (s.buffer) { buffer = some (record store { slots = slots }) });
        }
        → Step s t
    refreshes :
        (dev : Device) (idx : FrameIndex)
        → Covers s.buffer.size dev.count_order
        → Covers s.buffer.size dev.fill_order
        → 2 * start (lists s.buffer) s.buffer.size ≤ i31
        → refresh_if_stale dev s.buffer s.index ≡ some idx
        → t ≡ record s { index = idx }
        → Step s t

  pub data Reach (s : System V) : System V → ℕ → Type 0 where
    here : Reach s s zero
    next : {t u : System V} {n : ℕ} → Reach s t n → Step t u → Reach s u (suc n)

  unfoldable pub initial : ℕ → System V
  initial address = record {
    buffer = record { buffer = none; size = 0; topology_version = 0; address = address };
    index = empty;
  }

  pub record Inv (s : System V) (n : ℕ) : Type 0 where
    pub valid : IsValid s.buffer
    pub paired : IsPaired s.index.frame_ptrs s.index.region_idx_per_frame
    pub counted : s.buffer.topology_version ≤ n
    pub an_int : s.index.frame_capacity < i31
    pub behind : s.index.built_version ≤ s.buffer.topology_version
    pub exact : is_fresh s.buffer s.index ≡ true → IsExact (lists s.buffer) s.buffer.size s.index

  initial-Inv : (address : ℕ) → Inv (initial address) 0
  unfolding initial empty is_fresh
  initial-Inv address = record {
    valid = record { fits = omega arith };
    paired = tt;
    counted = omega arith;
    an_int = omega arith;
    behind = omega arith;
    exact = λ e. cc;
  }

  -- A buffer whose version is ahead of the index's is not taken for fresh.
  changed-Inv :
      (s : System V) (n : ℕ) (b : RegionBuffer (Region V))
      → Inv s n
      → suc n < u64
      → IsValid b
      → b.topology_version ≡ (s.buffer.topology_version + 1) % u64
      → Inv (record s { buffer = b }) (suc n)
  unfolding is_fresh
  changed-Inv s n b inv small v e = record {
    valid = v;
    paired = inv.paired;
    counted = omega (arith, inv.counted);
    an_int = inv.an_int;
    behind = omega (arith, inv.counted, inv.behind);
    exact = λ f. absurd (ground (arith, inv.counted, inv.behind));
  }

  -- A refresh leaves an exact index.
  refresh-IsExact :
      (dev : Device) (s : System V) (n : ℕ) (idx : FrameIndex)
      → Inv s n
      → Covers s.buffer.size dev.count_order
      → Covers s.buffer.size dev.fill_order
      → 2 * start (lists s.buffer) s.buffer.size ≤ i31
      → refresh_if_stale dev s.buffer s.index ≡ some idx
      → IsExact (lists s.buffer) s.buffer.size idx
        × (is_fresh s.buffer idx ≡ true)
        × (idx.frame_capacity < i31)
  unfolding refresh_if_stale
  refresh-IsExact dev s n idx inv counts_run fill_run small e =
      elim (Bool-cases (is_fresh s.buffer s.index)) [
        | inl fresh ↦
            let same : s.index ≡ idx = eq_of_some (rw fresh at e) in
            rw (← same) (inv.exact fresh, fresh, inv.an_int)
        | inr stale ↦
            let (built, e', exact, now, an_int) =
              rebuild-IsExact dev s.buffer s.index inv.valid inv.paired
                (omega (arith, small), inv.an_int, inr (omega (arith, small))) counts_run
                fill_run in
            let same : built ≡ idx = eq_of_some (sym e' ∙ (rw stale at e)) in
            rw (← same) (exact, now, an_int)
      ]

  fresh-version :
      (b : RegionBuffer (Region V)) (idx : FrameIndex)
      → is_fresh b idx ≡ true
      → idx.built_version ≡ b.topology_version
  unfolding is_fresh
  fresh-version b idx e = ground arith

  -- Every step keeps the invariant, until the 64-bit counter would wrap.
  Step-Inv : {s t : System V} (n : ℕ) → suc n < u64 → Step s t → Inv s n → Inv t (suc n)
  unfolding create touch push_back is_fresh
  Step-Inv {s} n small (creates fresh capacity e) inv =
      rw e (changed-Inv s n _ inv small (record { fits = omega arith }) refl)
  Step-Inv {s} n small (pushes region b e e') inv =
      let (v, later) = push_back-IsValid region s.buffer b inv.valid e in
      rw e' (changed-Inv s n b inv small v later)
  Step-Inv {s} n small (uploads b stale sent e) inv =
      let (store, has, is) = host_to_device-stored s.buffer b sent in
      rw (e, is)
        (record {
          valid = record { fits = rw has at (inv.valid.fits) };
          paired = inv.paired;
          counted = omega (arith, inv.counted);
          an_int = inv.an_int;
          behind = inv.behind;
          exact = λ fresh. absurd (cc (sym fresh ∙ stale));
        })
  Step-Inv {s} n small (downloads b got e) inv =
      let (store, has, is) = synchronize-stored s.buffer b got in
      rw (e, is)
        (record {
          valid = record { fits = rw has at (inv.valid.fits) };
          paired = inv.paired;
          counted = omega (arith, inv.counted);
          an_int = inv.an_int;
          behind = inv.behind;
          exact =
              λ fresh. subst (λ o. IsExact (stored o) s.buffer.size s.index) has (inv.exact fresh);
        })
  Step-Inv {s} n small (mutates store slots e e') inv =
      rw e' (changed-Inv s n _ inv small (record { fits = rw e at (inv.valid.fits) }) refl)
  Step-Inv {s} n small (refreshes dev idx c f fits r e) inv =
      let (exact, now, an_int) = refresh-IsExact dev s n idx inv c f fits r in
      rw e (record {
        valid = inv.valid;
        paired = exact-IsPaired _ _ idx exact;
        counted = omega (arith, inv.counted);
        an_int = an_int;
        behind = omega (arith, fresh-version s.buffer idx now);
        exact = λ _. exact;
      })

  Reach-Inv : {s t : System V} {n : ℕ} → Reach s t n → n < u64 → Inv s 0 → Inv t n
  Reach-Inv here small inv = inv
  Reach-Inv (next {n = k} r step) small inv = Step-Inv k small step (Reach-Inv r (omega arith) inv)

-- From a new buffer and a new index, after fewer than 2^64 creations, stored regions, kernels that
-- change the lists, transfers and refreshes in any order, but no transfer to the device while the
-- index is fresh, and with at most 2^30 frames at a refresh: an index that the launcher's assertion
-- takes for fresh holds exactly the frames of the lists on the device at that time.
pub fresh-IsExact :
    {V : Type 0} (address : ℕ) (s : System V) (n : ℕ)
    → Reach (initial address) s n
    → n < u64
    → is_fresh s.buffer s.index ≡ true
    → IsExact (lists s.buffer) s.buffer.size s.index
fresh-IsExact address s n r small = (Reach-Inv r small (initial-Inv address)).exact
