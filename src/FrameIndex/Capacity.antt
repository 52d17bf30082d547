-- ===== src/FrameIndex/Capacity.antt =====
-- The growth of the index's buffers: when the doubling loop ends, and when it does not.
use Prim.Native.Nat.{max}
use spearhed.Base.{
  ℕ, zero, suc, ◌*◌, ◌%◌, ◌≤◌, ◌<◌, ◌≡◌, arith, ltb, u32, i31, false, none, some, ◌==◌, Bool-cases,
  inl, inr, lt→ltb, ltb→lt, ltb→le, le→ltb, ◌⊎◌, refl,
}
use spearhed.FrameIndex.{grow, new_capacity}

abbrev doubled : ℕ → ℕ → ℕ
doubled zero c = c
doubled (suc f) c = doubled f (c * 2)

grow-enough :
    (fuel c needed : ℕ)
    → needed ≤ i31
    → needed ≤ doubled fuel c
    → (c' : ℕ) × (grow fuel c needed ≡ some c') × (needed ≤ c') × (c' ≤ max c (2 * needed))
unfolding grow
grow-enough zero c needed small h = (c, ground arith, h, omega arith)
grow-enough (suc fuel) c needed small h = elim (Bool-cases (ltb c needed)) [
  | inl less ↦
      let below : c < needed = ltb→lt c needed less in
      let same : (c * 2) % u32 ≡ c * 2 = omega arith in
      let (c', e, le, bound) = grow-enough fuel (c * 2) needed small h in
      rw (less, same) (c', e, le, omega arith)
  | inr done ↦ (c, rw done, ltb→le c needed done, omega arith)
]

-- A doubled capacity stays below twice the request.
grow-below :
    (fuel c needed : ℕ)
    → 2 * needed ≤ i31
    → c < i31
    → needed ≤ doubled fuel c
    → (c' : ℕ) × (grow fuel c needed ≡ some c') × (needed ≤ c') × (c' < i31)
unfolding grow
grow-below zero c needed half small h = (c, ground arith, h, small)
grow-below (suc fuel) c needed half small h = elim (Bool-cases (ltb c needed)) [
  | inl less ↦
      let below : c < needed = ltb→lt c needed less in
      let same : (c * 2) % u32 ≡ c * 2 = omega arith in
      let (c', e, le, bound) = grow-below fuel (c * 2) needed half (omega arith) h in
      rw (less, same) (c', e, le, bound)
  | inr done ↦ (c, rw done, ltb→le c needed done, small)
]

-- A request for at most 2^31 frame slots is met: the doubling loop ends, with a capacity that
-- suffices and is no larger than the old one or twice what was asked for.
pub new_capacity_suffices :
    (capacity needed : ℕ)
    → needed ≤ i31
    → (c : ℕ) × (new_capacity capacity needed ≡ some c)
      × (needed ≤ c)
      × (c ≤ max capacity (2 * needed))
unfolding new_capacity
new_capacity_suffices zero needed small =
    let (c, e, le, bound) = grow-enough 32 needed needed small (omega arith) in
    (c, e, le, omega arith)
new_capacity_suffices (suc k) needed small =
    let positive : (suc k == 0) ≡ false = ground arith in
    rw positive (grow-enough 32 (suc k) needed small (omega arith))

-- What fits an `int`: any request from no capacity at all, and otherwise one for at most 2^30
-- slots.
abbrev pub Modest : ℕ → ℕ → Type 0
Modest capacity needed = (needed < i31) × (capacity < i31) × ((capacity ≡ 0) ⊎ (2 * needed ≤ i31))

pub new_capacity_fits :
    (capacity needed : ℕ)
    → 0 < needed
    → Modest capacity needed
    → (c : ℕ) × (new_capacity capacity needed ≡ some c) × (needed ≤ c) × (c < i31)
unfolding new_capacity grow
new_capacity_fits zero needed positive (small, held, way) =
    (needed, rw (le→ltb needed needed (omega arith)) refl, omega arith, small)
new_capacity_fits (suc k) needed positive (small, held, inl none_yet) = absurd (omega arith)
new_capacity_fits (suc k) needed positive (small, held, inr half) =
    let nonzero : (suc k == 0) ≡ false = ground arith in
    rw nonzero (grow-below 32 (suc k) needed half held (omega arith))

grow_from_zero : (fuel needed : ℕ) → 0 < needed → grow fuel 0 needed ≡ none
unfolding grow
grow_from_zero zero needed h = rw (lt→ltb 0 needed h)
grow_from_zero (suc fuel) needed h = rw (lt→ltb 0 needed h) (grow_from_zero fuel needed h)

-- From a capacity of 2^31 slots the loop never ends when more are needed: the doubled 32-bit value
-- is zero, and stays zero, whatever the number of rounds.
pub grow-diverges : (fuel needed : ℕ) → i31 < needed → grow fuel i31 needed ≡ none
unfolding grow
grow-diverges zero needed h = rw (lt→ltb i31 needed h)
grow-diverges (suc fuel) needed h =
    rw (lt→ltb i31 needed h) (grow_from_zero fuel needed (omega arith))
