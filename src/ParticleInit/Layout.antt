-- ===== src/ParticleInit/Layout.antt =====
-- The frames of a region share its particles out: no index is lost, none is doubled.
use native.Mathlib.Decide.{ℕ_discrete}
use native.Mathlib.Nat.{div-add-mod', div-eq_of_lt-le, mod-lt, div-lt_iff_lt-mul}
use spearhed.Base.{
  ℕ, zero, suc, ◌+◌, ◌-◌, ◌*◌, ◌/◌, ◌%◌, ◌≤◌, ◌<◌, ◌≡◌, ◌↔◌, arith, ◌==◌, true, false,
}
use spearhed.ParticleInit.{IsDivCeil, particles_in_frame, get_size_last_frame}

module _ (frame_size : ℕ) {div_ceil : ℕ → ℕ → ℕ} (ceil : IsDivCeil div_ceil)
    (positive : 0 < frame_size) where
  mul_step : (a b : ℕ) → suc a ≤ b → a * frame_size + frame_size ≤ b * frame_size
  mul_step a b h = grind arith

  -- The last frame of a region ends with the region's last particle.
  last_frame_end :
      (n local : ℕ)
      → suc local ≡ div_ceil n frame_size
      → local * frame_size + get_size_last_frame frame_size n ≡ n
  unfolding get_size_last_frame
  last_frame_end zero local e =
      absurd (omega (arith, rw (← e) at (ceil.tight 0 frame_size positive)))
  last_frame_end (suc n) local e =
      let enough : suc n ≤ suc local * frame_size =
        rw (← e) at (ceil.enough (suc n) frame_size positive) in
      let tight : suc local * frame_size < suc n + frame_size =
        rw (← e) at (ceil.tight (suc n) frame_size positive) in
      let whole : n / frame_size ≡ local = div-eq_of_lt-le frame_size (omega arith) (omega arith) in
      let split : local * frame_size + n % frame_size ≡ n =
        rw whole at (div-add-mod' n frame_size) in
      ground arith

  -- A slot of one of the region's frames is filled exactly if its particle index lies below the
  -- region's number of particles.
  pub live_slot_iff :
      (n local idx : ℕ)
      → local < div_ceil n frame_size
      → idx < frame_size
      → (idx < particles_in_frame frame_size n (div_ceil n frame_size) local)
        ↔ (local * frame_size + idx < n)
  unfolding particles_in_frame
  live_slot_iff n local idx lt small = elim (ℕ_discrete (suc local) (div_ceil n frame_size)) [
    | yes last ↦
        let ends = last_frame_end n local last in
        let test : (local == div_ceil n frame_size - 1) ≡ true = ground arith in
        rw test ((λ h. omega (arith, ends)), (λ h. omega (arith, ends)))
    | no inner ↦
        let test : (local == div_ceil n frame_size - 1) ≡ false = ground arith in
        let full = mul_step (suc local) (div_ceil n frame_size) (omega arith) in
        let tight = ceil.tight n frame_size positive in
        rw test ((λ h. omega (arith, full, tight)), (λ h. small))
  ]

  -- Every particle index of a region has a frame of the region and a live slot in it.
  pub particle_has_slot :
      (n j : ℕ)
      → j < n
      → (j / frame_size < div_ceil n frame_size)
        × (j % frame_size < frame_size)
        × (j / frame_size * frame_size + j % frame_size ≡ j)
  particle_has_slot n j lt = (
    (div-lt_iff_lt-mul positive).1 (omega (arith, ceil.enough n frame_size positive)),
    mod-lt j positive,
    div-add-mod' j frame_size,
  )
