-- ===== src/Sph/Tests.antt =====
-- Two particles on a line, in the arithmetic of the natural numbers.
use spearhed.Base.{ℕ, ◌+◌, ◌-◌, ◌*◌, ◌≡◌, refl, arith, Box, ltb, false, true}
use spearhed.Interaction.{PairContext}
use spearhed.Sph.{Arithmetic, Particle, Derivatives}
use spearhed.Sph.Symmetry.{IsExact, met, hydro_interaction-balanced}

abbrev pub naturals : Arithmetic ℕ
naturals = record {
  plus = λ a b. a + b;
  minus = λ a b. a - b;
  times = λ a b. a * b;
  divide = λ a b. a - b;
  below = ltb;
  rsqrt = λ a. a;
  nought = 0;
  sentinel = 1000;
  dim = 1;
  frame_size = 2;
  w = λ r h. h - r;
  grad_w_scalar = λ r inv_r h. h + r;
  pressure = λ gamma rho u. gamma * rho * rho * u;
}

abbrev pub corner : ℕ → Box ℕ
corner v tag = v

naturals-IsExact : IsExact naturals corner
naturals-IsExact = record {
  plus_comm = λ a b. omega arith;
  times_comm = λ a b. grind arith;
  times_assoc = λ a b c. grind arith;
  times_plus = λ a b c. grind arith;
}

abbrev pub left : Particle ℕ
left = record {
  id = 1;
  multi_mask = true;
  relative_pos = λ tag. 1;
  vel = λ tag. 5;
  mass = 2;
  smoothing_length = 3;
  density = 1;
  internal_energy = 2;
  dvdt = λ tag. 0;
  dudt = 0;
}

abbrev pub right : Particle ℕ
right = record left {
  id = 2;
  relative_pos = λ tag. 2;
  vel = λ tag. 4;
  mass = 3;
  internal_energy = 4;
}

abbrev apart : PairContext ℕ
apart = record { r_vec = λ tag. 1; r2 = 1; r = 1; inv_r = 1; is_self = false }

abbrev full : Derivatives ℕ
full = record { acc_dvdt = λ tag. 1000; acc_dudt = 7 }

-- The left particle loses what its pair factor times the displacement is, and gains energy.
met_run : (met naturals corner naturals-IsExact 5 left right apart full).acc_dvdt 0 ≡ 664
unfolding spearhed.Sph.pair_factor spearhed.Sph.p_over_rho2_of
met_run = refl

hydro_interaction-balanced_example :
    (x y : ℕ) × ((tag : ℕ)
      → (met naturals corner naturals-IsExact 5 left right apart full).acc_dvdt tag ≡ 1000 - x * 1)
    × ((tag : ℕ)
        → (met naturals corner naturals-IsExact 5 right left apart full).acc_dvdt tag
          ≡ 1000 - y * 1)
    × (2 * x ≡ 3 * y)
    × (met naturals corner naturals-IsExact 5 left right (record apart { is_self = true }) full
        ≡ full)
hydro_interaction-balanced_example =
    hydro_interaction-balanced naturals corner naturals-IsExact 5 left right apart apart full full
      refl refl refl refl
