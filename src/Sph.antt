-- ===== src/Sph.antt =====
-- include/spearhed/particles/density/DensitySummation.hpp, sph/HydroForces.hpp and
-- particles/pusher/EulerIntegrate.hpp, PushVelocity.hpp: the particles' updates and the functors of
-- the pair interaction. The scalars, the smoothing kernel and the equation of state are a
-- parameter.
pub mod Symmetry
pub mod Stages
pub mod Tests
use spearhed.Base.{ℕ, zero, suc, Box, Bool, if◌then◌else◌}
use spearhed.Interaction.{Functor}

pub record Arithmetic (A : Type 0) : Type 0 where
  pub plus : A → A → A
  pub minus : A → A → A
  pub times : A → A → A
  pub divide : A → A → A
  pub below : A → A → Bool
  pub rsqrt : A → A
  pub nought : A
  pub sentinel : A
  pub dim : ℕ
  pub frame_size : ℕ
  pub w : A → A → A
  pub grad_w_scalar : A → A → A → A
  pub pressure : A → A → A → A

-- The fluid's record of attributes.
pub record Particle (A : Type 0) : Type 0 where
  pub id : ℕ
  pub multi_mask : Bool
  pub relative_pos : Box A
  pub vel : Box A
  pub mass : A
  pub smoothing_length : A
  pub density : A
  pub internal_energy : A
  pub dvdt : Box A
  pub dudt : A

-- HydroInteraction's own record, its staged record and its accumulators.
pub record HydroReads (A : Type 0) : Type 0 where
  pub own_smoothing_length : A
  pub own_density : A
  pub own_internal_energy : A
  pub own_vel : Box A

pub record Staged (A : Type 0) : Type 0 where
  pub p_over_rho2 : A
  pub staged_mass : A
  pub staged_smoothing_length : A
  pub staged_vel : Box A

pub record Derivatives (A : Type 0) : Type 0 where
  pub acc_dvdt : Box A
  pub acc_dudt : A

module _ {A : Type 0} (ar : Arithmetic A) where
  -- DensityInitSelf
  unfoldable pub density_init_self : Particle A → Particle A
  density_init_self p = record p { density = ar.times p.mass (ar.w ar.nought p.smoothing_length) }

  -- ZeroDerivatives
  unfoldable pub zero_derivatives : Particle A → Particle A
  zero_derivatives p = record p { dvdt = λ tag. ar.nought; dudt = ar.nought }

  -- EulerIntegrate
  pub euler_integrate : A → Particle A → Particle A
  euler_integrate delt p = record p {
    vel = λ tag. ar.plus (p.vel tag) (ar.times (p.dvdt tag) delt);
    internal_energy = ar.plus p.internal_energy (ar.times p.dudt delt);
  }

  -- PushVelocity
  pub push_velocity : A → Particle A → Particle A
  push_velocity delt p = record p {
    relative_pos = λ tag. ar.plus (p.relative_pos tag) (ar.times (p.vel tag) delt);
  }

  -- `dot_v_rVec`, over the first axes
  unfoldable pub dot : ℕ → Box A → Box A → Box A → A
  dot zero own other r_vec = ar.nought
  dot (suc n) own other r_vec =
      ar.plus (dot n own other r_vec) (ar.times (ar.minus (own n) (other n)) (r_vec n))

  -- P / rho^2
  unfoldable pub p_over_rho2_of : A → A → A → A
  p_over_rho2_of gamma rho u = ar.divide (ar.pressure gamma rho u) (ar.times rho rho)

  -- What scales the displacement of a pair.
  unfoldable pub pair_factor : A → A → A → A → A → A → A → A
  pair_factor r inv_r h_i h_j own_p_over_rho2 p_over_rho2_j m_j =
      let s_i = ar.grad_w_scalar r inv_r h_i in
      let s_j = ar.grad_w_scalar r inv_r h_j in
      ar.plus (ar.times (ar.times m_j own_p_over_rho2) s_i)
        (ar.times (ar.times m_j p_over_rho2_j) s_j)

  module _ {V : Type 0} (origin : V → Box A) where
    -- AccumulateDensity
    abbrev pub accumulate_density : Functor A V (Particle A) A A Unit A
    accumulate_density = record {
      minus = ar.minus;
      plus = ar.plus;
      times = ar.times;
      below = ar.below;
      rsqrt = ar.rsqrt;
      nought = ar.nought;
      sentinel = ar.sentinel;
      dim = ar.dim;
      frame_size = ar.frame_size;
      origin = origin;
      is_valid = λ p. p.multi_mask;
      relative_pos = λ p. p.relative_pos;
      own_reads = λ p. p.smoothing_length;
      own_accumulate = λ p. p.density;
      flush = λ p rho. record p { density = rho };
      prepare = λ h. tt;
      stage = λ p. p.mass;
      call = λ h prep m_j ctx acc.
          if ctx.is_self then acc else ar.plus acc (ar.times m_j (ar.w ctx.r h));
    }

    -- HydroInteraction
    abbrev pub hydro_interaction :
        A → Functor A V (Particle A) (HydroReads A) (Staged A) A (Derivatives A)
    hydro_interaction gamma = record {
      minus = ar.minus;
      plus = ar.plus;
      times = ar.times;
      below = ar.below;
      rsqrt = ar.rsqrt;
      nought = ar.nought;
      sentinel = ar.sentinel;
      dim = ar.dim;
      frame_size = ar.frame_size;
      origin = origin;
      is_valid = λ p. p.multi_mask;
      relative_pos = λ p. p.relative_pos;
      own_reads = λ p. record {
        own_smoothing_length = p.smoothing_length;
        own_density = p.density;
        own_internal_energy = p.internal_energy;
        own_vel = p.vel;
      };
      own_accumulate = λ p. record { acc_dvdt = p.dvdt; acc_dudt = p.dudt };
      flush = λ p acc. record p { dvdt = acc.acc_dvdt; dudt = acc.acc_dudt };
      prepare = λ own. p_over_rho2_of gamma own.own_density own.own_internal_energy;
      stage = λ p. record {
        p_over_rho2 = p_over_rho2_of gamma p.density p.internal_energy;
        staged_mass = p.mass;
        staged_smoothing_length = p.smoothing_length;
        staged_vel = p.vel;
      };
      call = λ own prep nb ctx acc. if ctx.is_self then acc else record {
        acc_dvdt = λ tag. ar.minus (acc.acc_dvdt tag) (
            ar.times
              (pair_factor ctx.r ctx.inv_r own.own_smoothing_length nb.staged_smoothing_length prep
                nb.p_over_rho2 nb.staged_mass)
              (ctx.r_vec tag));
        acc_dudt = ar.plus acc.acc_dudt (
            ar.times
              (ar.times (ar.times nb.staged_mass prep)
                (ar.grad_w_scalar ctx.r ctx.inv_r own.own_smoothing_length))
              (dot ar.dim own.own_vel nb.staged_vel ctx.r_vec));
      };
    }
