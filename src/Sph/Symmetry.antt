-- ===== src/Sph/Symmetry.antt =====
-- What the two functors promise the interaction, and a pair of particles each other.
use spearhed.Base.{ℕ, ◌≡◌, refl, sym, ap, ◌∙◌, Box, true, false}
use spearhed.Interaction.{PairContext}
use spearhed.Interaction.Grid.{IsSeparate}
use spearhed.Sph.{
  Arithmetic, Particle, Derivatives, p_over_rho2_of, pair_factor, accumulate_density,
  hydro_interaction,
}

module _ {A V : Type 0} (ar : Arithmetic A) (origin : V → Box A) where
  -- The attributes that the density pass and the pass of the hydrodynamic forces accumulate can be
  -- set and read back, and neither pass reads, prepares or stages one of them.
  pub functors-IsSeparate :
      (gamma : A)
      → IsSeparate (accumulate_density ar origin) × IsSeparate (hydro_interaction ar origin gamma)
  functors-IsSeparate gamma = (
    record {
      seen_flush = λ p a. refl;
      own_reads_flush = λ p a. refl;
      own_accumulate_flush = λ p a. refl;
      flush_own_accumulate = λ p. refl;
      flush_flush = λ p a b. refl;
    },
    record {
      seen_flush = λ p a. refl;
      own_reads_flush = λ p a. refl;
      own_accumulate_flush = λ p a. refl;
      flush_own_accumulate = λ p. refl;
      flush_flush = λ p a b. refl;
    },
  )

  -- The laws of exact arithmetic that the symmetry of a pair needs.
  pub record IsExact : Type 0 where
    pub plus_comm : (a b : A) → ar.plus a b ≡ ar.plus b a
    pub times_comm : (a b : A) → ar.times a b ≡ ar.times b a
    pub times_assoc : (a b c : A) → ar.times (ar.times a b) c ≡ ar.times a (ar.times b c)
    pub times_plus : (a b c : A) → ar.times a (ar.plus b c) ≡ ar.plus (ar.times a b) (ar.times a c)

  module _ (exact : IsExact) where
    swap : (a b c : A) → ar.times a (ar.times b c) ≡ ar.times b (ar.times a c)
    swap a b c =
        sym (exact.times_assoc a b c)
        ∙ ap (λ t. ar.times t c) (exact.times_comm a b)
        ∙ exact.times_assoc b a c

    one_term :
        (m_i m_j p s : A)
        → ar.times m_i (ar.times (ar.times m_j p) s) ≡ ar.times m_j (ar.times (ar.times m_i p) s)
    one_term m_i m_j p s =
        ap (ar.times m_i) (exact.times_assoc m_j p s)
        ∙ swap m_i m_j (ar.times p s)
        ∙ ap (ar.times m_j) (sym (exact.times_assoc m_i p s))

    pair_factor-symmetric :
        (r inv_r h_i h_j p_i p_j m_i m_j : A)
        → ar.times m_i (pair_factor ar r inv_r h_i h_j p_i p_j m_j)
          ≡ ar.times m_j (pair_factor ar r inv_r h_j h_i p_j p_i m_i)
    unfolding pair_factor
    pair_factor-symmetric r inv_r h_i h_j p_i p_j m_i m_j =
        let s_i = ar.grad_w_scalar r inv_r h_i in
        let s_j = ar.grad_w_scalar r inv_r h_j in
        exact.times_plus m_i (ar.times (ar.times m_j p_i) s_i) (ar.times (ar.times m_j p_j) s_j)
        ∙ ap (λ t. ar.plus t (ar.times m_i (ar.times (ar.times m_j p_j) s_j)))
            (one_term m_i m_j p_i s_i)
        ∙ ap (ar.plus (ar.times m_j (ar.times (ar.times m_i p_i) s_i))) (one_term m_i m_j p_j s_j)
        ∙ exact.plus_comm _ _
        ∙ sym (
            exact.times_plus m_j (ar.times (ar.times m_i p_j) s_j)
              (ar.times (ar.times m_i p_i) s_i))

    -- What the force pass adds for `own` when it meets `other`.
    abbrev pub met : A → Particle A → Particle A → PairContext A → Derivatives A → Derivatives A
    met gamma own other ctx acc =
        let fn = hydro_interaction ar origin gamma in
        fn.call (fn.own_reads own) (fn.prepare (fn.own_reads own)) (fn.stage other) ctx acc

    -- In exact arithmetic the two meetings of a pair balance: each particle loses a multiple of the
    -- displacement on every axis, the same on all, and the multiples times the own masses are
    -- equal, when both meetings see the same distance. The self pair changes nothing.
    pub hydro_interaction-balanced :
        (gamma : A) (i j : Particle A) (ctx ctx' : PairContext A) (acc acc' : Derivatives A)
        → ctx.is_self ≡ false
        → ctx'.is_self ≡ false
        → ctx'.r ≡ ctx.r
        → ctx'.inv_r ≡ ctx.inv_r
        → (x y : A) × ((tag : ℕ)
            → (met gamma i j ctx acc).acc_dvdt tag
              ≡ ar.minus (acc.acc_dvdt tag) (ar.times x (ctx.r_vec tag)))
          × ((tag : ℕ)
              → (met gamma j i ctx' acc').acc_dvdt tag
                ≡ ar.minus (acc'.acc_dvdt tag) (ar.times y (ctx'.r_vec tag)))
          × (ar.times i.mass x ≡ ar.times j.mass y)
          × (met gamma i j (record ctx { is_self = true }) acc ≡ acc)
    hydro_interaction-balanced gamma i j ctx ctx' acc acc' apart apart' same same' =
        let p_i = p_over_rho2_of ar gamma i.density i.internal_energy in
        let p_j = p_over_rho2_of ar gamma j.density j.internal_energy in
        let symmetric =
          pair_factor-symmetric ctx.r ctx.inv_r i.smoothing_length j.smoothing_length p_i p_j i.mass
            j.mass in
        (
          pair_factor ar ctx.r ctx.inv_r i.smoothing_length j.smoothing_length p_i p_j j.mass,
          pair_factor ar ctx.r ctx.inv_r j.smoothing_length i.smoothing_length p_j p_i i.mass,
          λ tag. simp apart refl,
          λ tag. simp (apart', same, same') refl,
          symmetric,
          refl,
        )
