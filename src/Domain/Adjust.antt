-- ===== src/Domain/Adjust.antt =====
-- What an adjustment leaves, or refuses.
use native.Mathlib.Decide.{ℕ_discrete}
use spearhed.Base.{
  ℕ, zero, suc, ◌+◌, ◌/◌, ◌%◌, u32, ◌<◌, ◌≤◌, ◌≡◌, ◌≢◌, ◌⊎◌, refl, sym, ap, ◌∙◌, arith, inl, inr,
  update, ◌==◌, true, List, Bool-cases, ==_self, ne→==,
}
use spearhed.Domain.{
  Rank, Adjuster, Sizes, Adjusted, adjusted, invalid_global_grid_size, all_zero, sum_local_sizes,
  sum_below, ranks_per_slice, valid_global_grid_size, derive_global_domain_size,
  update_local_domain_offset, adjust_from, adjust,
}

module _ (a : Adjuster) (world : List Rank) where
  -- The offset that a dimension is given.
  abbrev pub offset : ℕ → ℕ
  offset dim = (sum_below dim (a.position dim) world 0 / ranks_per_slice a world dim) % u32

  -- The sizes after the dimensions from `low` to `high`.
  pub record IsAdjusted (low high : ℕ) (before after : Sizes) : Type 0 where
    pub global_size :
        (d : ℕ) → low ≤ d → d < high → after.global_domain_size d ≡ valid_global_grid_size a world d
    pub local_offset : (d : ℕ) → low ≤ d → d < high → after.local_domain_offset d ≡ offset d
    pub local_size : (d : ℕ) → after.local_domain_size d ≡ before.local_domain_size d
    pub below :
        (d : ℕ)
        → d < low
        → (after.global_domain_size d ≡ before.global_domain_size d)
          × (after.local_domain_offset d ≡ before.local_domain_offset d)

  -- A dimension whose size is wrong where that is an error.
  abbrev pub Refused : ℕ → Sizes → Type 0
  Refused d s =
      (all_zero a.sim_dim a.mpi_position ≡ true)
      × (a.validate_only ≡ true)
      × (s.global_domain_size d ≢ valid_global_grid_size a world d)

  abbrev pub Outcome : ℕ → ℕ → Sizes → Adjusted → Type 0
  Outcome low high s r =
      ((out : Sizes) × (r ≡ adjusted out)
        × IsAdjusted low high s out
        × ((d : ℕ) → low ≤ d → d < high → Refused d s → ⊥))
      ⊎ ((d : ℕ) × (low ≤ d)
          × (d < high)
          × Refused d s
          × ((e : ℕ) → low ≤ e → e < d → Refused e s → ⊥)
          × (r
              ≡ invalid_global_grid_size d (s.global_domain_size d)
                  (valid_global_grid_size a world d)))

  derived : ℕ → Sizes → Sizes
  derived d s = record s {
    global_domain_size = update s.global_domain_size d (valid_global_grid_size a world d);
  }

  derive-cases :
      (d : ℕ) (s : Sizes)
      → (Refused d s
          × (derive_global_domain_size a world d s
              ≡ invalid_global_grid_size d
                  (s.global_domain_size d)
                  (valid_global_grid_size a world d)))
        ⊎ ((Refused d s → ⊥) × (derive_global_domain_size a world d s ≡ adjusted (derived d s)))
  unfolding derive_global_domain_size derived valid_global_grid_size sum_local_sizes ranks_per_slice
  derive-cases d s =
      let valid = valid_global_grid_size a world d in
      elim (Bool-cases (all_zero a.sim_dim a.mpi_position)) [
        | inr other ↦ inr ((λ r. cc), rw other refl)
        | inl master ↦ elim (Bool-cases a.validate_only) [
          | inr adjusts ↦ inr (
            (λ r. cc),
            elim (Bool-cases (valid == s.global_domain_size d)) [
              | inl e ↦ rw (master, adjusts, e) refl
              | inr e ↦ rw (master, adjusts, e) refl
            ],
          )
          | inl validates ↦ elim (ℕ_discrete valid (s.global_domain_size d)) [
            | yes e ↦ inr (
              (λ r. r.2 (sym e)),
              rw (master, validates, e, ==_self (s.global_domain_size d)) refl,
            )
            | no ne ↦ inl (
              (master, validates, λ e. ne (sym e)),
              rw (master, validates, ne→== valid (s.global_domain_size d) ne) refl,
            )
          ]
        ]
      ]

  next : ℕ → Sizes → Sizes
  unfolding derived update_local_domain_offset
  next low s = update_local_domain_offset a world low (derived low s)

  next-own :
      (low : ℕ) (s : Sizes)
      → ((next low s).global_domain_size low ≡ valid_global_grid_size a world low)
        × ((next low s).local_domain_offset low ≡ offset low)
  unfolding next
  next-own low s = (rw (==_self low) refl, rw (==_self low) refl)

  next-other :
      (low d : ℕ) (s : Sizes)
      → d ≢ low
      → ((next low s).global_domain_size d ≡ s.global_domain_size d)
        × ((next low s).local_domain_offset d ≡ s.local_domain_offset d)
  unfolding next
  next-other low d s ne = (rw (ne→== d low ne) refl, rw (ne→== d low ne) refl)

  next-local_size :
      (low d : ℕ) (s : Sizes) → (next low s).local_domain_size d ≡ s.local_domain_size d
  unfolding next
  next-local_size low d s = refl

  next-Refused :
      (low d : ℕ) (s : Sizes)
      → d ≢ low
      → (Refused d s → Refused d (next low s)) × (Refused d (next low s) → Refused d s)
  next-Refused low d s ne =
      let same = (next-other low d s ne).0 in
      (λ r. (r.0, r.1, λ e. r.2 (sym same ∙ e)), λ r. (r.0, r.1, λ e. r.2 (same ∙ e)))

  adjust_from-Outcome :
      (rounds low : ℕ) (s : Sizes) → Outcome low (low + rounds) s (adjust_from a world rounds low s)
  unfolding adjust_from update_local_domain_offset next
  adjust_from-Outcome zero low s = inl (
    s,
    refl,
    record {
      global_size = λ d le lt. absurd (omega arith);
      local_offset = λ d le lt. absurd (omega arith);
      local_size = λ d. refl;
      below = λ d lt. (refl, refl);
    },
    λ d le lt. absurd (omega arith),
  )
  adjust_from-Outcome (suc rounds) low s = elim (derive-cases low s) [
    | inl (refused, e) ↦ inr (
      low,
      omega arith,
      omega arith,
      refused,
      λ d le lt. absurd (omega arith),
      rw (e, adjust_from) refl,
    )
    | inr (accepted, e) ↦
        rw (e, adjust_from) (later accepted (adjust_from-Outcome rounds (suc low) (next low s)))
  ]
    where
      later :
          (Refused low s → ⊥)
          → Outcome
              (suc low)
              (suc low + rounds)
              (next low s)
              (adjust_from a world rounds (suc low) (next low s))
          → Outcome low (low + suc rounds) s (adjust_from a world rounds (suc low) (next low s))
      later accepted (inl (out, e, adj, ok)) = inl (
        out,
        e,
        record {
          global_size = λ d le lt. elim (ℕ_discrete d low) [
            | yes here ↦ rw here ((adj.below low (omega arith)).0 ∙ (next-own low s).0)
            | no ne ↦ adj.global_size d (omega arith) (omega arith)
          ];
          local_offset = λ d le lt. elim (ℕ_discrete d low) [
            | yes here ↦ rw here ((adj.below low (omega arith)).1 ∙ (next-own low s).1)
            | no ne ↦ adj.local_offset d (omega arith) (omega arith)
          ];
          local_size = λ d. adj.local_size d ∙ next-local_size low d s;
          below = λ d lt.
              let same = next-other low d s (λ e. omega arith) in
              let kept = adj.below d (omega arith) in (kept.0 ∙ same.0, kept.1 ∙ same.1);
        },
        λ d le lt r. elim (ℕ_discrete d low) [
          | yes here ↦ accepted (rw here at r)
          | no ne ↦ ok d (omega arith) (omega arith) ((next-Refused low d s ne).0 r)
        ],
      )
      later accepted (inr (d, le, lt, r, first, e)) =
          let apart : d ≢ low = λ same. omega arith in
          inr (
            d,
            omega arith,
            omega arith,
            (next-Refused low d s apart).1 r,
            λ f f_le f_lt r'. elim (ℕ_discrete f low) [
              | yes here ↦ accepted (rw here at r')
              | no ne ↦ first f (omega arith) f_lt ((next-Refused low f s ne).0 r')
            ],
            e
                ∙ ap (λ g. invalid_global_grid_size d g (valid_global_grid_size a world d))
                    (next-other low d s apart).0,
          )

  -- An adjustment either gives the sizes, with every dimension's global size and local offset set
  -- from the ranks' local sizes and the local sizes as they were, and no dimension is refused; or
  -- it is the error for the first dimension that is. A dimension is refused exactly if the adjuster
  -- is the master's, only validates, and the global size is not the one from the ranks.
  pub adjust-Outcome : (s : Sizes) → Outcome 0 a.sim_dim s (adjust a world s)
  unfolding adjust
  adjust-Outcome s =
      let e : 0 + a.sim_dim ≡ a.sim_dim = omega arith in rw e at (adjust_from-Outcome a.sim_dim 0 s)
