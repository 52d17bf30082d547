-- ===== src/FrameList/Alone.antt =====
-- One thread's insertion as a whole, and the allocation of its node.
use spearhed.Base.{
  ℕ, zero, suc, ◌+◌, ◌≤◌, ◌<◌, ◌≡◌, ◌≢◌, ◌⊎◌, refl, sym, ap, ◌∙◌, inl, inr, arith, Box, update,
  ◌==◌, false, Bool-cases, ==_iff, ne→==,
}
use spearhed.FrameList.{
  attempts, allocate_raw_memory, push_back, Pc, clearing, exchanging, linking, done, State, move,
  clears, exchanges, links, heads,
}
use spearhed.FrameList.Threads.{Reach, here, then_step, update_at}

attempts-first :
    (left i : ℕ) (malloc : Box ℕ)
    → ((attempts left i malloc ≡ 0) × ((k : ℕ) → i ≤ k → k < i + left → malloc k ≡ 0))
      ⊎ ((k : ℕ) × (i ≤ k)
          × (k < i + left)
          × (malloc k ≢ 0)
          × (attempts left i malloc ≡ malloc k)
          × ((j : ℕ) → i ≤ j → j < k → malloc j ≡ 0))
unfolding attempts
attempts-first zero i malloc = inl (refl, λ k le lt. absurd (omega arith))
attempts-first (suc left) i malloc = elim (Bool-cases (malloc i == 0)) [
  | inr got ↦ rw got (
      inr (
        i,
        omega arith,
        omega arith,
        (λ z. cc ((==_iff (malloc i) 0).1 z, got)),
        refl,
        λ j le lt. absurd (omega arith),
      ))
  | inl failed ↦
      let z : malloc i ≡ 0 = (==_iff (malloc i) 0).0 failed in
      rw failed (elim (attempts-first left (suc i) malloc) [
        | inl (none, all) ↦ inl (none, λ k le lt. failing i k z (λ h. all k h (omega arith)) le)
        | inr (k, le, lt, real, e, first) ↦ inr (
          k,
          omega arith,
          omega arith,
          real,
          e,
          λ j le' lt'. failing i j z (λ h. first j h lt') le',
        )
      ])
]
  where
    failing : (a k : ℕ) → malloc a ≡ 0 → (a < k → malloc k ≡ 0) → a ≤ k → malloc k ≡ 0
    failing a k z rest le = elim (Bool-cases (a == k)) [
      | inl same ↦ ap malloc (sym ((==_iff a k).0 same)) ∙ z
      | inr other ↦ rest (ground arith)
    ]

-- The allocation gives the first of at most thirteen attempts that is not null, and null only if
-- all thirteen are.
pub allocate_raw_memory-first :
    (malloc : Box ℕ)
    → ((allocate_raw_memory malloc ≡ 0) × ((k : ℕ) → k < 13 → malloc k ≡ 0))
      ⊎ ((k : ℕ) × (k < 13)
          × (malloc k ≢ 0)
          × (allocate_raw_memory malloc ≡ malloc k)
          × ((j : ℕ) → j < k → malloc j ≡ 0))
unfolding allocate_raw_memory
allocate_raw_memory-first malloc = elim (attempts-first 13 0 malloc) [
  | inl (e, all) ↦ inl (e, λ k lt. all k (omega arith) (omega arith))
  | inr (k, le, lt, real, e, first) ↦
      inr (k, omega arith, real, e, λ j lt'. first j (omega arith) lt')
]

module _ (s : State) (i x : ℕ) where
  abbrev cleared : State
  cleared = record {
    memory = record (s.memory) { next = update s.memory.next x 0 };
    pc = move s.pc i (exchanging x);
  }

  abbrev exchanged : State
  exchanged = record {
    memory = record (cleared.memory) { last = x };
    pc = move cleared.pc i (linking s.memory.last x);
  }

  moved_on : (p q : Pc) → move (move s.pc i p) i q ≡ move s.pc i q
  moved_on p q t j = at j t
    where
      at : (j : ℕ) → move (move s.pc i p) i q j ≡ move s.pc i q j
      at j = ground arith

  -- pushBack with nothing in between is what a thread's accesses do one after another.
  pub push_back-Reach :
      s.pc i ≡ clearing x
      → x ≢ 0
      → Reach s (record { memory = push_back x s.memory; pc = move s.pc i done })
  unfolding push_back
  push_back-Reach e real =
      let node : (x == 0) ≡ false = ne→== x 0 real in
      let both : move exchanged.pc i done ≡ move s.pc i done =
        ap (λ pc. move pc i done) (moved_on (exchanging x) (linking s.memory.last x))
        ∙ moved_on (linking s.memory.last x) done in
      elim (Bool-cases (s.memory.last == 0)) [
        | inl empty ↦
            let z : s.memory.last ≡ 0 = (==_iff s.memory.last 0).0 empty in
            rw (node, empty)
              (then_step after_exchange (
                heads i x (update_at cleared.pc i i _ refl ∙ ap (λ l. linking l x) z) (λ t. record {
                  memory = record { first = x; last = x; next = update s.memory.next x 0 };
                  pc = sym both t;
                })))
        | inr some_last ↦
            rw (node, some_last)
              (then_step after_exchange (
                links i s.memory.last x (update_at cleared.pc i i _ refl)
                  (λ z. cc ((==_iff s.memory.last 0).1 z, some_last))
                  (λ t. record {
                    memory = record {
                      first = s.memory.first;
                      last = x;
                      next = update (update s.memory.next x 0) s.memory.last x;
                    };
                    pc = sym both t;
                  })))
      ]
    where
      after_exchange : Reach s exchanged
      after_exchange =
          then_step (then_step here (clears i x e refl))
            (exchanges i x (update_at s.pc i i _ refl) refl)
