-- ===== src/FrameList/Threads.antt =====
-- Interleaved insertions: the invariant of the threads that are under way.
use native.Mathlib.Decide.{ℕ_discrete, dec_lt}
use spearhed.Base.{
  ℕ, zero, suc, ◌≤◌, ◌<◌, ◌≡◌, ◌≢◌, ◌⊎◌, refl, sym, ap, ◌∙◌, inl, inr, arith, Box, update, ltb,
  if◌then◌else◌, ==_self, ne→==,
}
use spearhed.FrameList.{Memory, clearing, exchanging, linking, done, State, Step}

pub update_at : {A : Type 0} (b : Box A) (i j : ℕ) (v : A) → j ≡ i → update b i v j ≡ v
update_at b i j v e = rw (e, ==_self i) refl

pub update_off : {A : Type 0} (b : Box A) (i j : ℕ) (v : A) → j ≢ i → update b i v j ≡ b j
update_off b i j v ne = rw (ne→== j i ne) refl

-- What is zero stays zero where a zero is written.
pub update_zero : (b : Box ℕ) (i j : ℕ) → b j ≡ 0 → update b i 0 j ≡ 0
update_zero b i j e = ground arith

-- What the threads insert: thread `i` below `threads` has the node `node i`.
pub record IsJob (threads : ℕ) (node : Box ℕ) : Type 0 where
  pub not_null : (i : ℕ) → i < threads → node i ≢ 0
  pub distinct : (i j : ℕ) → i < threads → j < threads → node i ≡ node j → i ≡ j

abbrev pub initial : ℕ → Box ℕ → Box ℕ → State
initial threads node junk = record {
  memory = record { first = 0; last = 0; next = junk };
  pc = λ i. if ltb i threads then clearing (node i) else done;
}

pub data Reach (s : State) : State → Type 0 where
  here : Reach s s
  then_step : {t u : State} → Reach s t → Step t u → Reach s u

module _ (threads : ℕ) (node : Box ℕ) where
  -- `order k` is the thread that was the `k`-th to exchange.
  abbrev pub prev : Box ℕ → ℕ → ℕ
  prev order zero = 0
  prev order (suc k) = node (order k)

  -- The link to the `k`-th node is made.
  abbrev pub Linked : Memory → Box ℕ → ℕ → Type 0
  Linked m order zero = m.first ≡ node (order 0)
  Linked m order (suc k) = m.next (node (order k)) ≡ node (order (suc k))

  abbrev pub Absent : Box ℕ → ℕ → ℕ → Type 0
  Absent order n i = (k : ℕ) → k < n → order k ≢ i

  abbrev pub Waiting : State → ℕ → Type 0
  Waiting s i =
      (s.pc i ≡ clearing (node i)) ⊎ ((s.pc i ≡ exchanging (node i)) × (s.memory.next (node i) ≡ 0))

  abbrev pub Entered : State → Box ℕ → ℕ → Type 0
  Entered s order k =
      (s.pc (order k) ≡ linking (prev order k) (node (order k)))
      ⊎ ((s.pc (order k) ≡ done) × Linked s.memory order k)

  pub record Inv (s : State) (order : Box ℕ) (n : ℕ) : Type 0 where
    pub in_range : (k : ℕ) → k < n → order k < threads
    pub once : (j k : ℕ) → j < n → k < n → order j ≡ order k → j ≡ k
    pub waiting : (i : ℕ) → i < threads → Absent order n i → Waiting s i
    pub entered : (k : ℕ) → k < n → Entered s order k
    pub idle : (i : ℕ) → threads ≤ i → s.pc i ≡ done
    pub first_null : n ≡ 0 → s.memory.first ≡ 0
    pub last : s.memory.last ≡ prev order n
    pub tail : 0 < n → s.memory.next (prev order n) ≡ 0

  pub initial-Inv : (junk : Box ℕ) → Inv (initial threads node junk) (λ k. k) 0
  initial-Inv junk = record {
    in_range = λ k lt. elim lt [ ];
    once = λ j k lt. elim lt [ ];
    waiting = λ i lt a. inl (ground arith);
    entered = λ k lt. elim lt [ ];
    idle = λ i le. ground arith;
    first_null = λ e. refl;
    last = refl;
    tail = λ lt. elim lt [ ];
  }

  -- Whether a thread has exchanged.
  pub position : (order : Box ℕ) (n i : ℕ) → ((k : ℕ) × (k < n) × (order k ≡ i)) ⊎ Absent order n i
  position order zero i = inr (λ k lt. elim lt [ ])
  position order (suc n) i = elim (ℕ_discrete (order n) i) [
    | yes e ↦ inl (n, omega arith, e)
    | no ne ↦ elim (position order n i) [
      | inl (k, lt, e) ↦ inl (k, omega arith, e)
      | inr a ↦ inr (λ k lt e. elim (ℕ_discrete k n) [
        | yes same ↦ ne (ap order (sym same) ∙ e)
        | no less ↦ a k (omega arith) e
      ])
    ]
  ]

  module _ (job : IsJob threads node) (s : State) (order : Box ℕ) (n : ℕ)
      (inv : Inv s order n) where
    pub apart : (i j : ℕ) → i < threads → j < threads → i ≢ j → node i ≢ node j
    apart i j lt lt' ne e = ne (job.distinct i j lt lt' e)

    -- A thread that has not entered is below the number of threads and waits.
    pub clearing_waits :
        (i x : ℕ) → s.pc i ≡ clearing x → (i < threads) × Absent order n i × (x ≡ node i)
    clearing_waits i x e = elim (dec_lt i threads) [
      | no ge ↦ cc (e, inv.idle i (omega arith))
      | yes lt ↦ elim (position order n i) [
        | inl (k, small, same) ↦ elim (inv.entered k small) [ inl l ↦ cc | inr (d, l) ↦ cc ]
        | inr a ↦ elim (inv.waiting i lt a) [ inl w ↦ (lt, a, cc) | inr (w, z) ↦ cc ]
      ]
    ]

    pub exchanging_waits :
        (i x : ℕ)
        → s.pc i ≡ exchanging x
        → (i < threads) × Absent order n i × (x ≡ node i) × (s.memory.next (node i) ≡ 0)
    exchanging_waits i x e = elim (dec_lt i threads) [
      | no ge ↦ cc (e, inv.idle i (omega arith))
      | yes lt ↦ elim (position order n i) [
        | inl (k, small, same) ↦ elim (inv.entered k small) [ inl l ↦ cc | inr (d, l) ↦ cc ]
        | inr a ↦ elim (inv.waiting i lt a) [ inl w ↦ cc | inr (w, z) ↦ (lt, a, cc, z) ]
      ]
    ]

    pub linking_entered :
        (i old x : ℕ)
        → s.pc i ≡ linking old x
        → (k : ℕ) × (k < n) × (order k ≡ i) × (old ≡ prev order k) × (x ≡ node i)
    linking_entered i old x e = elim (dec_lt i threads) [
      | no ge ↦ cc (e, inv.idle i (omega arith))
      | yes lt ↦ elim (position order n i) [
        | inl (k, small, same) ↦ elim (inv.entered k small) [
          | inl l ↦ (k, small, same, cc, cc)
          | inr (d, l) ↦ cc
        ]
        | inr a ↦ elim (inv.waiting i lt a) [ inl w ↦ cc | inr (w, z) ↦ cc ]
      ]
    ]
