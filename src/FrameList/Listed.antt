-- ===== src/FrameList/Listed.antt =====
-- When the threads are through, the list holds every node that was inserted.
use mathlib.Core.Path.{subst}
use native.Mathlib.Decide.{ℕ_discrete}
use spearhed.Base.{
  ℕ, zero, suc, ◌+◌, ◌<◌, ◌≡◌, refl, sym, ap, ◌∙◌, inl, inr, arith, Box, update, ◌==◌, false, some,
  List, [], ◌∷◌, ◌++◌, length, get_or, map, ne→==, ==_self,
}
use spearhed.FrameList.{Memory, done, State, Step, clears, exchanges, links, heads, walk, size}
use spearhed.FrameList.Threads.{
  IsJob, initial, Reach, here, then_step, prev, Linked, Inv, initial-Inv, position,
}
use spearhed.FrameList.Steps.{clears-Inv, exchanges-Inv}
use spearhed.FrameList.Links.{links-Inv, heads-Inv}

-- The thread that a step has make its atomic exchange.
pub exchanged : {s t : State} → Step s t → List ℕ
exchanged (clears i x e is) = []
exchanged (exchanges i x e is) = i ∷ []
exchanged (links i before x e ne is) = []
exchanged (heads i x e is) = []

-- The threads in the order of their atomic exchanges.
pub exchange_log : {s t : State} → Reach s t → List ℕ
exchange_log here = []
exchange_log (then_step r st) = exchange_log r ++ exchanged st

append_nil : (xs : List ℕ) → xs ++ [] ≡ xs
append_nil [] = refl
append_nil (x ∷ xs) = ap (λ l. x ∷ l) (append_nil xs)

module _ (threads : ℕ) (node : Box ℕ) where
  -- The nodes of `count` places of the order, from place `k` on.
  abbrev pub nodes : Box ℕ → ℕ → ℕ → List ℕ
  nodes order zero k = []
  nodes order (suc count) k = node (order k) ∷ nodes order count (suc k)

  record IsOrdered (m : Memory) (order : Box ℕ) (n : ℕ) : Type 0 where
    in_range : (k : ℕ) → k < n → order k < threads
    once : (j k : ℕ) → j < n → k < n → order j ≡ order k → j ≡ k
    every : (i : ℕ) → i < threads → (k : ℕ) × (k < n) × (order k ≡ i)
    walked : walk (suc n) m.next m.first ≡ some (nodes order n 0)
    counted : size (suc n) m.next m.first 0 ≡ some n

  -- The list holds the nodes of the threads in the log, in its order, and the log has every thread
  -- once.
  pub record IsListed (m : Memory) (log : List ℕ) : Type 0 where
    pub in_range : (k : ℕ) → k < length log → get_or log k 0 < threads
    pub once : (j k : ℕ) → j < length log → k < length log → get_or log j 0 ≡ get_or log k 0 → j ≡ k
    pub every : (i : ℕ) → i < threads → (k : ℕ) × (k < length log) × (get_or log k 0 ≡ i)
    pub walked : walk (suc (length log)) m.next m.first ≡ some (map node log)
    pub counted : size (suc (length log)) m.next m.first 0 ≡ some (length log)

  -- The order is the log's.
  abbrev Logs : List ℕ → Box ℕ → ℕ → Type 0
  Logs log order n = (length log ≡ n) × ((k : ℕ) → k < length log → order k ≡ get_or log k 0)

  nodes-map :
      (log : List ℕ) (order : Box ℕ) (k : ℕ)
      → ((j : ℕ) → j < length log → order (k + j) ≡ get_or log j 0)
      → nodes order (length log) k ≡ map node log
  nodes-map [] order k same t = []
  nodes-map (i ∷ log) order k same t =
      let first : k ≡ k + 0 = omega arith in
      node ((ap order first ∙ same 0 (omega arith)) t) ∷ nodes-map log order (suc k) later t
    where
      later : (j : ℕ) → j < length log → order (suc k + j) ≡ get_or log j 0
      later j lt =
          let e : suc k + j ≡ k + suc j = omega arith in ap order e ∙ same (suc j) (omega arith)

  Logs-snoc :
      (log : List ℕ) (order : Box ℕ) (n i : ℕ)
      → Logs log order n
      → Logs (log ++ i ∷ []) (update order n i) (suc n)
  Logs-snoc log order n i (same, at) = (
    longer log i ∙ ap suc same,
    λ k lt. elim (ℕ_discrete k n) [
      | yes e ↦ rw (e, ==_self n, ← same) (sym (last log i))
      | no ne ↦
          let short : k < length log = omega (arith, longer log i, lt, same) in
          rw (ne→== k n ne) (at k short ∙ sym (earlier log i k short))
    ],
  )
    where
      longer : (xs : List ℕ) (i : ℕ) → length (xs ++ i ∷ []) ≡ suc (length xs)
      longer [] i = refl
      longer (x ∷ xs) i = ap suc (longer xs i)

      last : (xs : List ℕ) (i : ℕ) → get_or (xs ++ i ∷ []) (length xs) 0 ≡ i
      last [] i = refl
      last (x ∷ xs) i = last xs i

      earlier : (xs : List ℕ) (i k : ℕ) → k < length xs → get_or (xs ++ i ∷ []) k 0 ≡ get_or xs k 0
      earlier [] i k lt = elim lt [ ]
      earlier (x ∷ xs) i zero lt = refl
      earlier (x ∷ xs) i (suc k) lt = earlier xs i k (omega arith)

  module _ (job : IsJob threads node) where
    abbrev Invariant : List ℕ → State → Type 0
    Invariant log s = (order : Box ℕ) × (n : ℕ) × Logs log order n × Inv threads node s order n

    Step-Inv :
        (s t : State) (log : List ℕ) (st : Step s t)
        → Invariant log s
        → Invariant (log ++ exchanged st) t
    unfolding exchanged
    Step-Inv s t log (clears i x e is) (order, n, same, inv) =
        subst (λ l. Invariant l t) (sym (append_nil log))
          (subst (Invariant log) (sym is)
            (order, n, same, clears-Inv threads node job s order n inv i x e))
    Step-Inv s t log (exchanges i x e is) (order, n, same, inv) =
        subst (Invariant (log ++ i ∷ [])) (sym is) (
          update order n i,
          suc n,
          Logs-snoc log order n i same,
          exchanges-Inv threads node job s order n inv i x e,
        )
    Step-Inv s t log (links i before x e ne is) (order, n, same, inv) =
        subst (λ l. Invariant l t) (sym (append_nil log))
          (subst (Invariant log) (sym is)
            (order, n, same, links-Inv threads node job s order n inv i before x e ne))
    Step-Inv s t log (heads i x e is) (order, n, same, inv) =
        subst (λ l. Invariant l t) (sym (append_nil log))
          (subst (Invariant log) (sym is)
            (order, n, same, heads-Inv threads node job s order n inv i x e))

    Reach-Inv :
        (junk : Box ℕ) (s : State) (r : Reach (initial threads node junk) s)
        → Invariant (exchange_log r) s
    unfolding exchange_log
    Reach-Inv junk s here =
        ((λ k. k), 0, (refl, λ k lt. elim lt [ ]), initial-Inv threads node junk)
    Reach-Inv junk s (then_step {t} r st) = Step-Inv t s (exchange_log r) st (Reach-Inv junk t r)

    module _ (s : State) (order : Box ℕ) (n : ℕ) (inv : Inv threads node s order n)
        (through : (i : ℕ) → s.pc i ≡ done) where
      linked : (k : ℕ) → k < n → Linked threads node s.memory order k
      linked k lt = elim (inv.entered k lt) [ inl w ↦ cc (through (order k), w) | inr (d, l) ↦ l ]

      tail_at : (k : ℕ) → suc k ≡ n → s.memory.next (node (order k)) ≡ 0
      tail_at k e = ap (λ m. s.memory.next (prev threads node order m)) e ∙ inv.tail (omega arith)

      walk-nodes :
          (r k p : ℕ)
          → k + r ≡ n
          → (r ≡ 0 → p ≡ 0)
          → (0 < r → p ≡ node (order k))
          → walk (suc r) s.memory.next p ≡ some (nodes order r k)
      unfolding walk
      walk-nodes zero k p e null here' = rw (null refl) refl
      walk-nodes (suc r) k p e null here' =
          let at : p ≡ node (order k) = here' (omega arith) in
          let real : (p == 0) ≡ false =
            ne→== p 0 (λ z. job.not_null (order k) (inv.in_range k (omega arith)) (sym at ∙ z)) in
          rw
            (
              real,
              walk,
              walk-nodes r (suc k) (s.memory.next p) (omega arith)
                  (λ z. ap s.memory.next at ∙ tail_at k (omega arith))
                  (λ more. ap s.memory.next at ∙ linked (suc k) (omega arith)),
            )
            (λ t. some (at t ∷ nodes order r (suc k)))

      size-count :
          (r k p c : ℕ)
          → k + r ≡ n
          → (r ≡ 0 → p ≡ 0)
          → (0 < r → p ≡ node (order k))
          → size (suc r) s.memory.next p c ≡ some (c + r)
      unfolding size
      size-count zero k p c e null here' = rw (null refl) (ap some (omega arith))
      size-count (suc r) k p c e null here' =
          let at : p ≡ node (order k) = here' (omega arith) in
          let real : (p == 0) ≡ false =
            ne→== p 0 (λ z. job.not_null (order k) (inv.in_range k (omega arith)) (sym at ∙ z)) in
          rw (real, size)
            (size-count r (suc k) (s.memory.next p) (suc c) (omega arith)
                (λ z. ap s.memory.next at ∙ tail_at k (omega arith))
                (λ more. ap s.memory.next at ∙ linked (suc k) (omega arith))
              ∙ ap some (omega arith))

      through-IsOrdered : IsOrdered s.memory order n
      through-IsOrdered = record {
        in_range = inv.in_range;
        once = inv.once;
        every = λ i lt. elim (position threads node order n i) [
          | inl found ↦ found
          | inr absent ↦ elim (inv.waiting i lt absent) [
            | inl w ↦ cc (through i, w)
            | inr (w, z) ↦ cc (through i, w)
          ]
        ];
        walked = walk-nodes n 0 s.memory.first (omega arith) inv.first_null (λ more. linked 0 more);
        counted =
            size-count n 0 s.memory.first 0 (omega arith) inv.first_null (λ more. linked 0 more)
            ∙ ap some (omega arith);
      }

    -- However the insertions of distinct nodes into an empty list interleave: once every thread is
    -- behind its fence, iterating the list ends and visits exactly the inserted nodes, each once,
    -- in the order in which their threads made the atomic exchange, and size counts them.
    pub Reach-IsListed :
        (junk : Box ℕ) (s : State) (r : Reach (initial threads node junk) s)
        → ((i : ℕ) → s.pc i ≡ done)
        → IsListed s.memory (exchange_log r)
    Reach-IsListed junk s r through =
        let (order, n, (same, at), inv) = Reach-Inv junk s r in
        listed order n same at (through-IsOrdered s order n inv through)
      where
        log : List ℕ
        log = exchange_log r

        listed :
            (order : Box ℕ) (n : ℕ)
            → length log ≡ n
            → ((k : ℕ) → k < length log → order k ≡ get_or log k 0)
            → IsOrdered s.memory order n
            → IsListed s.memory log
        listed order n same at o = record {
          in_range = λ k lt. rw (at k lt) at (o.in_range k (omega (arith, same)));
          once = λ j k j_lt k_lt e.
              o.once j k (omega (arith, same)) (omega (arith, same))
                (at j j_lt ∙ e ∙ sym (at k k_lt));
          every = λ i lt.
              let (k, k_lt, e) = o.every i lt in
              let inside : k < length log = omega (arith, same) in
              (k, inside, sym (at k inside) ∙ e);
          walked =
              (rw (← same) at o.walked)
              ∙ ap some (nodes-map log order 0 (λ j lt. ap order (omega arith) ∙ at j lt));
          counted = rw (← same) at o.counted;
        }
