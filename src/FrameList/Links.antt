-- ===== src/FrameList/Links.antt =====
-- Linking keeps the threads' invariant, behind another node and at the head.
use mathlib.Core.Path.{subst}
use native.Mathlib.Decide.{ℕ_discrete}
use spearhed.Base.{ℕ, zero, suc, ◌<◌, ◌≡◌, ◌≢◌, sym, ap, ◌∙◌, inl, inr, arith, Box, update}
use spearhed.FrameList.{linking, done, State, move}
use spearhed.FrameList.Threads.{
  update_at, update_off, IsJob, prev, Linked, Entered, Inv, apart, linking_entered,
}

module _ (threads : ℕ) (node : Box ℕ) (job : IsJob threads node) (s : State) (order : Box ℕ) (n : ℕ)
    (inv : Inv threads node s order n) (i : ℕ) where
  -- The thread that links its node behind the last one it was handed.
  pub links-Inv :
      (before x : ℕ)
      → s.pc i ≡ linking before x
      → before ≢ 0
      → Inv threads node
          (record {
            memory = record (s.memory) { next = update s.memory.next before x };
            pc = move s.pc i done;
          })
          order
          n
  links-Inv before x e nonzero =
      let (k, small, mine, handed, own) =
        linking_entered threads node job s order n inv i before x e in
      links_at k small mine handed own
    where
      links_at :
          (k : ℕ)
          → k < n
          → order k ≡ i
          → before ≡ prev threads node order k
          → x ≡ node i
          → Inv threads node
              (record {
                memory = record (s.memory) { next = update s.memory.next before x };
                pc = move s.pc i done;
              })
              order
              n
      links_at zero small mine handed own = absurd (nonzero handed)
      links_at (suc k) small mine handed own = record {
        in_range = inv.in_range;
        once = inv.once;
        waiting = λ j lt a.
            let ne : j ≢ i = λ h. a (suc k) small (mine ∙ sym h) in
            elim (inv.waiting j lt a) [
              | inl w ↦ inl (update_off s.pc i j _ ne ∙ w)
              | inr (w, z) ↦ inr (
                update_off s.pc i j _ ne ∙ w,
                update_off s.memory.next before (node j) x (λ h.
                      apart threads node job s order n inv j (order k) lt
                        (inv.in_range k (omega arith)) (λ h'. a k (omega arith) (sym h'))
                        (h ∙ handed))
                    ∙ z,
              )
            ];
        entered = λ m lt. elim (ℕ_discrete m (suc k)) [
          | yes same ↦ inr (
            update_at s.pc i (order m) done (ap order same ∙ mine),
            subst
                (λ m'.
                  Linked threads node (record (s.memory) { next = update s.memory.next before x })
                    order m')
                (sym same) made,
          )
          | no ne ↦ elim (inv.entered m lt) [
            | inl w ↦ inl (update_off s.pc i (order m) _ (other m lt ne) ∙ w)
            | inr (d, l) ↦ inr (update_off s.pc i (order m) _ (other m lt ne) ∙ d, kept m lt ne l)
          ]
        ];
        idle = λ j le.
            update_off s.pc i j _ (λ h. omega (arith, inv.in_range (suc k) small, mine))
            ∙ inv.idle j le;
        first_null = inv.first_null;
        last = inv.last;
        tail = λ some_node.
            tail_kept n small (λ m lt. inv.in_range m lt) inv.once (inv.tail some_node);
      }
        where
          made : update s.memory.next before x (node (order k)) ≡ node (order (suc k))
          made =
              update_at s.memory.next before (node (order k)) x (sym handed)
              ∙ own
              ∙ ap node (sym mine)

          other : (m : ℕ) → m < n → m ≢ suc k → order m ≢ i
          other m lt ne h = ne (inv.once m (suc k) lt small (h ∙ sym mine))

          off : (m : ℕ) → m < n → m ≢ k → node (order m) ≢ before
          off m lt ne h =
              apart threads node job s order n inv (order m) (order k) (inv.in_range m lt)
                (inv.in_range k (omega arith)) (λ h'. ne (inv.once m k lt (omega arith) h'))
                (h ∙ handed)

          kept :
              (m : ℕ)
              → m < n
              → m ≢ suc k
              → Linked threads node s.memory order m
              → Linked threads node
                  (record (s.memory) { next = update s.memory.next before x })
                  order
                  m
          kept zero lt ne l = l
          kept (suc m) lt ne l =
              update_off s.memory.next before (node (order m)) x
                (off m (omega arith) (λ h. ne (ap suc h)))
              ∙ l

          tail_kept :
              (m : ℕ)
              → suc k < m
              → ((j : ℕ) → j < m → order j < threads)
              → ((j j' : ℕ) → j < m → j' < m → order j ≡ order j' → j ≡ j')
              → s.memory.next (prev threads node order m) ≡ 0
              → update s.memory.next before x (prev threads node order m) ≡ 0
          tail_kept zero lt range inj z = elim lt [ ]
          tail_kept (suc m) lt range inj z =
              update_off s.memory.next before (node (order m)) x (λ h.
                apart threads node job s order n inv (order m) (order k) (range m (omega arith))
                  (range k (omega arith))
                  (λ h'. omega (arith, inj m k (omega arith) (omega arith) h')) (h ∙ handed))
              ∙ z

  -- The thread that found the list empty sets the first node.
  pub heads-Inv :
      (x : ℕ)
      → s.pc i ≡ linking 0 x
      → Inv threads node
          (record { memory = record (s.memory) { first = x }; pc = move s.pc i done })
          order
          n
  heads-Inv x e =
      let (k, small, mine, handed, own) = linking_entered threads node job s order n inv i 0 x e in
      heads_at k small mine handed own
    where
      heads_at :
          (k : ℕ)
          → k < n
          → order k ≡ i
          → 0 ≡ prev threads node order k
          → x ≡ node i
          → Inv threads node
              (record { memory = record (s.memory) { first = x }; pc = move s.pc i done })
              order
              n
      heads_at (suc k) small mine handed own =
          absurd (job.not_null (order k) (inv.in_range k (omega arith)) (sym handed))
      heads_at zero small mine handed own = record {
        in_range = inv.in_range;
        once = inv.once;
        waiting = λ j lt a.
            let ne : j ≢ i = λ h. a 0 small (mine ∙ sym h) in
            elim (inv.waiting j lt a) [
              | inl w ↦ inl (update_off s.pc i j _ ne ∙ w)
              | inr (w, z) ↦ inr (update_off s.pc i j _ ne ∙ w, z)
            ];
        entered = heads_entered;
        idle = λ j le.
            update_off s.pc i j _ (λ h. omega (arith, inv.in_range 0 small, mine)) ∙ inv.idle j le;
        first_null = λ h. absurd (omega arith);
        last = inv.last;
        tail = inv.tail;
      }
        where
          heads_entered :
              (m : ℕ)
              → m < n
              → Entered threads node
                  (record { memory = record (s.memory) { first = x }; pc = move s.pc i done })
                  order
                  m
          heads_entered zero lt =
              inr (update_at s.pc i (order 0) done mine, own ∙ ap node (sym mine))
          heads_entered (suc m) lt =
              let ne : order (suc m) ≢ i =
                λ h. omega (arith, inv.once (suc m) 0 lt small (h ∙ sym mine)) in
              elim (inv.entered (suc m) lt) [
                | inl w ↦ inl (update_off s.pc i (order (suc m)) _ ne ∙ w)
                | inr (d, l) ↦ inr (update_off s.pc i (order (suc m)) _ ne ∙ d, l)
              ]
