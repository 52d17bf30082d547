-- ===== src/FrameList/Steps.antt =====
-- Clearing and exchanging keep the threads' invariant.
use mathlib.Core.Path.{subst}
use native.Mathlib.Decide.{ℕ_discrete}
use spearhed.Base.{
  ℕ, zero, suc, ◌≤◌, ◌<◌, ◌≡◌, ◌≢◌, refl, sym, ap, ◌∙◌, inl, inr, arith, Box, update,
}
use spearhed.FrameList.{clearing, exchanging, linking, State, move}
use spearhed.FrameList.Threads.{
  update_at, update_off, update_zero, IsJob, prev, Linked, Absent, Inv, apart, clearing_waits,
  exchanging_waits,
}

module _ (threads : ℕ) (node : Box ℕ) (job : IsJob threads node) (s : State) (order : Box ℕ) (n : ℕ)
    (inv : Inv threads node s order n) (i : ℕ) where
  -- The thread that clears its node's pointer.
  pub clears-Inv :
      (x : ℕ)
      → s.pc i ≡ clearing x
      → Inv threads node
          (record {
            memory = record (s.memory) { next = update s.memory.next x 0 };
            pc = move s.pc i (exchanging x);
          })
          order
          n
  clears-Inv x e =
      let (lt, absent, own) = clearing_waits threads node job s order n inv i x e in
      record {
        in_range = inv.in_range;
        once = inv.once;
        waiting = λ j small a. elim (ℕ_discrete j i) [
          | yes same ↦ inr (
            update_at s.pc i j (exchanging x) same ∙ ap exchanging (own ∙ ap node (sym same)),
            update_at s.memory.next x (node j) 0 (ap node same ∙ sym own),
          )
          | no ne ↦ elim (inv.waiting j small a) [
            | inl w ↦ inl (update_off s.pc i j _ ne ∙ w)
            | inr (w, z) ↦
                inr (update_off s.pc i j _ ne ∙ w, update_zero s.memory.next x (node j) z)
          ]
        ];
        entered = λ k small. elim (inv.entered k small) [
          | inl w ↦ inl (update_off s.pc i (order k) _ (absent k small) ∙ w)
          | inr (d, l) ↦
              inr
                (update_off s.pc i (order k) _ (absent k small) ∙ d, linked lt own absent k small l)
        ];
        idle = λ j le. update_off s.pc i j _ (λ h. omega arith) ∙ inv.idle j le;
        first_null = inv.first_null;
        last = inv.last;
        tail = λ some_node.
            update_zero s.memory.next x (prev threads node order n) (inv.tail some_node);
      }
    where
      linked :
          i < threads
          → x ≡ node i
          → Absent threads node order n i
          → (k : ℕ) → k < n
          → Linked threads node s.memory order k
          → Linked threads node (record (s.memory) { next = update s.memory.next x 0 }) order k
      linked lt own absent zero small l = l
      linked lt own absent (suc k) small l =
          update_off s.memory.next x (node (order k)) 0 (λ h.
            apart threads node job s order n inv (order k) i (inv.in_range k (omega arith)) lt
              (absent k (omega arith)) (h ∙ own))
          ∙ l

  -- The thread that exchanges the last node is the next in the order.
  pub exchanges-Inv :
      (x : ℕ)
      → s.pc i ≡ exchanging x
      → Inv threads node
          (record {
            memory = record (s.memory) { last = x };
            pc = move s.pc i (linking s.memory.last x);
          })
          (update order n i)
          (suc n)
  exchanges-Inv x e =
      let (lt, absent, own, cleared) = exchanging_waits threads node job s order n inv i x e in
      record {
        in_range = λ k small. elim (ℕ_discrete k n) [
          | yes top ↦ subst (λ j. j < threads) (sym (update_at order n k i top)) lt
          | no ne ↦ subst (λ j. j < threads) (sym (old k ne)) (inv.in_range k (omega arith))
        ];
        once = λ j k small small' same. elim (ℕ_discrete j n) [
          | yes a ↦ elim (ℕ_discrete k n) [
            | yes b ↦ a ∙ sym b
            | no b ↦
                absurd (absent k (omega arith) (sym (old k b) ∙ sym same ∙ update_at order n j i a))
          ]
          | no a ↦ elim (ℕ_discrete k n) [
            | yes b ↦
                absurd (absent j (omega arith) (sym (old j a) ∙ same ∙ update_at order n k i b))
            | no b ↦ inv.once j k (omega arith) (omega arith) (sym (old j a) ∙ same ∙ old k b)
          ]
        ];
        waiting = λ j small a.
            let ne : j ≢ i = λ h. a n (omega arith) (update_at order n n i refl ∙ sym h) in
            elim (inv.waiting j small
              (λ k lt' h. a k (omega arith) (old k (λ top. omega arith) ∙ h))) [
                | inl w ↦ inl (update_off s.pc i j _ ne ∙ w)
                | inr (w, z) ↦ inr (update_off s.pc i j _ ne ∙ w, z)
              ];
        entered = λ k small. elim (ℕ_discrete k n) [
          | yes top ↦ inl (
              update_at s.pc i (update order n i k) _ (update_at order n k i top)
              ∙ (λ t. linking (before k top t) (mine own k top t)))
          | no ne ↦ elim (inv.entered k (omega arith)) [
            | inl w ↦ inl (
                pc_old absent k ne (omega arith)
                ∙ w
                ∙ sym (λ t. linking (prev_old k (omega arith) t) (node (old k ne t))))
            | inr (d, l) ↦ inr (pc_old absent k ne (omega arith) ∙ d, linked_old k (omega arith) l)
          ]
        ];
        idle = λ j le. update_off s.pc i j _ (λ h. omega arith) ∙ inv.idle j le;
        first_null = λ h. absurd (omega arith);
        last = own ∙ ap node (sym (update_at order n n i refl));
        tail = λ some_node. ap s.memory.next (ap node (update_at order n n i refl)) ∙ cleared;
      }
    where
      old : (k : ℕ) → k ≢ n → update order n i k ≡ order k
      old k ne = update_off order n k i ne

      prev_old :
          (k : ℕ) → k ≤ n → prev threads node (update order n i) k ≡ prev threads node order k
      prev_old zero le = refl
      prev_old (suc k) le = ap node (old k (λ h. omega arith))

      before : (k : ℕ) → k ≡ n → s.memory.last ≡ prev threads node (update order n i) k
      before k top =
          inv.last ∙ ap (prev threads node order) (sym top) ∙ sym (prev_old k (omega arith))

      mine : x ≡ node i → (k : ℕ) → k ≡ n → x ≡ node (update order n i k)
      mine own k top = own ∙ ap node (sym (update_at order n k i top))

      pc_old :
          Absent threads node order n i
          → (k : ℕ) → k ≢ n
          → k < n
          → move s.pc i (linking s.memory.last x) (update order n i k) ≡ s.pc (order k)
      pc_old absent k ne lt =
          ap (move s.pc i (linking s.memory.last x)) (old k ne)
          ∙ update_off s.pc i (order k) _ (absent k lt)

      linked_old :
          (k : ℕ)
          → k < n
          → Linked threads node s.memory order k
          → Linked threads node (record (s.memory) { last = x }) (update order n i) k
      linked_old zero lt l = l ∙ ap node (sym (old 0 (λ h. omega arith)))
      linked_old (suc k) lt l =
          ap s.memory.next (ap node (old k (λ h. omega arith)))
          ∙ l
          ∙ ap node (sym (old (suc k) (λ h. omega arith)))
