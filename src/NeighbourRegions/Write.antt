-- ===== src/NeighbourRegions/Write.antt =====
-- The writing kernel: what holds between the turns of a block's workers.
use native.Mathlib.Decide.{ℕ_discrete, dec_lt}
use native.Mathlib.Nat.{add-mod_right}
use spearhed.Base.{
  ℕ, zero, suc, ◌+◌, ◌%◌, ◌≤◌, ◌<◌, ◌≡◌, ◌≢◌, ◌⊎◌, refl, sym, ap, ◌∙◌, arith, inl, inr, Box, update,
  ltb, Bool, true, false, if◌then◌else◌, prefix_sum, prefix_sum_congr, u32, Bool-cases, ne→==,
  ==_self, ltb→lt,
}
use spearhed.NeighbourRegions.{Writer, write_turn}
use spearhed.NeighbourRegions.Count.{one_if, num_meets}
use spearhed.NeighbourRegions.Stride.{sum_bump, stride_unique}

module _ (meets : Box Bool) (n workers : ℕ) (positive : 0 < workers) (start : ℕ) (junk : Box ℕ)
    (fits : start + num_meets meets n < u32) where
  abbrev pub visited : Writer → ℕ → Bool
  visited w i = ltb i (w.cursor (i % workers))

  -- Whether source `i` has its entry.
  abbrev pub taken : Writer → Box ℕ
  taken w i = if visited w i then one_if (meets i) else 0

  abbrev pub Entry : Writer → ℕ → Type 0
  Entry w j = (start ≤ j) × (j < w.write_ptr)

  pub record Inv (w : Writer) : Type 0 where
    pub aligned : (t : ℕ) → t < workers → w.cursor t % workers ≡ t
    pub counted : w.write_ptr ≡ start + prefix_sum (taken w) n
    pub sound :
        (j : ℕ)
        → Entry w j
        → (w.neighbours j < n)
          × (meets (w.neighbours j) ≡ true)
          × (visited w (w.neighbours j) ≡ true)
    pub complete :
        (i : ℕ)
        → i < n
        → meets i ≡ true
        → visited w i ≡ true
        → (j : ℕ) × Entry w j × (w.neighbours j ≡ i)
    pub once : (j k : ℕ) → Entry w j → Entry w k → w.neighbours j ≡ w.neighbours k → j ≡ k
    pub others : (j : ℕ) → (j < start) ⊎ (w.write_ptr ≤ j) → w.neighbours j ≡ junk j

  taken_le : (w : Writer) (m : ℕ) → prefix_sum (taken w) m ≤ num_meets meets m
  unfolding prefix_sum
  taken_le w zero = omega arith
  taken_le w (suc m) = ground (arith, taken_le w m)

  -- A turn visits the worker's index and no other.
  module _ (w : Writer) (inv : Inv w) (t : ℕ) (small : t < workers) (more : w.cursor t < n) where
    abbrev moved : Box ℕ
    moved = update w.cursor t (w.cursor t + workers)

    visits_own : ltb (w.cursor t) (moved (w.cursor t % workers)) ≡ true
    visits_own = rw (inv.aligned t small, ==_self t) (ground arith)

    fresh : ltb (w.cursor t) (w.cursor (w.cursor t % workers)) ≡ false
    fresh = rw (inv.aligned t small) (ground arith)

    visits_same :
        (i : ℕ) → i ≢ w.cursor t → ltb i (moved (i % workers)) ≡ ltb i (w.cursor (i % workers))
    visits_same i ne = elim (ℕ_discrete (i % workers) t) [
      | no other ↦ rw (ne→== (i % workers) t other) refl
      | yes e ↦
          rw (e, ==_self t)
            (elim (dec_lt i (w.cursor t)) [
              | yes before ↦ ground arith
              | no after ↦ elim (dec_lt i (w.cursor t + workers)) [
                | no beyond ↦ ground arith
                | yes within ↦ absurd (
                    ne (
                      stride_unique i (w.cursor t) workers (e ∙ sym (inv.aligned t small))
                        (omega arith) within))
              ]
            ])
    ]

    moved_aligned : (s : ℕ) → s < workers → moved s % workers ≡ s
    moved_aligned s lt = elim (ℕ_discrete s t) [
      | yes e ↦ rw (e, ==_self t) (add-mod_right (w.cursor t) workers ∙ inv.aligned t small)
      | no ne ↦ rw (ne→== s t ne) (inv.aligned s lt)
    ]

    visits_still :
        (i : ℕ) → visited w i ≡ true → (i ≢ w.cursor t) × (ltb i (moved (i % workers)) ≡ true)
    visits_still i v = let ne : i ≢ w.cursor t = λ e. cc (fresh, v, e) in (ne, visits_same i ne ∙ v)

    -- The turn of a worker whose source does not meet.
    passes-Inv : meets (w.cursor t) ≡ false → Inv (record w { cursor = moved })
    passes-Inv not_met = record {
      aligned = moved_aligned;
      counted = inv.counted ∙ ap (λ k. start + k) (prefix_sum_congr _ _ n (λ i lt. same_taken i));
      sound = λ j e. let (x, y, z) = inv.sound j e in (x, y, (visits_still _ z).1);
      complete = λ i lt m v. inv.complete i lt m (sym (visits_same i (λ e. cc)) ∙ v);
      once = inv.once;
      others = inv.others;
    }
      where
        same_taken :
            (i : ℕ) → taken w i ≡ (if ltb i (moved (i % workers)) then one_if (meets i) else 0)
        same_taken i = elim (ℕ_discrete i (w.cursor t)) [
          | no ne ↦ ap (λ v. if v then one_if (meets i) else 0) (sym (visits_same i ne))
          | yes e ↦ rw (e, not_met) (ground arith)
        ]

    abbrev written : Writer
    written = record {
      cursor = moved;
      write_ptr = (w.write_ptr + 1) % u32;
      neighbours = update w.neighbours w.write_ptr (w.cursor t);
    }

    -- The turn of a worker whose source meets.
    writes-Inv : meets (w.cursor t) ≡ true → Inv written
    writes-Inv met = record {
      aligned = moved_aligned;
      counted = up;
      sound = sound';
      complete = complete';
      once = once';
      others = others';
    }
      where
        bump : prefix_sum (taken written) n ≡ suc (prefix_sum (taken w) n)
        bump =
            sum_bump (taken w) (taken written) n (w.cursor t) more
              (rw (visits_own, fresh, met) refl)
              (λ i ne. ap (λ v. if v then one_if (meets i) else 0) (visits_same i ne))

        up : written.write_ptr ≡ start + prefix_sum (taken written) n
        up = omega (arith, bump, taken_le written n, inv.counted, fits)

        ptr : written.write_ptr ≡ suc w.write_ptr
        ptr = omega (arith, up, bump, inv.counted)

        at_ptr : (j : ℕ) → j ≡ w.write_ptr → written.neighbours j ≡ w.cursor t
        at_ptr j e = rw (e, ==_self w.write_ptr) refl

        off_ptr : (j : ℕ) → j ≢ w.write_ptr → written.neighbours j ≡ w.neighbours j
        off_ptr j ne = rw (ne→== j w.write_ptr ne) refl

        start_le : start ≤ w.write_ptr
        start_le = omega (arith, inv.counted)

        old : (j : ℕ) → j ≢ w.write_ptr → Entry written j → Entry w j
        old j ne (low, high) = (low, omega (arith, ptr))

        sound' :
            (j : ℕ)
            → Entry written j
            → (written.neighbours j < n)
              × (meets (written.neighbours j) ≡ true)
              × (visited written (written.neighbours j) ≡ true)
        sound' j e = elim (ℕ_discrete j w.write_ptr) [
          | yes top ↦ rw (at_ptr j top) (more, met, visits_own)
          | no ne ↦
              let (x, y, z) = inv.sound j (old j ne e) in
              rw (off_ptr j ne) (x, y, (visits_still _ z).1)
        ]

        complete' :
            (i : ℕ)
            → i < n
            → meets i ≡ true
            → visited written i ≡ true
            → (j : ℕ) × Entry written j × (written.neighbours j ≡ i)
        complete' i lt m v = elim (ℕ_discrete i (w.cursor t)) [
          | yes e ↦ (w.write_ptr, (start_le, omega (arith, ptr)), at_ptr w.write_ptr refl ∙ sym e)
          | no ne ↦
              let (j, (low, high), e) = inv.complete i lt m (sym (visits_same i ne) ∙ v) in
              (j, (low, omega (arith, ptr)), off_ptr j (λ h. omega arith) ∙ e)
        ]

        clash : (j : ℕ) → Entry w j → w.neighbours j ≢ w.cursor t
        clash j e = (visits_still (w.neighbours j) (inv.sound j e).2).0

        once' :
            (j k : ℕ)
            → Entry written j
            → Entry written k
            → written.neighbours j ≡ written.neighbours k
            → j ≡ k
        once' j k ej ek e = elim (ℕ_discrete j w.write_ptr) [
          | yes a ↦ elim (ℕ_discrete k w.write_ptr) [
            | yes b ↦ a ∙ sym b
            | no b ↦ absurd (clash k (old k b ek) (sym (off_ptr k b) ∙ sym e ∙ at_ptr j a))
          ]
          | no a ↦ elim (ℕ_discrete k w.write_ptr) [
            | yes b ↦ absurd (clash j (old j a ej) (sym (off_ptr j a) ∙ e ∙ at_ptr k b))
            | no b ↦ inv.once j k (old j a ej) (old k b ek) (sym (off_ptr j a) ∙ e ∙ off_ptr k b)
          ]
        ]

        others' : (j : ℕ) → (j < start) ⊎ (written.write_ptr ≤ j) → written.neighbours j ≡ junk j
        others' j (inl low) = off_ptr j (λ h. omega (arith, start_le)) ∙ inv.others j (inl low)
        others' j (inr high) =
            off_ptr j (λ h. omega (arith, ptr)) ∙ inv.others j (inr (omega (arith, ptr)))

  pub write_turn-Inv :
      (w : Writer) (t : ℕ) → Inv w → t < workers → Inv (write_turn meets n workers t w)
  unfolding write_turn
  write_turn-Inv w t inv small = elim (Bool-cases (ltb (w.cursor t) n)) [
    | inr done ↦ simp (done) inv
    | inl more ↦ elim (Bool-cases (meets (w.cursor t))) [
      | inl met ↦ simp (more, met) (writes-Inv w inv t small (ltb→lt (w.cursor t) n more) met)
      | inr not_met ↦
          simp (more, not_met) (passes-Inv w inv t small (ltb→lt (w.cursor t) n more) not_met)
    ]
  ]
