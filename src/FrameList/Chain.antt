-- ===== src/FrameList/Chain.antt =====
-- The list as a chain of nodes, and what an insertion with nothing in between makes of it.
use mathlib.Core.Path.{subst}
use spearhed.Base.{
  ℕ, ◌≡◌, ◌≢◌, refl, sym, ap, ◌∙◌, Box, update, ◌==◌, true, false, List, [], ◌∷◌, ◌++◌, has,
  Distinct, Bool-cases, inl, inr, ==_self, ne→==,
}
use spearhed.FrameList.{Memory, push_back}

-- From `p` the `next` pointers lead along the nodes to the null pointer.
abbrev pub Chain : Box ℕ → ℕ → List ℕ → Type 0
Chain next p [] = p ≡ 0
Chain next p (x ∷ xs) = (p ≡ x) × (x ≢ 0) × Chain next (next x) xs

-- The last node, or null.
abbrev pub last_of : List ℕ → ℕ
last_of [] = 0
last_of (x ∷ []) = x
last_of (x ∷ y ∷ xs) = last_of (y ∷ xs)

-- The memory holds the list of these nodes, each once.
pub record IsList (m : Memory) (xs : List ℕ) : Type 0 where
  pub chain : Chain m.next m.first xs
  pub last : m.last ≡ last_of xs
  pub once : Distinct xs

apart : (x y : ℕ) (xs : List ℕ) → has x (y ∷ xs) ≡ false → x ≢ y
apart x y xs h e = cc (rw (e, ==_self y) at h)

absent : (x y : ℕ) (xs : List ℕ) → has x (y ∷ xs) ≡ false → has x xs ≡ false
absent x y xs h = rw (ne→== x y (apart x y xs h)) at h

-- A pointer outside the chain does not matter.
Chain-update :
    (next : Box ℕ) (a v p : ℕ) (xs : List ℕ)
    → has a xs ≡ false
    → Chain next p xs
    → Chain (update next a v) p xs
Chain-update next a v p [] out c = c
Chain-update next a v p (x ∷ xs) out (at, real, rest) =
    let other : x ≢ a = λ e. apart a x xs out (sym e) in
    (at, real, rw (ne→== x a other) (Chain-update next a v (next x) xs (absent a x xs out) rest))

has-last_of : (x : ℕ) (xs : List ℕ) → has (last_of (x ∷ xs)) (x ∷ xs) ≡ true
has-last_of x [] = rw (==_self x) refl
has-last_of x (y ∷ xs) = elim (Bool-cases (last_of (y ∷ xs) == x)) [
  | inl e ↦ rw e refl
  | inr e ↦ rw e (has-last_of y xs)
]

last_of-absent : (a x : ℕ) (xs : List ℕ) → has a (x ∷ xs) ≡ false → a ≢ last_of (x ∷ xs)
last_of-absent a x xs out e = cc (sym out ∙ ap (λ k. has k (x ∷ xs)) e ∙ has-last_of x xs)

-- Linking a new node behind the last one.
Chain-snoc :
    (next : Box ℕ) (p y x : ℕ) (ys : List ℕ)
    → x ≢ 0
    → next x ≡ 0
    → has x (y ∷ ys) ≡ false
    → Distinct (y ∷ ys)
    → Chain next p (y ∷ ys)
    → Chain (update next (last_of (y ∷ ys)) x) p (y ∷ ys ++ x ∷ [])
Chain-snoc next p y x [] real null out once (at, y_real, rest) =
    (at, y_real, rw (==_self y) (refl, real, rw (ne→== x y (apart x y [] out)) null))
Chain-snoc next p y x (z ∷ zs) real null out once (at, y_real, rest) =
    let other : y ≢ last_of (z ∷ zs) = last_of-absent y z zs once.0 in
    (
      at,
      y_real,
      rw (ne→== y (last_of (z ∷ zs)) other)
          (Chain-snoc next (next y) z x zs real null (absent x y (z ∷ zs) out) once.1 rest),
    )

last_of-snoc : (y x : ℕ) (ys : List ℕ) → last_of (y ∷ ys ++ x ∷ []) ≡ x
last_of-snoc y x [] = refl
last_of-snoc y x (z ∷ zs) = last_of-snoc z x zs

Distinct-snoc : (x : ℕ) (xs : List ℕ) → has x xs ≡ false → Distinct xs → Distinct (xs ++ x ∷ [])
Distinct-snoc x [] out once = (refl, tt)
Distinct-snoc x (y ∷ ys) out once =
    (still x y ys (apart x y ys out) once.0, Distinct-snoc x ys (absent x y ys out) once.1)
  where
    still : (x y : ℕ) (ys : List ℕ) → x ≢ y → has y ys ≡ false → has y (ys ++ x ∷ []) ≡ false
    still x y [] ne h = rw (ne→== y x (λ e. ne (sym e))) refl
    still x y (z ∷ zs) ne h = rw (ne→== y z (apart y z zs h)) (still x y zs ne (absent y z zs h))

real_last : (next : Box ℕ) (p y : ℕ) (ys : List ℕ) → Chain next p (y ∷ ys) → last_of (y ∷ ys) ≢ 0
real_last next p y [] (at, real, rest) = real
real_last next p y (z ∷ zs) (at, real, rest) = real_last next (next y) z zs rest

-- On a list, an insertion of a node that is not null and not in the list, with nothing in between,
-- leaves the list with the node behind the others, whatever its `next` was.
pub push_back-IsList :
    (m : Memory) (xs : List ℕ) (x : ℕ)
    → IsList m xs
    → x ≢ 0
    → has x xs ≡ false
    → IsList (push_back x m) (xs ++ x ∷ [])
unfolding push_back
push_back-IsList m [] x l real out =
    let node : (x == 0) ≡ false = ne→== x 0 real in
    let empty : (m.last == 0) ≡ true = rw l.last (==_self 0) in
    rw (node, empty)
      (record { chain = (refl, real, rw (==_self x) refl); last = refl; once = (refl, tt) })
push_back-IsList m (y ∷ ys) x l real out =
    let node : (x == 0) ≡ false = ne→== x 0 real in
    let some_last : (m.last == 0) ≡ false =
      ne→== m.last 0 (λ z. real_last m.next m.first y ys l.chain (sym l.last ∙ z)) in
    let cleared : Box ℕ = update m.next x 0 in
    let linked =
      Chain-snoc cleared m.first y x ys real (rw (==_self x) refl) out l.once
        (Chain-update m.next x 0 m.first (y ∷ ys) out l.chain) in
    let linked_memory : ℕ → Memory =
      λ k. record { first = m.first; last = x; next = update cleared k x } in
    let pushed : linked_memory (last_of (y ∷ ys)) ≡ push_back x m =
      rw (node, some_last) (ap linked_memory (sym l.last)) in
    subst (λ q. IsList q (y ∷ ys ++ x ∷ [])) pushed
      (record {
        chain = linked;
        last = sym (last_of-snoc y x ys);
        once = Distinct-snoc x (y ∷ ys) out l.once;
      })
