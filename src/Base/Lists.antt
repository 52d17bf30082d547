-- ===== src/Base/Lists.antt =====
-- Lists measured and indexed by native numbers, under the library's names.
use Prim.Native.Nat.{ℕ, zero, suc, ◌+◌}
use mathlib.Core.Path.{◌≡◌, refl, sym, ap, ◌∙◌}
use mathlib.Core.Logic.{◌⊎◌, inl, inr}
use mathlib.Core.List.{List, [], ◌∷◌, ◌++◌, map}
use native.Mathlib.Omega.{arith}

module _ {ℓ} {A : Type ℓ} where
  abbrev pub length : List A → ℕ
  length [] = 0
  length (x ∷ xs) = suc (length xs)

  abbrev pub get_or : List A → ℕ → A → A
  get_or [] i d = d
  get_or (x ∷ xs) zero d = x
  get_or (x ∷ xs) (suc i) d = get_or xs i d

  abbrev pub replicate : ℕ → A → List A
  replicate zero a = []
  replicate (suc n) a = a ∷ replicate n a

  pub length-append : (xs ys : List A) → length (xs ++ ys) ≡ length xs + length ys
  length-append [] ys = omega arith
  length-append (x ∷ xs) ys = omega (arith, length-append xs ys)

pub length-map {ℓ κ} :
    {A : Type ℓ} {B : Type κ} (xs : List A) (f : A → B) → length (map f xs) ≡ length xs
length-map [] f = refl
length-map (x ∷ xs) f = ap suc (length-map xs f)

-- A property of every entry, by recursion on the list.
abbrev pub All {ℓ κ} : {A : Type ℓ} → (A → Type κ) → List A → Type κ
All P [] = Unit
All P (x ∷ xs) = P x × All P xs

pub All-append {ℓ κ} :
    {A : Type ℓ} (P : A → Type κ) (xs ys : List A) → All P xs → All P ys → All P (xs ++ ys)
All-append P [] ys hx hy = hy
All-append P (x ∷ xs) ys hx hy = (hx.0, All-append P xs ys hx.1 hy)

pub All-mono {ℓ κ ι} :
    {A : Type ℓ} {P : A → Type κ} {Q : A → Type ι}
    → ((x : A) → P x → Q x)
    → (xs : List A) → All P xs
    → All Q xs
All-mono f [] h = tt
All-mono f (x ∷ xs) h = (f x h.0, All-mono f xs h.1)

-- Some entry of the list has the property.
abbrev pub Any {ℓ} : {A : Type ℓ} → (A → Type 0) → List A → Type 0
Any P [] = ⊥
Any P (x ∷ xs) = P x ⊎ Any P xs

pub Any-append {ℓ} :
    {A : Type ℓ} (P : A → Type 0) (xs ys : List A) → Any P xs ⊎ Any P ys → Any P (xs ++ ys)
Any-append P [] ys (inl h) = absurd h
Any-append P [] ys (inr h) = h
Any-append P (x ∷ xs) ys (inl (inl h)) = inl h
Any-append P (x ∷ xs) ys (inl (inr h)) = inr (Any-append P xs ys (inl h))
Any-append P (x ∷ xs) ys (inr h) = inr (Any-append P xs ys (inr h))

-- A loop over the entries of a list.
unfoldable pub visit {ℓ κ} : {X : Type ℓ} {S : Type κ} → (X → S → S) → List X → S → S
visit body [] s = s
visit body (x ∷ xs) s = visit body xs (body x s)

pub visit-append {ℓ κ} :
    {X : Type ℓ} {S : Type κ} (body : X → S → S) (xs ys : List X) (s : S)
    → visit body (xs ++ ys) s ≡ visit body ys (visit body xs s)
unfolding visit
visit-append body [] ys s = refl
visit-append body (x ∷ xs) ys s = visit-append body xs ys (body x s)

pub visit_congr {ℓ κ} :
    {X : Type ℓ} {S : Type κ} (f g : X → S → S)
    → ((x : X) (s : S) → f x s ≡ g x s)
    → (xs : List X) (s : S) → visit f xs s ≡ visit g xs s
unfolding visit
visit_congr f g h [] s = refl
visit_congr f g h (x ∷ xs) s = ap (visit f xs) (h x s) ∙ visit_congr f g h xs (g x s)

-- The lists that the entries stand for, one after another.
abbrev pub concat_map {ℓ κ} : {X : Type ℓ} {Y : Type κ} → (X → List Y) → List X → List Y
concat_map f [] = []
concat_map f (x ∷ xs) = f x ++ concat_map f xs

-- Nested loops are one loop.
pub visit-concat_map {ℓ κ ι} :
    {X : Type ℓ} {Y : Type κ} {S : Type ι} (f : X → List Y) (body : Y → S → S) (xs : List X) (s : S)
    → visit (λ x. visit body (f x)) xs s ≡ visit body (concat_map f xs) s
unfolding visit
visit-concat_map f body [] s = refl
visit-concat_map f body (x ∷ xs) s =
    visit-concat_map f body xs (visit body (f x) s)
    ∙ sym (visit-append body (f x) (concat_map f xs) s)

pub visit-map {ℓ κ ι} :
    {X : Type ℓ} {Y : Type κ} {S : Type ι} (f : X → Y) (body : Y → S → S) (xs : List X) (s : S)
    → visit body (map f xs) s ≡ visit (λ x. body (f x)) xs s
unfolding visit
visit-map f body [] s = refl
visit-map f body (x ∷ xs) s = visit-map f body xs (body (f x) s)
