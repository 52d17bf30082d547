-- ===== src/Lattice/Sites.antt =====
-- The sites of a lattice and their numbers.
use native.Mathlib.Nat.{div-lt_iff_lt-mul, div-add-mod'}
use spearhed.Base.{
  ℕ, zero, suc, ◌+◌, ◌*◌, ◌/◌, ◌%◌, ◌<◌, ◌≤◌, ◌≡◌, sym, ap, ◌∙◌, arith, u32, List, [], ◌∷◌, All,
  length, get_or,
}
use spearhed.Lattice.{lattice_sites, num_sc_lattice_sites}

-- The number of sites, with no bound.
abbrev pub product : List ℕ → ℕ
product [] = 1
product (n ∷ counts) = n * product counts

-- The cell of a site on every axis, by the number of the site: its digits, the base by the axis.
abbrev pub cells : List ℕ → ℕ → List ℕ
cells [] idx = []
cells (n ∷ counts) idx = (idx % n) ∷ cells counts (idx / n)

-- The number of a site.
abbrev pub site : List ℕ → List ℕ → ℕ
site [] cells = 0
site (n ∷ counts) [] = 0
site (n ∷ counts) (k ∷ cells) = k + n * site counts cells

abbrev pub Positive : List ℕ → Type 0
Positive counts = All {0, 0} (λ n. 0 < n) counts

mul_pos : (a b : ℕ) → 0 < a → 0 < b → 0 < a * b
mul_pos a (suc b) x y = let e : a * suc b ≡ a * b + a = grind arith in omega (arith, e)
mul_pos a zero x y = elim y [ ]

pub mul_le : (a b : ℕ) → 0 < b → a ≤ a * b
mul_le a (suc b) y = let e : a * suc b ≡ a * b + a = grind arith in omega (arith, e)
mul_le a zero y = elim y [ ]

pub product-Positive : (counts : List ℕ) → Positive counts → 0 < product counts
product-Positive [] h = omega arith
product-Positive (n ∷ counts) (pos, rest) =
    let ih = product-Positive counts rest in mul_pos n (product counts) pos ih

pub quotient_lt : (idx n rest : ℕ) → 0 < n → idx < n * rest → idx / n < rest
quotient_lt idx n rest pos lt =
    let e : n * rest ≡ rest * n = grind arith in (div-lt_iff_lt-mul pos).1 (omega (arith, e))

-- Below the product, a site's number is that of its cells.
pub site-cells :
    (counts : List ℕ) (idx : ℕ)
    → Positive counts
    → idx < product counts
    → site counts (cells counts idx) ≡ idx
site-cells [] idx h lt = omega arith
site-cells (n ∷ counts) idx (pos, rest) lt =
    let ih = site-cells counts (idx / n) rest (quotient_lt idx n (product counts) pos lt) in
    ap (λ q. idx % n + n * q) ih
    ∙ (let e = div-add-mod' idx n in
        let c : n * (idx / n) ≡ idx / n * n = grind arith in omega (arith, e, c))

lattice_sites-product :
    (counts : List ℕ) (prod : ℕ)
    → Positive counts
    → prod * product counts < u32
    → lattice_sites counts prod ≡ prod * product counts
unfolding lattice_sites
lattice_sites-product [] prod h lt = omega arith
lattice_sites-product (n ∷ counts) prod (pos, rest) lt =
    let e : prod * (n * product counts) ≡ (prod * n) * product counts = grind arith in
    let below = mul_le (prod * n) (product counts) (product-Positive counts rest) in
    let same : (prod * n) % u32 ≡ prod * n = omega (arith, e, below, lt) in
    rw same (lattice_sites-product counts (prod * n) rest (omega (arith, e, lt)) ∙ sym e)

-- The number of sites is the product of the counts while it fits in 32 bits. `site` and `cells`, a
-- number in mixed radix and its digits, are for the proofs and translate no code.
pub num_sc_lattice_sites-product :
    (counts : List ℕ)
    → Positive counts
    → product counts < u32
    → (num_sc_lattice_sites counts ≡ product counts)
      × ((idx : ℕ) → idx < num_sc_lattice_sites counts → site counts (cells counts idx) ≡ idx)
unfolding num_sc_lattice_sites
num_sc_lattice_sites-product counts pos lt =
    let e : lattice_sites counts 1 ≡ product counts =
      lattice_sites-product counts 1 pos (omega arith) ∙ omega arith in
    (e, λ idx below. site-cells counts idx pos (rw e at below))

-- Equal cells on every axis are of equal numbers.
pub cells-injective :
    (counts : List ℕ) (a b : ℕ)
    → Positive counts
    → a < product counts
    → b < product counts
    → ((j : ℕ) → j < length counts → get_or (cells counts a) j 0 ≡ get_or (cells counts b) j 0)
    → a ≡ b
cells-injective [] a b pos a_lt b_lt same = omega arith
cells-injective (n ∷ counts) a b (pos, rest) a_lt b_lt same =
    let first : a % n ≡ b % n = same 0 (omega arith) in
    let quotients =
      cells-injective counts (a / n) (b / n) rest (quotient_lt a n (product counts) pos a_lt)
        (quotient_lt b n (product counts) pos b_lt) (λ j lt. same (suc j) (omega arith)) in
    let ea = div-add-mod' a n in
    let eb = div-add-mod' b n in omega (arith, ea, eb, first, ap (λ q. q * n) quotients)
