-- ===== src/Lattice.antt =====
-- packages/pmacc/include/spmacc/particles/initialization/SC.hpp: the simple cubic lattice that
-- particles are placed on. The floating-point scalars are a parameter; the counts of cells, one per
-- axis, are a list, with the x axis first.
pub mod Sites
pub mod Placed
mod Tests
use spearhed.Base.{
  ℕ, zero, suc, ◌+◌, ◌*◌, ◌/◌, ◌%◌, Box, update, u32, Bool, List, [], ◌∷◌, ltb, ◌==◌, ◌&&◌,
  if◌then◌else◌,
}

-- The scalars, with their conversions from and to `uint32_t`.
pub record Float (A : Type 0) : Type 0 where
  pub below : A → A → Bool
  pub at_most : A → A → Bool
  pub plus : A → A → A
  pub minus : A → A → A
  pub times : A → A → A
  pub divide : A → A → A
  pub pow : A → A → A
  pub of_count : ℕ → A
  pub to_count : A → ℕ
  pub zero_scalar : A
  pub half : A
  pub one_scalar : A
  pub four_epsilon : A

-- numSCLatticeSites: the loop, by the axes that are left.
unfoldable pub lattice_sites : List ℕ → ℕ → ℕ
lattice_sites [] prod = prod
lattice_sites (n ∷ counts) prod = lattice_sites counts ((prod * n) % u32)

pub num_sc_lattice_sites : List ℕ → ℕ
unfolding lattice_sites
num_sc_lattice_sites counts = lattice_sites counts 1

-- At least one cell.
abbrev pub at_least_one : ℕ → ℕ
at_least_one n = if n == 0 then 1 else n

module _ {A : Type 0} (fl : Float A) where
  unfoldable pub truncate_near_integer : A → ℕ
  truncate_near_integer value =
      let truncated = fl.to_count value in
      let scale = if fl.below fl.one_scalar value then value else fl.one_scalar in
      let tolerance = fl.times fl.four_epsilon scale in
      let next = (truncated + 1) % u32 in
      let distance_to_next = fl.minus (fl.of_count next) value in
      if fl.at_most fl.zero_scalar distance_to_next && fl.at_most distance_to_next tolerance
      then next
      else truncated

  -- The product of `Lx / L` over the extents behind the first.
  unfoldable pub ratio_product : A → List A → A → A
  ratio_product lx [] ratio = ratio
  ratio_product lx (l ∷ extents) ratio = ratio_product lx extents (fl.times ratio (fl.divide lx l))

  -- computeSCNumCells, for the extent `lx` and those of the other axes, `dim` in all.
  pub compute_sc_num_cells : ℕ → ℕ → A → List A → ℕ
  unfolding ratio_product
  compute_sc_num_cells dim num_particles lx extents =
      let nx_float =
        fl.pow (fl.times (fl.of_count num_particles) (ratio_product lx extents fl.one_scalar))
          (fl.divide fl.one_scalar (fl.of_count dim)) in
      let nx = fl.to_count nx_float in if ltb nx 1 then 1 else nx

  -- The counts of the axes behind the first, rounded to the nearest.
  unfoldable pub transverse_counts : A → List A → List ℕ
  transverse_counts spacing [] = []
  transverse_counts spacing (l ∷ extents) =
      at_least_one (fl.to_count (fl.plus (fl.divide l spacing) fl.half))
      ∷ transverse_counts spacing extents

  pub compute_sc_cell_counts : A → List A → A → List ℕ
  unfolding truncate_near_integer transverse_counts
  compute_sc_cell_counts lx extents spacing =
      at_least_one (truncate_near_integer (fl.divide lx spacing))
      ∷ transverse_counts spacing extents

  -- The coordinate of the middle of cell `ik` of `n`, between two ends.
  unfoldable pub cell_centre : A → A → ℕ → ℕ → A
  cell_centre low high n ik =
      let di = fl.divide (fl.minus high low) (fl.of_count n) in
      fl.plus low (fl.times (fl.plus (fl.of_count ik) fl.half) di)

  -- SC's operator() over a list of counts: the loop from axis `tag` on, with its accumulator.
  unfoldable pub place_axes : Box A → Box A → ℕ → List ℕ → ℕ → ℕ → Box A → Box A
  place_axes low high global_particle_idx [] tag accum relative_pos = relative_pos
  place_axes low high global_particle_idx (n ∷ counts) tag accum relative_pos =
      let ik = (global_particle_idx / accum) % n in
      place_axes low high global_particle_idx counts (suc tag) ((accum * n) % u32)
        (update relative_pos tag (cell_centre (low tag) (high tag) n ik))

  pub place : Box A → Box A → ℕ → List ℕ → Box A → Box A
  unfolding place_axes
  place low high global_particle_idx counts relative_pos =
      place_axes low high global_particle_idx counts 0 1 relative_pos

  -- The counts that the overload with one number derives, from the first extent and the others.
  unfoldable pub derived_counts : ℕ → A → List A → List ℕ
  derived_counts nx lx [] = []
  derived_counts nx lx (l ∷ extents) =
      at_least_one (fl.to_count (fl.plus (fl.divide (fl.times (fl.of_count nx) l) lx) fl.half))
      ∷ derived_counts nx lx extents

  -- SC's operator() over one number; `lx` and `extents` are the extents of the box.
  pub place_by_number : Box A → Box A → A → List A → ℕ → ℕ → Box A → Box A
  unfolding derived_counts place
  place_by_number low high lx extents global_particle_idx num_cells relative_pos =
      place low high global_particle_idx (num_cells ∷ derived_counts num_cells lx extents)
        relative_pos
