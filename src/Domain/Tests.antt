-- ===== src/Domain/Tests.antt =====
-- Four ranks in two columns and two rows.
use spearhed.Base.{
  ℕ, ◌≡◌, refl, arith, Box, ◌==◌, true, false, List, [], ◌∷◌, if◌then◌else◌, prefix_sum,
}
use spearhed.Domain.{
  Rank, Adjuster, Sizes, invalid_global_grid_size, valid_global_grid_size, adjust_from,
  derive_global_domain_size, all_zero, update_local_domain_offset, adjust, ranks_per_slice,
  sum_local_sizes, product_of_components,
}
use spearhed.Domain.Adjust.{offset, Outcome, adjust-Outcome}
use spearhed.Domain.Layout.{IsGrid, sizes-IsGrid}

-- Columns are 10 and 30 wide, rows 5 and 7.
abbrev wide : Box ℕ
wide q = if q == 0 then 10 else 30

abbrev rank : ℕ → ℕ → Rank
rank x y = record {
  position = λ d. if d == 0 then x else y;
  local_size = λ d. if d == 0 then wide x else if y == 0 then 5 else 7;
}

abbrev world : List Rank
world = rank 0 0 ∷ rank 0 1 ∷ rank 1 0 ∷ rank 1 1 ∷ []

abbrev master : Adjuster
master = record {
  sim_dim = 2;
  num_devices = λ d. 2;
  mpi_position = λ d. 0;
  position = λ d. 0;
  validate_only = true;
}

abbrev other : Adjuster
other = record {
  sim_dim = 2;
  num_devices = λ d. 2;
  mpi_position = λ d. 1;
  position = λ d. 1;
  validate_only = false;
}

abbrev given : Sizes
given = record {
  global_domain_size = λ d. if d == 0 then 40 else 13;
  local_domain_size = λ d. 5;
  local_domain_offset = λ d. 0;
}

adjust-Outcome_example : Outcome master world 0 2 given (adjust master world given)
adjust-Outcome_example = adjust-Outcome master world given

refused : adjust master world given ≡ invalid_global_grid_size 1 13 12
unfolding adjust adjust_from derive_global_domain_size all_zero valid_global_grid_size
    sum_local_sizes ranks_per_slice product_of_components update_local_domain_offset
    spearhed.Domain.int_div
refused = refl

columns : IsGrid other world 0 wide
unfolding ranks_per_slice product_of_components
columns = record {
  populated = omega arith;
  in_grid = (omega arith, (omega arith, (omega arith, (omega arith, tt))));
  slices = λ q lt. ground arith;
  by_slice = (refl, (refl, (refl, (refl, tt))));
}

sizes-IsGrid_example :
    (valid_global_grid_size other world 0 ≡ prefix_sum wide 2)
    × (offset other world 0 ≡ prefix_sum wide 1)
unfolding product_of_components prefix_sum
sizes-IsGrid_example =
    sizes-IsGrid other world 0 wide columns (omega arith) (unfold ranks_per_slice in omega arith)
