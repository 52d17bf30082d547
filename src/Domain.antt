-- ===== src/Domain.antt =====
-- include/spearhed/control/DomainAdjuster.hpp: the sizes of the global domain and the offset of the
-- local one, from the local sizes of all MPI ranks. The ranks' contributions to a gather or a
-- reduction are a list. Sizes are `int`s by their 32 bits, those of the ranks not negative; the sum
-- of an offset is kept in 64 bits.
pub mod Adjust
pub mod Layout
mod Tests
use spearhed.Base.{
  ℕ, zero, suc, ◌+◌, ◌*◌, ◌/◌, ◌%◌, Box, update, u32, u64, i31, ◌-◌, ltb, ◌==◌, ◌&&◌, not, Bool,
  true, List, [], ◌∷◌, if◌then◌else◌,
}

-- What a rank brings to the collective operations.
pub record Rank : Type 0 where
  pub position : Box ℕ
  pub local_size : Box ℕ

-- DomainAdjuster, with its constructor's arguments and the mode.
pub record Adjuster : Type 0 where
  pub sim_dim : ℕ
  pub num_devices : Box ℕ
  pub mpi_position : Box ℕ
  -- what the grid controller's getPosition returns
  pub position : Box ℕ
  pub validate_only : Bool

pub record Sizes : Type 0 where
  pub global_domain_size : Box ℕ
  pub local_domain_size : Box ℕ
  pub local_domain_offset : Box ℕ

-- The end of an adjustment: the sizes, or the error with the dimension, the size and the one that
-- it suggests.
pub data Adjusted : Type 0 where
  adjusted : Sizes → Adjusted
  invalid_global_grid_size : ℕ → ℕ → ℕ → Adjusted

unfoldable pub product_of_components : ℕ → Box ℕ → ℕ
product_of_components zero sizes = 1
product_of_components (suc n) sizes = product_of_components n sizes * sizes n

unfoldable pub all_zero : ℕ → Box ℕ → Bool
all_zero zero position = true
all_zero (suc n) position = all_zero n position && (position n == 0)

-- The reduction of the ranks' `int`s, which wraps around.
unfoldable pub sum_local_sizes : ℕ → List Rank → ℕ
sum_local_sizes dim [] = 0
sum_local_sizes dim (r ∷ ranks) = (r.local_size dim + sum_local_sizes dim ranks) % u32

-- The quotient of an `int`, by its 32 bits, and a positive one: rounded towards zero.
unfoldable pub int_div : ℕ → ℕ → ℕ
int_div n m = if ltb n i31 then n / m else (u32 - (u32 - n) / m) % u32

-- The loop over the gathered positions and sizes.
unfoldable pub sum_below : ℕ → ℕ → List Rank → ℕ → ℕ
sum_below dim mpi_pos [] offset = offset
sum_below dim mpi_pos (r ∷ ranks) offset =
    sum_below dim mpi_pos ranks
      (if ltb (r.position dim) mpi_pos then (offset + r.local_size dim) % u64 else offset)

module _ (a : Adjuster) (world : List Rank) where
  -- The ranks that share a position along a dimension.
  unfoldable pub ranks_per_slice : ℕ → ℕ
  ranks_per_slice dim = product_of_components a.sim_dim a.num_devices / a.num_devices dim

  unfoldable pub valid_global_grid_size : ℕ → ℕ
  valid_global_grid_size dim = int_div (sum_local_sizes dim world) (ranks_per_slice dim)

  -- deriveGlobalDomainSize
  unfoldable pub derive_global_domain_size : ℕ → Sizes → Adjusted
  derive_global_domain_size dim s =
      let valid = valid_global_grid_size dim in
      if all_zero a.sim_dim a.mpi_position
        && not (valid == s.global_domain_size dim)
        && a.validate_only
      then invalid_global_grid_size dim (s.global_domain_size dim) valid
      else adjusted (record s { global_domain_size = update s.global_domain_size dim valid })

  -- updateLocalDomainOffset
  unfoldable pub update_local_domain_offset : ℕ → Sizes → Sizes
  update_local_domain_offset dim s = record s {
    local_domain_offset =
        update s.local_domain_offset dim
          ((sum_below dim (a.position dim) world 0 / ranks_per_slice dim) % u32);
  }

  -- The loop of operator() from dimension `dim` on.
  unfoldable pub adjust_from : ℕ → ℕ → Sizes → Adjusted
  adjust_from zero dim s = adjusted s
  adjust_from (suc rounds) dim s = elim (derive_global_domain_size dim s) [
    | invalid_global_grid_size d current valid ↦ invalid_global_grid_size d current valid
    | adjusted derived ↦ adjust_from rounds (suc dim) (update_local_domain_offset dim derived)
  ]

  -- operator()
  unfoldable pub adjust : Sizes → Adjusted
  adjust s = adjust_from a.sim_dim 0 s
