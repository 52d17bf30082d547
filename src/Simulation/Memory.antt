-- ===== src/Simulation/Memory.antt =====
-- The memory probe: it ends, and its answer was allocated.
use Prim.Native.Nat.{min}
use spearhed.Base.{
  ℕ, zero, suc, ◌+◌, ◌-◌, ◌/◌, ◌≤◌, ◌<◌, ◌≡◌, ◌⊎◌, refl, arith, inl, inr, ltb, ◌==◌, ◌%◌, u64, Bool,
  true, some, if◌then◌else◌, Bool-cases,
}
use spearhed.Simulation.{step_size, probe, reported_memory, free_device_memory}

-- The answer is not larger than what was asked for first, and it is zero or was just allocated.
abbrev pub IsProbed : (ℕ → ℕ → Bool) → ℕ → ℕ × ℕ → Type 0
IsProbed alloc most (n, k) = (n ≤ most) × ((n ≡ 0) ⊎ (alloc k n ≡ true))

probe-IsProbed :
    (fuel : ℕ) (alloc : ℕ → ℕ → Bool) (k allocatable step : ℕ)
    → 0 < step
    → allocatable < u64
    → allocatable < fuel
    → (out : ℕ × ℕ) × (probe fuel alloc k allocatable step ≡ some out)
      × IsProbed alloc allocatable out
unfolding probe
probe-IsProbed zero alloc k allocatable step positive word lt = elim lt [ ]
probe-IsProbed (suc fuel) alloc k allocatable step positive word lt =
    elim (Bool-cases (alloc k allocatable)) [
      | inl ok ↦ rw ok ((allocatable, k), refl, (omega arith, inr ok))
      | inr failed ↦ elim (Bool-cases (reduced == 0)) [
        | inl none_left ↦ rw (failed, none_left) ((0, k), refl, (omega arith, inl refl))
        | inr left ↦
            let (out, e, (le, answer)) =
              probe-IsProbed fuel alloc (suc k) reduced smaller (ground arith) (omega arith)
                (ground arith) in
            rw (failed, left) (out, e, (ground arith, answer))
      ]
    ]
  where
    smaller : ℕ
    smaller = if ltb allocatable step then min allocatable (step / 2) else step

    reduced : ℕ
    reduced = (allocatable + u64 - smaller) % u64

reported_word :
    (free num_ranks_per_device : ℕ) → free < u64 → reported_memory free num_ranks_per_device < u64
unfolding reported_memory
reported_word free num_ranks_per_device word = ground (arith, div_le)
  where
    div_le : (a b : ℕ) → a / b ≤ a
    div_le a b = omega arith

-- Whatever the test allocations return, from a free memory that fits a 64-bit word, the loop of
-- freeDeviceMemory ends, with at most the memory that it started from, and either nothing or a size
-- that its last test allocated.
pub free_device_memory-IsProbed :
    (alloc : ℕ → ℕ → Bool) (free num_ranks_per_device : ℕ)
    → free < u64
    → (out : ℕ × ℕ) × (free_device_memory alloc free num_ranks_per_device ≡ some out)
      × IsProbed alloc (reported_memory free num_ranks_per_device) out
unfolding free_device_memory
free_device_memory-IsProbed alloc free num_ranks_per_device word =
    probe-IsProbed (reported_memory free num_ranks_per_device + 1) alloc 0
      (reported_memory free num_ranks_per_device) step_size (omega arith)
      (reported_word free num_ranks_per_device word) (omega arith)
