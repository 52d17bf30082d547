-- ===== src/Simulation/Tests.antt =====
-- A probe that fails twice, two devices in three dimensions, and a step over three species.
use spearhed.Base.{ℕ, ◌≡◌, refl, arith, leb, Bool, true, false, some, List, [], ◌∷◌}
use spearhed.Simulation.{
  Role, movable, frozen, source, interior, thermodynamic, open_pmd_output, Species, Stage,
  find_default, select_buffers, run_one_step, free_device_memory, reported_memory, plugin_load,
  probe,
}
use spearhed.Simulation.Memory.{IsProbed, free_device_memory-IsProbed}
use spearhed.Simulation.Devices.{plugin_load-replicate}
use spearhed.Simulation.Stages.{IsOrdered, IsComplete, run_one_step-IsOrdered}

-- At most 20 MB can be had.
abbrev alloc : ℕ → ℕ → Bool
alloc k n = leb n 20000000

free_device_memory-IsProbed_example :
    (out : ℕ × ℕ) × (free_device_memory alloc 70000000 1 ≡ some out)
    × IsProbed alloc (reported_memory 70000000 1) out
free_device_memory-IsProbed_example = free_device_memory-IsProbed alloc 70000000 1 (omega arith)

third_try : probe 9 alloc 0 53222784 16777216 ≡ some (19668352, 2)
unfolding probe
third_try = refl

plugin_load-replicate_example :
    plugin_load 3 (2 ∷ 4 ∷ []) [] ≡ some (2 ∷ 4 ∷ 1 ∷ [], 0 ∷ 0 ∷ 0 ∷ [])
plugin_load-replicate_example = plugin_load-replicate 3 (2 ∷ 4 ∷ []) [] (omega arith) (omega arith)

fluid_roles : Role → Bool
fluid_roles r = true

wall_roles : Role → Bool
wall_roles movable = false
wall_roles frozen = true
wall_roles source = true
wall_roles interior = false
wall_roles thermodynamic = false
wall_roles open_pmd_output = true

abbrev fluid : Species
fluid = record { name = 0; is_default = true; has_role = fluid_roles }

abbrev wall : Species
wall = record { name = 1; is_default = false; has_role = wall_roles }

found : find_default (wall ∷ fluid ∷ []) ≡ some fluid
unfolding find_default
found = refl

run_one_step-IsOrdered_example :
    (stages : List Stage) × (run_one_step (wall ∷ fluid ∷ []) ≡ some stages)
    × IsOrdered
        (select_buffers (movable ∷ []) (wall ∷ fluid ∷ []))
        fluid
        (select_buffers (source ∷ []) (wall ∷ fluid ∷ []))
        (λ y. ⊥)
        stages
    × IsComplete (wall ∷ fluid ∷ []) fluid stages
run_one_step-IsOrdered_example = run_one_step-IsOrdered (wall ∷ fluid ∷ []) fluid found
