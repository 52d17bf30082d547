-- ===== src/Simulation.antt =====
-- include/spearhed/control/Simulation.x.cpp: the driver. What a test allocation, the driver's
-- memory report and the device's shape return are parameters; a step is the sequence of its stages
-- on the native queue, over the species whose buffers are present. Barriers of the ranks are left
-- out.
pub mod Memory
pub mod Devices
pub mod Stages
mod Tests
use spearhed.Base.{
  ℕ, zero, suc, ◌+◌, ◌-◌, ◌*◌, ◌/◌, ◌%◌, ltb, leb, ◌==◌, u64, Bool, true, false, not, ◌&&◌, ◌||◌,
  Option, none, some, List, [], ◌∷◌, ◌++◌, map, length, if◌then◌else◌,
}
use Prim.Native.Nat.{min}

-- `stepSize` of freeDeviceMemory, 16 MiB.
abbrev pub step_size : ℕ
step_size = 16777216

-- The do-while loop of freeDeviceMemory, in `size_t`s that wrap around; `alloc k n` tells whether
-- the `k`-th test allocation, of `n` bytes, succeeds; `none` means that the fuel ran out. The
-- result is the size and the number of the last attempt.
unfoldable pub probe : ℕ → (ℕ → ℕ → Bool) → ℕ → ℕ → ℕ → Option (ℕ × ℕ)
probe zero alloc k allocatable step = none
probe (suc fuel) alloc k allocatable step =
    let smaller = if ltb allocatable step then min allocatable (step / 2) else step in
    let reduced = (allocatable + u64 - smaller) % u64 in
    let rest = probe fuel alloc (suc k) reduced smaller in
    if alloc k allocatable
    then some (allocatable, k)
    else if reduced == 0
    then some (0, k)
    else rest

-- What freeDeviceMemory starts to test with, from what the driver reports.
unfoldable pub reported_memory : ℕ → ℕ → ℕ
reported_memory free num_ranks_per_device =
    let kept = if leb step_size free then free - step_size else free in
    if leb 2 num_ranks_per_device then kept / num_ranks_per_device else kept

unfoldable pub free_device_memory : (ℕ → ℕ → Bool) → ℕ → ℕ → Option (ℕ × ℕ)
free_device_memory alloc free num_ranks_per_device =
    let reported = reported_memory free num_ranks_per_device in
    probe (reported + 1) alloc 0 reported step_size

-- The check at the start of init: `false` where it throws.
unfoldable pub init_check : (ℕ → ℕ → Bool) → ℕ → ℕ → ℕ → Option Bool
init_check alloc free num_ranks_per_device reserved =
    elim (free_device_memory alloc free num_ranks_per_device) [
      | none ↦ none
      | some (n, k) ↦ some (not (ltb n reserved))
    ]

-- `while(v.size() < simDim) v.push_back(fill)`; `none` means that the fuel ran out.
unfoldable pub fill_up : ℕ → ℕ → ℕ → List ℕ → Option (List ℕ)
fill_up zero sim_dim fill v = none
fill_up (suc fuel) sim_dim fill v =
    let rest = fill_up fuel sim_dim fill (v ++ fill ∷ []) in
    if ltb (length v) sim_dim then rest else some v

-- pluginLoad, as far as initDevices: the devices and the periodicity per dimension; `none` where
-- the number of devices is refused.
unfoldable pub plugin_load : ℕ → List ℕ → List ℕ → Option (List ℕ × List ℕ)
plugin_load sim_dim devices periodic = elim (fill_up (sim_dim + 1) sim_dim 0 periodic) [
  | none ↦ none
  | some periodic' ↦
      let filled = fill_up (sim_dim + 1) sim_dim 1 devices in
      if leb 1 (length devices) && leb (length devices) sim_dim
      then elim filled [ none ↦ none | some devices' ↦ some (devices', periodic') ]
      else none
]

pub data Role : Type 0 where
  movable frozen source interior thermodynamic open_pmd_output : Role

-- A species: its name, whether it is the default one, and hasRole.
pub record Species : Type 0 where
  pub name : ℕ
  pub is_default : Bool
  pub has_role : Role → Bool

abbrev pub filter : (Species → Bool) → List Species → List Species
filter p [] = []
filter p (s ∷ ss) = if p s then s ∷ filter p ss else filter p ss

abbrev pub has_roles : List Role → Species → Bool
has_roles [] s = true
has_roles (r ∷ rs) s = s.has_role r && has_roles rs s

-- selectBuffers
unfoldable pub select_buffers : List Role → List Species → List Species
select_buffers roles buffers = filter (has_roles roles) buffers

-- selectTimestepBuffers
unfoldable pub select_timestep_buffers : List Species → List Species
select_timestep_buffers buffers = filter (λ s. s.has_role movable || s.is_default) buffers

-- What a step submits.
pub data Stage : Type 0 where
  refresh push_velocity euler_integrate : Species → Stage
  update_volumes : Stage
  calculate_neighbours : List Species → Stage
  update_density update_hydro_forces : Species → List Species → Stage

unfoldable pub find_default : List Species → Option Species
find_default [] = none
find_default (s ∷ ss) = if s.is_default then some s else find_default ss

-- runOneStep over the buffers that are present; `none` where the default buffer is missing.
unfoldable pub run_one_step : List Species → Option (List Stage)
run_one_step buffers = elim (find_default buffers) [
  | none ↦ none
  | some d ↦
      let sources = select_buffers (source ∷ []) buffers in
      some (
        map refresh (select_timestep_buffers buffers)
        ++ (map push_velocity (select_buffers (movable ∷ []) buffers)
            ++ (update_volumes
                ∷ calculate_neighbours sources
                ∷ update_density d sources
                ∷ update_hydro_forces d sources
                ∷ map euler_integrate (select_buffers (movable ∷ thermodynamic ∷ []) buffers))))
]
