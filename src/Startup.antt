-- ===== src/Startup.antt =====
-- include/spearhed/ArgsParser.cpp, main.x.cpp and control/SimulationStarter.hpp: from the command
-- line to the exit code. What Boost's program_options makes of the command line and the files is a
-- parameter, and so is whether a part of the simulation throws.
pub mod Exit
mod Tests
use spearhed.Base.{ℕ, Bool, List, [], ◌∷◌, ◌++◌, ◌==◌, if◌then◌else◌}

-- The options that the parser itself looks at.
pub record VariablesMap : Type 0 where
  pub help : Bool
  pub validate : Bool
  pub version : Bool
  pub config : Bool

-- The end of a call into the library: what is stored, an error of program_options, or another
-- exception.
pub data Stored : Type 0 where
  stored : VariablesMap → Stored
  po_error other_exception : Stored

pub record CommandLine : Type 0 where
  pub argc : ℕ
  pub parse_command_line : Stored
  pub config_files : VariablesMap → List (VariablesMap → Stored)
  pub notify : VariablesMap → Stored

-- ArgsParser::Status
pub data Status : Type 0 where
  error success success_exit : Status

-- A call that returns, or throws.
pub data Result (A : Type 0) : Type 0 where
  returned : A → Result A
  thrown : Result A

unfoldable pub store_config_files : List (VariablesMap → Stored) → VariablesMap → Stored
store_config_files [] vm = stored vm
store_config_files (file ∷ files) vm = elim (file vm) [
  | stored next ↦ store_config_files files next
  | po_error ↦ po_error
  | other_exception ↦ other_exception
]

-- What is left of parse behind the call of notify.
unfoldable pub status_of : ℕ → VariablesMap → Status
status_of argc vm =
    if vm.help
    then success_exit
    else if vm.version
    then success_exit
    else if argc == 1
    then error
    else if vm.validate
    then success_exit
    else success

-- ArgsParser::parse
unfoldable pub parse : CommandLine → Result Status
parse line = elim line.parse_command_line [
  | po_error ↦ returned error
  | other_exception ↦ thrown
  | stored vm ↦
      elim (if vm.config then store_config_files (line.config_files vm) vm else stored vm) [
        | po_error ↦ returned error
        | other_exception ↦ thrown
        | stored all ↦ elim (line.notify all) [
          | po_error ↦ returned error
          | other_exception ↦ thrown
          | stored notified ↦ returned (status_of line.argc notified)
        ]
      ]
]

-- What happens, in its order.
pub data Event : Type 0 where
  load_simulation load_controller load_plugins start_simulation : Event
  unload_plugins unload_controller unload_simulation finalize : Event

-- Which of the calls throw.
pub record Simulation : Type 0 where
  pub throws : Event → Bool

-- pluginLoad, start and pluginUnload of SimulationStarter, by their calls.
abbrev pub load : List Event
load = load_simulation ∷ load_controller ∷ []

abbrev pub start : List Event
start = load_plugins ∷ start_simulation ∷ []

abbrev pub unload : List Event
unload = unload_plugins ∷ unload_controller ∷ unload_simulation ∷ []

-- The events, and the error code unless an exception ends them.
abbrev pub Trace : Type 0
Trace = List Event × Result ℕ

-- The calls one after another, up to one that throws.
unfoldable pub run_steps : Simulation → List Event → Trace
run_steps sim [] = ([], returned 0)
run_steps sim (event ∷ events) =
    let rest = run_steps sim events in
    if sim.throws event then (event ∷ [], thrown) else (event ∷ rest.0, rest.1)

-- The switch of runSimulation.
unfoldable pub run_status : Simulation → Status → Trace
run_status sim error = ([], returned 1)
run_status sim success = run_steps sim (load ++ (start ++ unload))
run_status sim success_exit = ([], returned 0)

-- runSimulation; the finalizer runs on every way out.
unfoldable pub run_simulation : Simulation → CommandLine → Trace
run_simulation sim line = elim (parse line) [
  | thrown ↦ (finalize ∷ [], thrown)
  | returned status ↦ ((run_status sim status).0 ++ (finalize ∷ []), (run_status sim status).1)
]

-- main: the exit code.
unfoldable pub exit_code : Trace → ℕ
exit_code (events, result) = elim result [ returned code ↦ code | thrown ↦ 1 ]
