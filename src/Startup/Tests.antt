-- ===== src/Startup/Tests.antt =====
-- A run whose start throws.
use spearhed.Base.{◌≡◌, refl, Bool, true, false, [], ◌∷◌}
use spearhed.Startup.{
  VariablesMap, Stored, stored, CommandLine, Event, load_simulation, load_controller, load_plugins,
  start_simulation, finalize, Simulation, returned, status_of, store_config_files, parse, run_steps,
  run_status, run_simulation, exit_code, thrown,
}
use spearhed.Startup.Exit.{Ending, run_simulation-Ending}

abbrev options : VariablesMap
options = record { help = false; validate = false; version = false; config = true }

abbrev line : CommandLine
line = record {
  argc = 3;
  parse_command_line = stored options;
  config_files = λ vm. (λ vm'. stored vm') ∷ [];
  notify = λ vm. stored vm;
}

failing : Event → Bool
failing start_simulation = true
failing load_simulation = false
failing load_controller = false
failing load_plugins = false
failing spearhed.Startup.unload_plugins = false
failing spearhed.Startup.unload_controller = false
failing spearhed.Startup.unload_simulation = false
failing finalize = false

abbrev sim : Simulation
sim = record { throws = failing }

run_simulation-Ending_example :
    Ending sim line (run_simulation sim line).0 (exit_code (run_simulation sim line))
run_simulation-Ending_example = run_simulation-Ending sim line

aborted_start :
    run_simulation sim line
    ≡ (load_simulation ∷ load_controller ∷ load_plugins ∷ start_simulation ∷ finalize ∷ [], thrown)
unfolding run_simulation run_status run_steps failing parse status_of store_config_files
aborted_start = refl
