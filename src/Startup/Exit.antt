-- ===== src/Startup/Exit.antt =====
-- What the exit code tells.
use spearhed.Base.{
  ℕ, ◌≡◌, ◌⊎◌, refl, ap, inl, inr, true, false, List, [], ◌∷◌, ◌++◌, Bool-cases, All,
}
use spearhed.Startup.{
  CommandLine, Status, error, success, success_exit, Result, returned, thrown, parse, Event,
  finalize, load, start, unload, Simulation, run_steps, run_status, run_simulation, exit_code,
}

-- The steps of a full run, in their order.
abbrev pub steps : List Event
steps = load ++ (start ++ unload)

-- The first events of the steps, up to one that throws.
pub record Aborted (sim : Simulation) (steps events : List Event) : Type 0 where
  pub before : List Event
  pub failed : Event
  pub after : List Event
  pub split : steps ≡ before ++ (failed ∷ after)
  pub seen : events ≡ before ++ (failed ∷ [])
  pub calm : All {0, 0} (λ e. sim.throws e ≡ false) before
  pub throws : sim.throws failed ≡ true

-- The ways in which a run ends.
pub data Ending (sim : Simulation) (line : CommandLine) (events : List Event) (code : ℕ)
    : Type 0 where
  completed :
      parse line ≡ returned success
      → All {0, 0} (λ e. sim.throws e ≡ false) steps
      → events ≡ steps ++ (finalize ∷ [])
      → code ≡ 0
      → Ending sim line events code
  aborted :
      parse line ≡ returned success
      → (prefix : List Event) → Aborted sim steps prefix
      → events ≡ prefix ++ (finalize ∷ [])
      → code ≡ 1
      → Ending sim line events code
  asked_to_exit :
      parse line ≡ returned success_exit
      → events ≡ finalize ∷ []
      → code ≡ 0
      → Ending sim line events code
  refused :
      (parse line ≡ returned error) ⊎ (parse line ≡ thrown)
      → events ≡ finalize ∷ []
      → code ≡ 1
      → Ending sim line events code

run_steps-cases :
    (sim : Simulation) (events : List Event)
    → (All {0, 0} (λ e. sim.throws e ≡ false) events
        × (run_steps sim events ≡ (events, returned 0)))
      ⊎ (Aborted sim events (run_steps sim events).0 × ((run_steps sim events).1 ≡ thrown))
unfolding run_steps
run_steps-cases sim [] = inl (tt, refl)
run_steps-cases sim (event ∷ events) = elim (Bool-cases (sim.throws event)) [
  | inl t ↦ rw t (
      inr (
        record {
          before = [];
          failed = event;
          after = events;
          split = refl;
          seen = refl;
          calm = tt;
          throws = t;
        },
        refl,
      ))
  | inr c ↦ elim (run_steps-cases sim events) [
    | inl (calm, e) ↦ rw (c, e, run_steps) (inl ((refl, calm), refl))
    | inr (a, thrown_after) ↦
        rw (c, run_steps)
          (inr (
            record {
              before = event ∷ a.before;
              failed = a.failed;
              after = a.after;
              split = ap (λ es. event ∷ es) a.split;
              seen = ap (λ es. event ∷ es) a.seen;
              calm = (c, a.calm);
              throws = a.throws;
            },
            thrown_after,
          ))
  ]
]

-- A run ends in one of four ways, and the environment is finalized last in each: all steps in
-- their order and code 0; the steps up to the first that throws and code 1; no step and code 0, for
-- a parser that asks to exit; no step and code 1, for a parser that reports an error or throws.
pub run_simulation-Ending :
    (sim : Simulation) (line : CommandLine)
    → Ending sim line (run_simulation sim line).0 (exit_code (run_simulation sim line))
unfolding run_simulation run_status exit_code
run_simulation-Ending sim line = elim (Result-cases (parse line)) [
  | inl t ↦ rw (t, run_simulation) (refused (inr t) refl refl)
  | inr (s, e) ↦ rw (e, run_simulation) (of_status s e)
]
  where
    Result-cases : {A : Type 0} (r : Result A) → (r ≡ thrown) ⊎ ((a : A) × (r ≡ returned a))
    Result-cases thrown = inl refl
    Result-cases (returned a) = inr (a, refl)

    of_status :
        (s : Status)
        → parse line ≡ returned s
        → Ending sim line
            ((run_status sim s).0 ++ (finalize ∷ []))
            (exit_code ((run_status sim s).0 ++ (finalize ∷ []), (run_status sim s).1))
    of_status error e = refused (inl e) refl refl
    of_status success_exit e = asked_to_exit e refl refl
    of_status success e = elim (run_steps-cases sim steps) [
      | inl (calm, ran) ↦ rw ran (completed e calm refl refl)
      | inr (a, ended) ↦ rw ended (aborted e _ a refl refl)
    ]
