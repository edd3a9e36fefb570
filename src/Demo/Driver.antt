-- ===== src/Demo/Driver.antt =====
-- `run_seq`, `summarize` and `main` of colocator/demo/run_demo.py: the modes in their order, and what is
-- written of each.
use cuda_schedule_project.Prelude.{
  ℕ, suc, Bool, true, false, not, ◌&&◌, Option, none, some, List, [], ◌∷◌, any, ◌==◌, if◌then◌else◌,
}
use cuda_schedule_project.Prelude.Int.{pos}
use cuda_schedule_project.Prelude.Dict.{Text, Dict}
use cuda_schedule_project.Prelude.Outcome.{Outcome, raises, returns, ◌>>=◌}
use cuda_schedule_project.Analyze.Pandas.{stable_sort}
use cuda_schedule_project.Frontend.Env.{Managed, kept, too_late, reexec, ensure_managed_env}
use cuda_schedule_project.Demo.{DemoError, zero_division, percentiles}

pub data Mode : Type 0 where
  seq streams colocated : Mode

-- `--mode`
pub data Choice : Type 0 where
  one : Mode → Choice
  every : Choice

unfoldable pub modes_of : Choice → List Mode
modes_of (one mode) = mode ∷ []
modes_of every = seq ∷ streams ∷ colocated ∷ []

abbrev pub is_colocated : Mode → Bool
is_colocated seq = false
is_colocated streams = false
is_colocated colocated = true

-- The bodies of the clients one after the other; one that raises ends the run.
unfoldable pub run_seq : {E A : Type 0} → List (Outcome E A) → Outcome E (List A)
run_seq [] = returns []
run_seq (body ∷ bodies) = do result ← body; results ← run_seq bodies; returns (result ∷ results)

-- What `summarize` reads of a client. Times are in ns.
pub record Summed : Type 0 where
  pub iters : ℕ
  pub lat : List ℕ
  pub loop : ℕ

-- The line of a client: its throughput and the percentiles of its latencies.
unfoldable pub summarize_client : {E : Type 0} → Summed → Outcome (DemoError E) (ℕ × ℕ)
summarize_client c =
    if c.loop == 0 then raises zero_division else percentiles (stable_sort (λ t. pos t) c.lat)

unfoldable pub summarize : {E : Type 0} → List Summed → Outcome (DemoError E) (Unit {0})
summarize [] = returns tt
summarize (c ∷ cs) = do _ ← summarize_client c; summarize cs

-- The results.json of a mode.
pub record Written (Res : Type 0) : Type 0 where
  pub mode : Mode
  pub result : Res
  pub window : ℕ × ℕ
  pub observer : Bool

-- How `main` ends: the interpreter is executed again, an error before the first mode, or the files
-- written and the error that ended the modes, if one did.
pub data MainEnd (E Res : Type 0) : Type 0 where
  replaced : Dict Text → MainEnd E Res
  torch_loaded_early : MainEnd E Res
  observer_failed : MainEnd E Res
  ran : List (Written Res) → Option (DemoError E) → MainEnd E Res

abbrev pub in_env : {E Res : Type 0} → Managed → MainEnd E Res → MainEnd E Res
in_env kept run = run
in_env too_late run = torch_loaded_early
in_env (reexec env) run = replaced env

-- `runner` is the run of a mode, `clients` what a run's summary reads, and `clock n` the n-th reading
-- of the clock.
module _ {E Res : Type 0} (runner : Mode → Outcome (DemoError E) Res) (clients : Res → List Summed)
    (clock : ℕ → ℕ) where
  abbrev pub Modes : Type 0
  Modes = List (Written Res) × Option (DemoError E)

  -- A mode's run: an error, or its file and the modes after it, unless its summary fails.
  abbrev pub after_run : Mode → Bool → ℕ → Outcome (DemoError E) Res → Modes → Modes
  after_run mode observer n (raises e) later = ([], some e)
  after_run mode observer n (returns res) later =
      let file : Written Res = record {
        mode = mode;
        result = res;
        window = (clock n, clock (suc n));
        observer = observer;
      } in
      after_summary file (summarize (clients res)) later
    where
      after_summary : Written Res → Outcome (DemoError E) (Unit {0}) → Modes → Modes
      after_summary file (raises e) later = (file ∷ [], some e)
      after_summary file (returns u) later = (file ∷ later.0, later.1)

  -- The loop of `main`, from the clock's reading `n` on.
  unfoldable pub run_modes : Bool → ℕ → List Mode → Modes
  run_modes observer n [] = ([], none)
  run_modes observer n (mode ∷ modes) =
      let later = run_modes observer (suc (suc n)) modes in
      after_run mode observer n (runner mode) later

  abbrev pub observed : (obs_ok : Bool) → Choice → Bool → MainEnd E Res
  observed obs_ok choice observer =
      let (files, error) = run_modes observer 0 (modes_of choice) in
      if observer && not obs_ok then observer_failed else ran files error

  -- `main`, for whether `obs_init` returns 0, whether torch is loaded, and the environment.
  unfoldable pub main :
      (obs_ok : Bool) (libcol : Text) (torch_loaded : Bool)
      → Dict Text
      → Choice
      → Bool
      → MainEnd E Res
  main obs_ok libcol torch_loaded env choice observer =
      let run = observed obs_ok choice observer in
      if any is_colocated (modes_of choice)
      then in_env (ensure_managed_env libcol torch_loaded env) run
      else run
