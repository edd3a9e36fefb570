-- ===== src/Registry/Script.antt =====
-- The script of workloads.py: one workload alone, calibrated, checked and timed.
use cuda_schedule_project.Prelude.{ℕ, Bool, true, Option, none, some, List, if◌then◌else◌}
use cuda_schedule_project.Prelude.Int.{pos}
use cuda_schedule_project.Prelude.Outcome.{Outcome, raises, returns, ◌>>=◌}
use cuda_schedule_project.Workload.{Workload, calibrate, drain}
use cuda_schedule_project.Analyze.Pandas.{stable_sort}
use cuda_schedule_project.Demo.{DemoError, or_zero, checked, timed, percentiles}

pub data ScriptError : Type 0 where
  -- `sys.exit(1)` of a failed check
  check_failed : ScriptError
  no_latencies : ScriptError

-- What the script prints of a workload: the latencies, their percentiles, and the workload at the
-- end.
pub record Timing : Type 0 where
  pub lat : List ℕ
  pub percentiles : ℕ × ℕ
  pub final : Workload

abbrev pub passes : Option Bool → Bool
passes none = true
passes (some ok) = ok

abbrev pub lift_percentiles : Outcome (DemoError (Unit {0})) (ℕ × ℕ) → Outcome ScriptError (ℕ × ℕ)
lift_percentiles (raises e) = raises no_latencies
lift_percentiles (returns p) = returns p

-- `main` with `--client`. `gpu` is the GPU's progress, `lap` the time of each iteration, and `check`
-- the calls that the check makes and its verdict, with `--check`. `torch.cuda.synchronize()` before the
-- timed loop changes nothing of the workload, and is left out.
module _ (gpu lap : ℕ → ℕ) where
  unfoldable pub script :
      (target elapsed : ℕ) → Option (ℕ × Bool) → Workload → Outcome ScriptError Timing
  script target elapsed check w =
      let (w', ok) = checked gpu lap check (calibrate gpu target elapsed w) in
      let (last, lat) = timed gpu lap 0 (or_zero w'.iters) w' in
      let timing = (do
        p ← lift_percentiles (percentiles (stable_sort (λ t. pos t) lat))
        returns (record { lat = lat; percentiles = p; final = drain last })) in
      if passes ok then timing else raises check_failed
