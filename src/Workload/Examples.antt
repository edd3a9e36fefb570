-- ===== src/Workload/Examples.antt =====
-- A workload on a slow and on a fast GPU, and the theorems there.
use cuda_schedule_project.Prelude.{ℕ, ◌+◌, ◌*◌, ◌≤◌, ◌≡◌, refl, none, some, [], ◌∷◌, length, arith}
use cuda_schedule_project.Workload.{
  Workload, new_workload, depth, calibrate_probes, admit, run_iter, run_iters, calibrate,
  calibrated_iters, round_div,
}
use cuda_schedule_project.Workload.Calibrate.{calibrated_iters_near}
use cuda_schedule_project.Workload.Slots.{IsPipelined, SlotFree, new_workload-IsPipelined}
use cuda_schedule_project.Workload.Pipeline.{run_iters-IsPipelined}
use cuda_schedule_project.Workload.Calls.{start, next, iteration, calibrated, Reach-safe}

-- A GPU that ends nothing by itself, and one that has always ended the oldest iteration.
abbrev slow : ℕ → ℕ
slow n = 0

abbrev fast : ℕ → ℕ
fast n = 1

-- The second iteration of three is still in flight when the third is launched.
three_iterations :
    (run_iters slow 3 (new_workload none)).stream ≡ record { launched = 3; pending = 1 ∷ 0 ∷ [] }
unfolding run_iters new_workload
three_iterations = refl

calibrate_10_ms : calibrated_iters 500 40_000_000 ≡ 50
unfolding calibrated_iters round_div
calibrate_10_ms = refl

calibrate_forced : calibrate slow 500 1 (new_workload (some 7)) ≡ new_workload (some 7)
unfolding calibrate new_workload
calibrate_forced = refl

abbrev two_in_flight : Workload
two_in_flight = run_iters slow 2 (new_workload none)

two-IsPipelined : IsPipelined two_in_flight
two-IsPipelined = run_iters-IsPipelined slow 2 (new_workload none) (new_workload-IsPipelined none)

calibrated_iters_near_example :
    (2 * (500 * 1_000_000 * calibrate_probes)
      ≤ 2 * (calibrated_iters 500 40_000_000 * 40_000_000) + 40_000_000)
    × (2 * (calibrated_iters 500 40_000_000 * 40_000_000)
        ≤ 2 * (500 * 1_000_000 * calibrate_probes) + 40_000_000)
calibrated_iters_near_example =
    calibrated_iters_near 500 40_000_000 (omega arith) (omega arith) (omega arith)

abbrev warmed_up : Workload
warmed_up = (run_iter fast (calibrate fast 500 40_000_000 (new_workload none))).0

Reach-safe_example :
    (length warmed_up.stream.pending ≤ depth)
    × SlotFree (run_iter fast warmed_up).1 (admit warmed_up).stream.pending
Reach-safe_example =
    Reach-safe fast {iters = none} (next (next start (calibrated 500 40_000_000)) iteration)
