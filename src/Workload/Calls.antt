-- ===== src/Workload/Calls.antt =====
-- The methods of a workload called in any order.
use cuda_schedule_project.Prelude.{ℕ, ◌≤◌, Option, length}
use cuda_schedule_project.Workload.{
  Workload, new_workload, depth, admit, drain, run_iter, run_iter_sync, calibrate,
}
use cuda_schedule_project.Workload.Slots.{
  IsPipelined, new_workload-IsPipelined, SlotFree, in_flight_le,
}
use cuda_schedule_project.Workload.Pipeline.{
  run_iter-IsPipelined, run_iter_sync-IsPipelined, drain-IsPipelined, calibrate-IsPipelined,
}

module _ (gpu : ℕ → ℕ) where
  pub data Step (w : Workload) : Workload → Type 0 where
    iteration : Step w (run_iter gpu w).0
    synced : Step w (run_iter_sync gpu w).0
    drained : Step w (drain w)
    calibrated : (target elapsed : ℕ) → Step w (calibrate gpu target elapsed w)

  -- The states that the methods of a workload reach, called in any order.
  pub data Reach (iters : Option ℕ) : Workload → Type 0 where
    start : Reach iters (new_workload iters)
    next : {w w' : Workload} → Reach iters w → Step w w' → Reach iters w'

  Step-IsPipelined : {w w' : Workload} → Step w w' → IsPipelined w → IsPipelined w'
  Step-IsPipelined {w} iteration v = (run_iter-IsPipelined gpu w v).0
  Step-IsPipelined {w} synced v = (run_iter_sync-IsPipelined gpu w v).0
  Step-IsPipelined {w} drained v = drain-IsPipelined gpu w v
  Step-IsPipelined {w} (calibrated target elapsed) v = calibrate-IsPipelined gpu target elapsed w v

  Reach-IsPipelined : {iters : Option ℕ} {w : Workload} → Reach iters w → IsPipelined w
  Reach-IsPipelined {iters} start = new_workload-IsPipelined iters
  Reach-IsPipelined (next r s) = Step-IsPipelined s (Reach-IsPipelined r)

  -- Whatever the speed of the GPU, and in whatever order `run_iter`, `run_iter_sync`, `drain` and
  -- `calibrate` are called from the start: at most two iterations are in flight, and the next
  -- `run_iter` launches when no iteration in flight uses the buffer that it writes and returns.
  pub Reach-safe :
      {iters : Option ℕ} {w : Workload}
      → Reach iters w
      → (length w.stream.pending ≤ depth) × SlotFree (run_iter gpu w).1 (admit w).stream.pending
  Reach-safe {iters} {w} r =
      let v = Reach-IsPipelined r in (in_flight_le v, (run_iter-IsPipelined gpu w v).2)
