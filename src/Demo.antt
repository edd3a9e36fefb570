-- ===== src/Demo.antt =====
-- colocator/demo/run_demo.py: the body of a client, the three modes and their summary.
pub mod Body
pub mod Modes
pub mod Summary
pub mod Driver
pub mod Windows
pub mod Ends
pub mod DriverExamples
pub mod Examples
use cuda_schedule_project.Prelude.{
  ℕ, zero, suc, ◌+◌, ◌-◌, ◌*◌, ◌/◌, String, Bool, true, false, not, Option, none, some, List, [],
  ◌∷◌, ◌++◌, map, select, any, length, get_elem?, replicate, ltb, ◌==◌, if◌then◌else◌,
}
use Prim.Native.Nat.{min}
use cuda_schedule_project.Prelude.Int.{ℤ, pos}
use cuda_schedule_project.Prelude.Dict.{Text, Dict, get}
use cuda_schedule_project.Prelude.Outcome.{Outcome, raises, returns, ◌>>=◌}
use cuda_schedule_project.Workload.{Workload, run_iter, run_iter_sync, run_iters, drain, calibrate}
use cuda_schedule_project.Frontend.Barrier.{Client}
use cuda_schedule_project.Frontend.Launch.{
  FrontendError, new_colocator, prepare, check_errors, result_of, dump_issue_log, launch,
}

abbrev pub warmup : ℕ
warmup = 3

-- What `client_body` returns of its pipeline: `barrier` is the workload when it crosses the
-- barrier, `final` the one at the end.
pub record ClientRun : Type 0 where
  pub iters : Option ℕ
  pub check : Option Bool
  pub lat : List ℕ
  pub barrier : Workload
  pub final : Workload

abbrev pub or_zero : Option ℕ → ℕ
or_zero none = 0
or_zero (some n) = n

-- `gpu` is the GPU's progress at each launch, `lap` the time of each timed iteration.
module _ (gpu lap : ℕ → ℕ) where
  -- The workload after `run_iter_sync`, as often as its `check` calls it.
  unfoldable pub run_checks : ℕ → Workload → Workload
  run_checks zero w = w
  run_checks (suc n) w = run_checks n (run_iter_sync gpu w).0

  -- `client.check() if check else None`, with the calls that the check makes and its verdict.
  abbrev pub checked : Option (ℕ × Bool) → Workload → Workload × Option Bool
  checked none w = (w, none)
  checked (some (calls, verdict)) w = (run_checks calls w, some verdict)

  -- The timed loop, from iteration `i` on.
  unfoldable pub timed : ℕ → ℕ → Workload → Workload × List ℕ
  timed i zero w = (w, [])
  timed i (suc n) w = let (final, lat) = timed (suc i) n (run_iter gpu w).0 in (final, lap i ∷ lat)

  unfoldable pub client_body : (target elapsed : ℕ) → Option (ℕ × Bool) → Workload → ClientRun
  client_body target elapsed check w =
      let (w', check_ok) = checked check (calibrate gpu target elapsed w) in
      let barrier = drain (run_iters gpu warmup w') in
      let (last, lat) = timed 0 (or_zero barrier.iters) barrier in
      record {
        iters = barrier.iters;
        check = check_ok;
        lat = lat;
        barrier = barrier;
        final = drain last;
      }

pub data DemoError (E : Type 0) : Type 0 where
  index_error zero_division : DemoError E
  -- a workload that is not registered
  key_error : Text → DemoError E
  -- `sys.exit` of a run with workloads that cannot be colocated
  refused_run : List String → DemoError E
  frontend : FrontendError E → DemoError E

-- `int(parts[i])` for each client, where one part stands for all.
unfoldable pub spread : {E : Type 0} → ℕ → List ℕ → Outcome (DemoError E) (List (Option ℕ))
spread zero parts = returns []
spread (suc n) [] = raises index_error
spread (suc n) (part ∷ parts) = do rest ← spread n parts; returns (some part ∷ rest)

-- The `iters` that `make_clients` gives each of `n` clients.
unfoldable pub client_iters :
    {E : Type 0} → ℕ → Option (List ℕ) → Outcome (DemoError E) (List (Option ℕ))
unfolding spread
client_iters n none = returns (replicate n none)
client_iters n (some (part ∷ [])) = returns (replicate n (some part))
client_iters n (some parts) = spread n parts

abbrev pub class_of : {E W : Type 0} → Text → Option W → Outcome (DemoError E) W
class_of name none = raises (key_error name)
class_of name (some class) = returns class

-- `[WORKLOADS[n](iters=it) for n, it in zip(names, iters)]`
unfoldable pub zip_clients :
    {E W : Type 0}
    → Dict W
    → List Text
    → List (Option ℕ)
    → Outcome (DemoError E) (List (W × Option ℕ))
zip_clients registry [] iters = returns []
zip_clients registry (n ∷ names) [] = returns []
zip_clients registry (n ∷ names) (it ∷ iters) = do
  class ← class_of n (get n registry)
  clients ← zip_clients registry names iters
  returns ((class, it) ∷ clients)

-- `make_clients`, from the names and the numbers of its options.
unfoldable pub make_clients :
    {E W : Type 0}
    → Dict W
    → List Text
    → Option (List ℕ)
    → Outcome (DemoError E) (List (W × Option ℕ))
make_clients registry names parts = do
  iters ← client_iters (length names) parts
  zip_clients registry names iters

-- A client as `run_colocated` looks at it.
pub record Colocatable : Type 0 where
  pub name : String
  pub colocatable : Bool

abbrev pub lift_frontend {ℓ} :
    {E : Type 0} {A : Type ℓ} → Outcome (FrontendError E) A → Outcome (DemoError E) A
lift_frontend (raises e) = raises (frontend e)
lift_frontend (returns a) = returns a

module _ {E A : Type 0} where
  -- `run_streams` from the joins on.
  unfoldable pub streams_results : List (Client E A) → Outcome (DemoError E) (List (Option A))
  streams_results clients = do
    _ ← lift_frontend (check_errors clients)
    returns (map result_of clients)

  abbrev pub refuse_or :
      List String
      → Outcome (DemoError E) (List (Option A) × ℤ)
      → Outcome (DemoError E) (List (Option A) × ℤ)
  refuse_or [] run = run
  refuse_or (name ∷ names) run = raises (refused_run (name ∷ names))

  -- `run_colocated`: the results of the clients and the number of logged operations. The native
  -- libraries' answers and the finished threads are arguments.
  unfoldable pub run_colocated :
      (managed : Bool) (setup logged : ℤ)
      → List Colocatable
      → Option (List ℤ)
      → List (Client E A)
      → List (ℕ × ℕ)
      → Outcome (DemoError E) (List (Option A) × ℤ)
  run_colocated managed setup logged clients priorities threads counts =
      refuse_or
        (map (λ (c : Colocatable). c.name)
          (select (λ (c : Colocatable). not c.colocatable) clients))
        (do
          _ ← lift_frontend (new_colocator managed (length clients) priorities)
          _ ← lift_frontend (prepare (length clients) (length clients) setup)
          (results, stats) ← lift_frontend (launch threads counts)
          n_ops ← lift_frontend (dump_issue_log logged)
          returns (results, n_ops))

abbrev pub both : {E : Type 0} → Option ℕ → Option ℕ → Outcome (DemoError E) (ℕ × ℕ)
both (some a) (some b) = returns (a, b)
both none o = raises index_error
both (some a) none = raises index_error

-- `lat[n // 2]` and `lat[min(n - 1, n * 95 // 100)]` of the sorted latencies, in `summarize`: `lat[i]` of the sorted latencies.
unfoldable pub percentiles : {E : Type 0} → List ℕ → Outcome (DemoError E) (ℕ × ℕ)
percentiles lat =
    let n = length lat in both (get_elem? lat (n / 2)) (get_elem? lat (min (n - 1) (n * 95 / 100)))
