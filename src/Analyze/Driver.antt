-- ===== src/Analyze/Driver.antt =====
-- `main` of analyze.py: the mode directories of a run in their order, and the traces that it writes.
pub mod Sound
pub mod Exported
pub mod Examples
use cuda_schedule_project.Prelude.{
  ℕ, String, Bool, true, false, ◌&&◌, Option, none, some, List, [], ◌∷◌, ◌++◌, ◌==◌, if◌then◌else◌,
}
use cuda_schedule_project.Prelude.Int.{ℤ}
use cuda_schedule_project.Prelude.Outcome.{raises, returns}
use cuda_schedule_project.Analyze.Pandas.{Sorting}
use cuda_schedule_project.Analyze.Trace.{
  TraceRow, RunData, TraceError, Traced, build_colocated_trace,
}
use cuda_schedule_project.Analyze.Solo.{SoloData, build_seq_trace, rows_or_none}
use cuda_schedule_project.Analyze.SelfCheck.{Problem, Verdict, passed, failed, self_check}
use cuda_schedule_project.Analyze.Concurrency.{Report, silent, key_error, shown, concurrency}
use cuda_schedule_project.Analyze.Durations.{kernel_durations}

pub data AnalyzeError : Type 0 where
  -- `sys.exit` of a run without mode directories
  no_modes : AnalyzeError
  trace_error : TraceError → AnalyzeError
  -- a colocated run with an issue log and without the observer's records
  no_records : AnalyzeError
  self_check_failed : List Problem → AnalyzeError
  -- the clients of the report on the concurrency are not 0 and 1
  client_key_error : AnalyzeError

pub data Mode : Type 0 where
  seq streams colocated : Mode

-- The directory of a mode. `issue` is none without issue_log.csv, and `recorded` without
-- obs_kernels.csv; they are read together for a colocated run.
pub record ColocatedDir : Type 0 where
  pub has_issue : Bool
  pub recorded : Option RunData
  pub window : Option (ℕ × ℕ)

pub record SoloDir : Type 0 where
  pub solo : SoloData
  pub n_clients : ℕ

-- What `main` has done: the trace.json files that it wrote and the durations by mode, in order, and
-- the error that ended it, if one did.
pub record Analysis : Type 0 where
  pub written : List (Mode × List TraceRow)
  pub durations : List (Mode × List (String × ℤ))
  pub error : Option AnalyzeError

abbrev pub nothing : Analysis
nothing = record { written = []; durations = []; error = none }

abbrev pub stopped : AnalyzeError → Analysis
stopped e = record { written = []; durations = []; error = some e }

-- The second part runs if the first does not end in an error.
unfoldable pub then_run : Analysis → Analysis → Analysis
then_run a b = elim a.error [
  | some e ↦ a
  | none ↦ record {
    written = a.written ++ b.written;
    durations = a.durations ++ b.durations;
    error = b.error;
  }
]

-- The records of a run without the colocator, for its durations.
abbrev pub as_run : SoloData → Option RunData
as_run md = elim md.kernels [
  | none ↦ none
  | some kernels ↦ some (record {
    sched_tid = 0;
    client_tids = [];
    issue = [];
    kernels = kernels;
    memcpys = md.memcpys;
    runtime = rows_or_none md.runtime;
    clock = md.clock;
  })
]

abbrev pub durations_of : Mode → Option RunData → Option (ℕ × ℕ) → Analysis
durations_of mode recorded window = elim (kernel_durations recorded window) [
  | none ↦ nothing
  | some rows ↦ record { written = []; durations = (mode, rows) ∷ []; error = none }
]

abbrev pub wrote : Mode → List TraceRow → Analysis
wrote mode trace = record { written = (mode, trace) ∷ []; durations = []; error = none }

module _ (S : Sorting) where
  abbrev pub seq_trace : Traced (List TraceRow × ℕ) → Analysis
  seq_trace (raises e) = stopped (trace_error e)
  seq_trace (returns (trace, no_rt)) = wrote seq trace

  -- A run of one client with the observer's records has a trace too.
  unfoldable pub analyze_seq : SoloDir → Analysis
  analyze_seq dir =
      let recorded = as_run dir.solo in
      let window = some (dir.solo.window_start, dir.solo.window_end) in
      then_run (durations_of seq recorded window) (elim recorded [
        | none ↦ nothing
        | some md ↦ if dir.n_clients == 1 then seq_trace (build_seq_trace S dir.solo) else nothing
      ])

  unfoldable pub analyze_streams : SoloDir → Analysis
  analyze_streams dir =
      durations_of streams (as_run dir.solo) (some (dir.solo.window_start, dir.solo.window_end))

  abbrev pub check_result : Verdict → Analysis
  check_result (passed external) = nothing
  check_result (failed problems) = stopped (self_check_failed problems)

  abbrev pub metrics : Report → Analysis
  metrics silent = nothing
  metrics key_error = stopped client_key_error
  metrics (shown c) = nothing

  -- The trace of a colocated run is written before it is checked.
  abbrev pub colocated_trace : Bool → RunData → Option (ℕ × ℕ) → Traced (List TraceRow) → Analysis
  colocated_trace check md window (raises e) = stopped (trace_error e)
  colocated_trace check md window (returns trace) = then_run (wrote colocated trace) (
      then_run (if check then check_result (self_check S md window trace) else nothing)
        (metrics (concurrency trace)))

  abbrev pub build_if : Bool → Bool → Option RunData → Option (ℕ × ℕ) → Analysis
  build_if check false recorded window = nothing
  build_if check true none window = stopped no_records
  build_if check true (some md) window =
      colocated_trace check md window (build_colocated_trace S md)

  unfoldable pub analyze_colocated : Bool → ColocatedDir → Analysis
  unfolding then_run
  analyze_colocated check dir =
      then_run (durations_of colocated dir.recorded dir.window)
        (build_if check dir.has_issue dir.recorded dir.window)

  abbrev pub each : {A : Type 0} → Option A → (A → Analysis) → Analysis
  each none run = nothing
  each (some dir) run = run dir

  -- `main`, with `--self-check` or without, from the mode directories that there are.
  unfoldable pub main : Bool → Option SoloDir → Option SoloDir → Option ColocatedDir → Analysis
  unfolding analyze_seq analyze_streams analyze_colocated
  main check none none none = stopped no_modes
  main check seq_dir streams_dir colocated_dir =
      then_run (each seq_dir analyze_seq)
        (then_run (each streams_dir analyze_streams) (each colocated_dir (analyze_colocated check)))
