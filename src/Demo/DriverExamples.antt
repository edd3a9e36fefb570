-- ===== src/Demo/DriverExamples.antt =====
-- Runs of all three modes, one of which has a client without iterations.
use cuda_schedule_project.Prelude.{
  ℕ, suc, ◌+◌, ◌*◌, ◌≡◌, refl, true, false, none, some, List, [], ◌∷◌, arith,
}
use cuda_schedule_project.Prelude.Text.{codes, contains, begins}
use cuda_schedule_project.Prelude.Dict.{Text, Dict, get, put}
use cuda_schedule_project.Prelude.Outcome.{Outcome, raises, returns}
use cuda_schedule_project.Analyze.Records.{KernelRecord}
use cuda_schedule_project.Analyze.Pandas.{stable_sort}
use cuda_schedule_project.Analyze.SelfCheck.{in_mode}
use cuda_schedule_project.Prelude.Int.{pos}
use cuda_schedule_project.Analyze.Trace.{RunData}
use cuda_schedule_project.Analyze.Trace.Examples.{run, computing}
use cuda_schedule_project.Frontend.Env.{is_managed, managed_env, ensure_managed_env}
use cuda_schedule_project.Demo.{DemoError, index_error, percentiles}
use cuda_schedule_project.Demo.Driver.{
  Mode, seq, streams, colocated, every, one, modes_of, Summed, summarize_client, summarize, Written,
  run_modes, observed, main, run_seq,
}
use cuda_schedule_project.Demo.Ends.{IsEnd, main-ran, main-replaced}
use cuda_schedule_project.Demo.Windows.{main-isolates}

abbrev summed : List ℕ → Summed
summed lat = record { iters = 2; lat = lat; loop = 30 }

abbrev runner : Mode → Outcome (DemoError ℕ) (List Summed)
runner mode = returns (summed (10 ∷ 20 ∷ []) ∷ [])

abbrev same_clients : List Summed → List Summed
same_clients clients = clients

abbrev ticks : ℕ → ℕ
ticks n = 1000 + n * 500

abbrev libcol : Text
libcol = codes "libcol.so"

unfoldable driving : Unit {0}
unfolding main run_modes modes_of summarize summarize_client percentiles stable_sort
driving = tt

abbrev file : Mode → ℕ → Written (List Summed)
file mode n = record {
  mode = mode;
  result = summed (10 ∷ 20 ∷ []) ∷ [];
  window = (ticks n, ticks (suc n));
  observer = true;
}

abbrev seq_run : List (Written (List Summed))
seq_run = file seq 0 ∷ []

main-ran_example : IsEnd runner same_clients (modes_of (one seq)) seq_run none
unfolding driving
main-ran_example =
    main-ran runner same_clients ticks true libcol true [] (one seq) true seq_run none refl

abbrev managed : Dict Text
managed = managed_env libcol []

abbrev all_files : List (Written (List Summed))
all_files = file seq 0 ∷ file streams 2 ∷ file colocated 4 ∷ []

abbrev kernel : KernelRecord
kernel = record {
  name = "k";
  correlation = 1;
  start_ns = 250;
  end_ns = 260;
  stream = 7;
  grid = record { x = 1; y = 1; z = 1 };
  block = record { x = 1; y = 1; z = 1 };
}

-- The streams mode's calibration: an offset of 1.5 ns more.
abbrev shifted_run : RunData
shifted_run = record run { clock = record { unit = 2; offset = pos 2003; drift = pos 2 } }

main-isolates_example : in_mode shifted_run (some (file streams 2).window) kernel ≡ false
unfolding driving computing ensure_managed_env is_managed managed_env contains begins get put
main-isolates_example =
    main-isolates runner same_clients ticks 2 (λ n. omega arith) true libcol false managed every
      true all_files none 0 1 (file seq 0) (file streams 2) run shifted_run kernel 1250 refl
      (omega arith) refl refl (omega arith) (omega arith) (omega arith, omega arith)
      (omega arith, omega arith) refl

main-replaced_example :
    main runner same_clients ticks true libcol true managed every true
    ≡ observed runner same_clients ticks true every true
unfolding driving ensure_managed_env is_managed get contains
main-replaced_example =
    main-replaced runner same_clients ticks true libcol false true [] managed every true refl

-- A mode with a client of no iterations is written, and its summary ends the run.
abbrev empty_runner : Mode → Outcome (DemoError ℕ) (List Summed)
empty_runner mode = returns (summed [] ∷ [])

stops_at_summary :
    (run_modes empty_runner same_clients ticks false 0 (modes_of every)).1 ≡ some index_error
unfolding driving
stops_at_summary = refl

second_raises : run_seq {E = ℕ} {A = ℕ} (returns 5 ∷ raises 9 ∷ returns 6 ∷ []) ≡ raises 9
unfolding run_seq
second_raises = refl

abbrev registry : Dict ℕ
registry = (codes "fma", 11) ∷ (codes "dram", 12) ∷ []
