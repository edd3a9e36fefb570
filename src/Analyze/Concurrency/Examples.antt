-- ===== src/Analyze/Concurrency/Examples.antt =====
-- The concurrency and the kernel durations of the example's run.
use cuda_schedule_project.Prelude.{◌≡◌, refl, String, Option, none, some, List, [], length, arith}
use cuda_schedule_project.Analyze.Durations.{kernel_durations}
use cuda_schedule_project.Prelude.Int.{ℤ, pos, ◌+ℤ◌}
use cuda_schedule_project.Analyze.SelfCheck.{insert_id, client_ids}
use cuda_schedule_project.Analyze.Trace.Examples.{run, run_trace, computing}
use cuda_schedule_project.Analyze.Concurrency.{
  Report, matched_kernels, client_spans, two_clients, concurrency,
}
use cuda_schedule_project.Analyze.Concurrency.Bounds.{IsOrdered, concurrency-IsOrdered}

nothing_to_report : concurrency [] ≡ Report.silent
unfolding concurrency client_ids
nothing_to_report = refl

concurrency-IsOrdered_example : IsOrdered (two_clients (matched_kernels run_trace))
unfolding computing concurrency client_ids insert_id client_spans ◌+ℤ◌
concurrency-IsOrdered_example =
    concurrency-IsOrdered (pos 0) 10_000 run_trace (two_clients (matched_kernels run_trace))
      (omega arith) (omega arith) refl

abbrev durations_or : Option (List (String × ℤ)) → List (String × ℤ)
durations_or none = []
durations_or (some rows) = rows

all_kernels : length (durations_or (kernel_durations (some run) none)) ≡ 3
unfolding kernel_durations
all_kernels = refl
