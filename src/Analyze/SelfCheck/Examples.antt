-- ===== src/Analyze/SelfCheck/Examples.antt =====
-- The self-check of the example's trace, and of traces that it refuses.
use cuda_schedule_project.Prelude.{◌≡◌, refl, ◌↔◌, none, List, [], ◌∷◌, length}
use cuda_schedule_project.Analyze.Pandas.{stable_sorting}
use cuda_schedule_project.Analyze.Trace.{TraceRow, first_record}
use cuda_schedule_project.Analyze.Trace.Examples.{run, run_trace, computing}
use cuda_schedule_project.Analyze.SelfCheck.{
  empty_activity, passed, failed, tolerance, insert_id, client_ids, has_drop, external_kernels,
  monotonic_problems, problems, self_check,
}
use cuda_schedule_project.Analyze.SelfCheck.Spec.{IsSound, self_check_iff}

run_passes :
    self_check stable_sorting run none run_trace ≡ passed (length (external_kernels run none))
unfolding computing first_record tolerance insert_id client_ids has_drop monotonic_problems problems
    self_check
run_passes = refl

-- Each activity ends when it starts.
abbrev stopped : List TraceRow → List TraceRow
stopped [] = []
stopped (row ∷ rows) = record row { t_gpu_end_ns = row.t_gpu_start_ns } ∷ stopped rows

stopped_fails :
    self_check stable_sorting run none (stopped run_trace) ≡ failed (empty_activity 3 ∷ [])
unfolding computing first_record tolerance insert_id client_ids has_drop monotonic_problems problems
    self_check
stopped_fails = refl

pub run-IsSound : IsSound stable_sorting run none run_trace
run-IsSound = (self_check_iff stable_sorting run none run_trace).0 run_passes

self_check_iff_example :
    (self_check stable_sorting run none run_trace ≡ passed (length (external_kernels run none)))
    ↔ IsSound stable_sorting run none run_trace
self_check_iff_example = self_check_iff stable_sorting run none run_trace
