-- ===== src/Analyze/Solo/Examples.antt =====
-- A solo run of two kernels, one of them before the mode's window.
use mathlib.Core.List.{Perm}
use cuda_schedule_project.Prelude.Outcome.{raises, returns}
use cuda_schedule_project.Prelude.{ℕ, ◌≡◌, refl, none, some, List, [], ◌∷◌, ◌++◌, map, length}
use cuda_schedule_project.Prelude.Int.{◌+ℤ◌, ◌-ℤ◌}
use cuda_schedule_project.Analyze.Records.{op_kind_name}
use cuda_schedule_project.Analyze.Kinds.{kernel_class}
use cuda_schedule_project.Analyze.Clock.{to_mono, int_ns}
use cuda_schedule_project.Analyze.Pandas.{stable_sorting, stable_sort, IsAscending}
use cuda_schedule_project.Analyze.Join.Calls.{range_from}
use cuda_schedule_project.Analyze.Join.Examples.{kernel, clock}
use cuda_schedule_project.Analyze.Trace.{TraceRow, Traced, gpu_key}
use cuda_schedule_project.Analyze.Solo.{
  SoloData, in_window, launch_time, solo_kernel_row, solo_memcpy_row, build_seq_trace,
}
use cuda_schedule_project.Analyze.Solo.Laws.{
  shown, shown_kernel, shown_memcpy, kept_kernels, kept_memcpys, without_record,
  build_seq_trace-rows,
}

abbrev solo : SoloData
solo = record {
  kernels =
      some (kernel 5 400 450 "nvjet_hsh" ∷ kernel 6 10 20 "init" ∷ kernel 7 300 380 "softmax" ∷ []);
  memcpys = none;
  runtime = some (record { correlation = 5; cbid = 211; thread_id = 1; start_ns = 290 } ∷ []);
  window_start = 1200;
  window_end = 2000;
  clock = clock;
}

computing : Unit {0}
unfolding build_seq_trace stable_sort in_window launch_time solo_kernel_row solo_memcpy_row to_mono
    int_ns kernel_class op_kind_name ◌+ℤ◌ ◌-ℤ◌
computing = tt

abbrev rows_or_nil : Traced (List TraceRow × ℕ) → List TraceRow
rows_or_nil (returns (trace, n)) = trace
rows_or_nil (raises e) = []

abbrev solo_trace : List TraceRow
solo_trace = rows_or_nil (build_seq_trace stable_sorting solo)

built : build_seq_trace stable_sorting solo ≡ returns (solo_trace, 1)
unfolding computing
built = refl

solo_correlations : map (λ (r : TraceRow). r.correlation) solo_trace ≡ 7 ∷ 5 ∷ []
unfolding computing
solo_correlations = refl

build_seq_trace-rows_example :
    Perm
      (map shown solo_trace)
      (map (shown_kernel solo) (kept_kernels solo) ++ map (shown_memcpy solo) (kept_memcpys solo))
    × IsAscending gpu_key solo_trace
    × (map (λ (r : TraceRow). r.op_id) solo_trace ≡ range_from 0 (length solo_trace))
    × (1 ≡ length (without_record solo (kept_kernels solo)))
build_seq_trace-rows_example = build_seq_trace-rows stable_sorting solo solo_trace 1 built
