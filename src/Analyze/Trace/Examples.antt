-- ===== src/Analyze/Trace/Examples.antt =====
-- The run of the join's example, with a memcpy, and the theorems of its trace.
use mathlib.Core.List.{Perm}
use cuda_schedule_project.Prelude.Outcome.{raises, returns}
use cuda_schedule_project.Prelude.{
  ℕ, ◌≡◌, refl, some, List, [], ◌∷◌, ◌++◌, map, All, arith, select, ◌==◌,
}
use cuda_schedule_project.Prelude.Int.{pos, ◌+ℤ◌, ◌-ℤ◌}
use cuda_schedule_project.Analyze.Records.{
  KernelRecord, IssueRow, kernel_launch, memcpy_async, cublas_gemm_ex, RuntimeRecord, op_kind_name,
}
use cuda_schedule_project.Analyze.Kinds.{
  cbid_memcpy_async, in_kernel_kinds, in_memcpy_kinds, is_partner, kernel_class,
}
use cuda_schedule_project.Analyze.Clock.{to_mono, int_ns}
use cuda_schedule_project.Analyze.Pandas.{stable_sorting, stable_sort, IsAscending}
use cuda_schedule_project.Analyze.Join.{check_anchor, take_partners, assign_from, assign_kernels}
use cuda_schedule_project.Analyze.Join.Calls.{Call, IsCall, rows, kernels}
use cuda_schedule_project.Analyze.Join.Examples.{row, clock, calls}
use cuda_schedule_project.Analyze.Trace.{
  TraceRow, RunData, Traced, memcpy_mismatch, is_foreign, rt_start, gather, kernel_row, kernel_rows,
  memcpy_rows, issue_key, own_kernels, kernel_ops, build_colocated_trace,
}
use cuda_schedule_project.Analyze.Trace.Colocated.{
  issue_id, trace_id, traced_ops, build_colocated_trace-ids, build_colocated_trace_total,
}
use cuda_schedule_project.Analyze.Trace.Accounts.{IsOthers, build_colocated_trace-calls}
use cuda_schedule_project.Analyze.Trace.Copies.{AreCopies}
use cuda_schedule_project.Analyze.Trace.Kernels.{TellAll}

abbrev runtime_record : ℕ → ℕ → ℕ → ℕ → RuntimeRecord
runtime_record correlation cbid tid start = record {
  correlation = correlation;
  cbid = cbid;
  thread_id = tid;
  start_ns = start;
}

-- The scheduler's thread is 9, and the main thread 1 has launched the kernel with id 3 or none.
abbrev pub run : RunData
run = record {
  sched_tid = 9;
  client_tids = 20 ∷ 21 ∷ [];
  issue =
      row 1 0 cublas_gemm_ex 1130 1160
      ∷ row 0 0 kernel_launch 1100 1120
      ∷ row 0 1 memcpy_async 1170 1180
      ∷ [];
  kernels = kernels calls;
  memcpys =
      some (record { correlation = 4; start_ns = 340; end_ns = 360; stream = 7; bytes = 64 } ∷ []);
  runtime = runtime_record 1 211 9 105 ∷ runtime_record 4 41 9 172 ∷ [];
  clock = clock;
}

unfoldable pub computing : Unit {0}
unfolding build_colocated_trace stable_sort is_foreign rt_start gather kernel_rows kernel_row
    memcpy_rows assign_kernels assign_from check_anchor take_partners is_partner to_mono int_ns
    kernel_class op_kind_name ◌+ℤ◌ ◌-ℤ◌
computing = tt

abbrev Ids : Traced (List TraceRow) → Type 0
Ids (returns trace) =
    map trace_id trace ≡ (0, 0, kernel_launch) ∷ (1, 0, cublas_gemm_ex) ∷ (0, 1, memcpy_async) ∷ []
Ids (raises e) = ⊥

trace-Ids : Ids (build_colocated_trace stable_sorting run)
unfolding computing
trace-Ids = refl

abbrev rows_or_nil : Traced (List TraceRow) → List TraceRow
rows_or_nil (returns trace) = trace
rows_or_nil (raises e) = []

abbrev pub run_trace : List TraceRow
run_trace = rows_or_nil (build_colocated_trace stable_sorting run)

pub built : build_colocated_trace stable_sorting run ≡ returns run_trace
unfolding computing
built = refl

-- A run whose observer has lost the memcpy's runtime record is refused.
lost_memcpy :
    build_colocated_trace stable_sorting (record run { runtime = runtime_record 1 211 9 105 ∷ [] })
    ≡ raises (memcpy_mismatch 0 1)
unfolding computing
lost_memcpy = refl

build_colocated_trace-ids_example :
    Perm (map trace_id run_trace) (map issue_id (traced_ops stable_sorting run))
    × IsAscending issue_key run_trace
build_colocated_trace-ids_example = build_colocated_trace-ids stable_sorting run run_trace built

build_colocated_trace-calls_example :
    (found : List Call) × (foreign : List KernelRecord) × (api : List RuntimeRecord) × (told
      copies : List TraceRow)
    × All IsCall found
    × (IsAscending (λ (op : IssueRow). pos op.t_issue_ns) (rows found)
        × Perm (rows found) (select (λ op. in_kernel_kinds op.kind) run.issue))
    × (IsAscending (λ (k : KernelRecord). pos k.correlation) (kernels found)
        × All (λ k. IsOthers run k → ⊥) (kernels found)
        × All (IsOthers run) foreign
        × Perm (kernels found ++ foreign) run.kernels)
    × TellAll clock found told
    × (IsAscending (λ (r : RuntimeRecord). pos r.start_ns) api
        × Perm api (
            select
              (λ r. r.cbid == cbid_memcpy_async)
              (select (λ r. r.thread_id == run.sched_tid) run.runtime)))
    × AreCopies run (select (λ op. in_memcpy_kinds op.kind) run.issue) api copies
    × Perm run_trace (told ++ copies)
build_colocated_trace-calls_example = build_colocated_trace-calls stable_sorting run run_trace built

joined_indices :
    assign_kernels clock
      (rt_start run)
      (kernel_ops stable_sorting run)
      (own_kernels stable_sorting run)
      (pos 1000)
    ≡ returns ((0 ∷ []) ∷ (1 ∷ 2 ∷ []) ∷ [])
unfolding computing
joined_indices = refl

build_colocated_trace_total_example :
    (trace : List TraceRow) × (build_colocated_trace stable_sorting run ≡ returns trace)
unfolding stable_sort
build_colocated_trace_total_example =
    build_colocated_trace_total stable_sorting run ((0 ∷ []) ∷ (1 ∷ 2 ∷ []) ∷ []) joined_indices
      refl (omega arith)
