-- ===== src/Analyze/Concurrency.antt =====
-- The GPU concurrency that `metrics_colocated` reports.
pub mod Bounds
pub mod Examples
use cuda_schedule_project.Prelude.{
  ℕ, Bool, true, false, ◌&&◌, Option, none, some, List, [], ◌∷◌, map, select, ◌==◌, if◌then◌else◌,
}
use cuda_schedule_project.Prelude.Int.{ℤ, pos, ◌+ℤ◌, ◌-ℤ◌, max_ℤ, min_ℤ}
use cuda_schedule_project.Analyze.Kinds.{in_kernel_kinds}
use cuda_schedule_project.Analyze.Trace.{TraceRow, gpu_key}
use cuda_schedule_project.Analyze.SelfCheck.{is_matched, client_ids}
use cuda_schedule_project.Analyze.Intervals.{Span, busy_intervals, overlap_ns}

pub record Concurrency : Type 0 where
  pub busy_0 : ℤ
  pub busy_1 : ℤ
  pub overlap : ℤ
  pub union : ℤ
  pub span : ℤ

-- `silent` without exactly two clients, and `key_error` if these are not 0 and 1.
pub data Report : Type 0 where
  silent key_error : Report
  shown : Concurrency → Report

-- A matched row has both GPU times.
abbrev pub end_key : TraceRow → ℤ
end_key row = elim row.t_gpu_end_ns [ none ↦ pos 0 | some t ↦ t ]

abbrev pub matched_kernels : List TraceRow → List TraceRow
matched_kernels trace = select (λ r. in_kernel_kinds r.kind) (select is_matched trace)

-- `kern[kern.client == client]` as intervals
unfoldable pub client_spans : ℕ → List TraceRow → List Span
client_spans client kern =
    map (λ (r : TraceRow). record { start = gpu_key r; stop = end_key r })
      (select (λ r. r.client == client) kern)

abbrev pub last_stop : ℤ → List TraceRow → ℤ
last_stop t [] = t
last_stop t (r ∷ rows) = last_stop (max_ℤ t (end_key r)) rows

abbrev pub first_start : ℤ → List TraceRow → ℤ
first_start t [] = t
first_start t (r ∷ rows) = first_start (min_ℤ t (gpu_key r)) rows

abbrev pub kernel_span : List TraceRow → ℤ
kernel_span [] = pos 0
kernel_span (r ∷ rows) = last_stop (end_key r) rows -ℤ first_start (gpu_key r) rows

unfoldable pub two_clients : List TraceRow → Concurrency
two_clients kern =
    let a = busy_intervals (client_spans 0 kern) in
    let b = busy_intervals (client_spans 1 kern) in
    let ov = overlap_ns a.1 b.1 in
    record {
      busy_0 = a.0;
      busy_1 = b.0;
      overlap = ov;
      union = (a.0 +ℤ b.0) -ℤ ov;
      span = kernel_span kern;
    }

abbrev pub report_of : List ℕ → List TraceRow → Report
report_of (a ∷ b ∷ []) kern = if a == 0 && b == 1 then shown (two_clients kern) else key_error
report_of ids kern = silent

unfoldable pub concurrency : List TraceRow → Report
concurrency trace = report_of (client_ids (matched_kernels trace)) (matched_kernels trace)
