-- ===== src/Analyze/Solo.antt =====
-- `build_seq_trace`: the observer-only trace of a run of one client without the colocator.
pub mod Laws
pub mod Examples
use cuda_schedule_project.Prelude.Outcome.{raises, returns}
use cuda_schedule_project.Prelude.{
  ℕ, suc, ◌+◌, Bool, true, false, not, ◌||◌, ◌&&◌, Option, none, some, List, [], ◌∷◌, ◌++◌, length,
  if◌then◌else◌,
}
use cuda_schedule_project.Prelude.Int.{ℤ, pos, ltb_ℤ}
use cuda_schedule_project.Analyze.Records.{
  kernel_launch, memcpy_async, op_kind_name, Dim3, KernelRecord, MemcpyRecord, RuntimeRecord,
}
use cuda_schedule_project.Analyze.Kinds.{kernel_class}
use cuda_schedule_project.Analyze.Clock.{Clock, ticks_of, to_mono, int_ns}
use cuda_schedule_project.Analyze.Pandas.{Sorting}
use cuda_schedule_project.Analyze.Trace.{TraceRow, Traced, key_error, first_record, gpu_key}

-- What is read of a seq run; a file that the observer has not written is `none`.
pub record SoloData : Type 0 where
  pub kernels : Option (List KernelRecord)
  pub memcpys : Option (List MemcpyRecord)
  pub runtime : Option (List RuntimeRecord)
  pub window_start : ℕ
  pub window_end : ℕ
  pub clock : Clock

abbrev pub rows_or_none {ℓ} : {A : Type ℓ} → Option (List A) → List A
rows_or_none none = []
rows_or_none (some rows) = rows

abbrev pub is_none {ℓ} : {A : Type ℓ} → Option A → Bool
is_none none = true
is_none (some a) = false

abbrev pub no_dim : Dim3
no_dim = record { x = 0; y = 0; z = 0 }

module _ (md : SoloData) where
  -- Not skipped by `if s < lo or s > hi: continue`.
  unfoldable pub in_window : ℕ → Bool
  in_window start_ns =
      let s = to_mono md.clock start_ns in
      not (ltb_ℤ s (ticks_of md.clock md.window_start) || ltb_ℤ (ticks_of md.clock md.window_end) s)

  abbrev pub mapped_start : Option RuntimeRecord → Option ℤ
  mapped_start none = none
  mapped_start (some r) = some (int_ns md.clock (to_mono md.clock r.start_ns))

  -- The host-side launch time, if a RUNTIME record has the correlation id.
  unfoldable pub launch_time : ℕ → Option ℤ
  unfolding first_record
  launch_time corr = mapped_start (first_record corr (rows_or_none md.runtime))

  unfoldable pub solo_kernel_row : ℕ → KernelRecord → TraceRow
  solo_kernel_row op_id r = record {
    client = 0;
    op_id = op_id;
    kind = kernel_launch;
    name = kernel_class r.name;
    raw_name = r.name;
    n_kernels = 1;
    bytes = 0;
    grid = r.grid;
    block = r.block;
    correlation = r.correlation;
    t_intercept_ns = none;
    t_issue_ns = launch_time r.correlation;
    t_gpu_start_ns = some (int_ns md.clock (to_mono md.clock r.start_ns));
    t_gpu_end_ns = some (int_ns md.clock (to_mono md.clock r.end_ns));
    gpu_stream = some r.stream;
  }

  unfoldable pub solo_memcpy_row : ℕ → MemcpyRecord → TraceRow
  solo_memcpy_row op_id r = record {
    client = 0;
    op_id = op_id;
    kind = memcpy_async;
    name = op_kind_name memcpy_async;
    raw_name = "";
    n_kernels = 0;
    bytes = r.bytes;
    grid = no_dim;
    block = no_dim;
    correlation = r.correlation;
    t_intercept_ns = none;
    t_issue_ns = launch_time r.correlation;
    t_gpu_start_ns = some (int_ns md.clock (to_mono md.clock r.start_ns));
    t_gpu_end_ns = some (int_ns md.clock (to_mono md.clock r.end_ns));
    gpu_stream = some r.stream;
  }

  -- The rounds of the loop for the kernels, with `n` rows so far: the new rows, and the kernels
  -- that have no RUNTIME record.
  unfoldable pub solo_kernel_rows : ℕ → List KernelRecord → List TraceRow × ℕ
  solo_kernel_rows n [] = ([], 0)
  solo_kernel_rows n (r ∷ rs) =
      let kept = in_window r.start_ns in
      let (rows, no_rt) = solo_kernel_rows (if kept then suc n else n) rs in
      if kept
      then (
        solo_kernel_row n r ∷ rows,
        if is_none (launch_time r.correlation) then suc no_rt else no_rt,
      )
      else (rows, no_rt)

  unfoldable pub solo_memcpy_rows : ℕ → List MemcpyRecord → List TraceRow
  solo_memcpy_rows n [] = []
  solo_memcpy_rows n (r ∷ rs) =
      let kept = in_window r.start_ns in
      let rows = solo_memcpy_rows (if kept then suc n else n) rs in
      if kept then solo_memcpy_row n r ∷ rows else rows

-- `trace["op_id"] = trace.index`
unfoldable pub renumber : ℕ → List TraceRow → List TraceRow
renumber n [] = []
renumber n (row ∷ rows) = record row { op_id = n } ∷ renumber (suc n) rows

module _ (S : Sorting) where
  abbrev pub finish_trace : List TraceRow → ℕ → Traced (List TraceRow × ℕ)
  finish_trace [] no_rt = raises key_error
  finish_trace (row ∷ rows) no_rt =
      returns (renumber 0 (S.sort_values TraceRow gpu_key (row ∷ rows)), no_rt)

  -- The trace and `driver_api_kernels`.
  unfoldable pub build_seq_trace : SoloData → Traced (List TraceRow × ℕ)
  unfolding solo_kernel_rows solo_memcpy_rows renumber
  build_seq_trace md =
      let (kernel_rows, no_rt) = solo_kernel_rows md 0 (rows_or_none md.kernels) in
      let memcpy_rows = solo_memcpy_rows md (length kernel_rows) (rows_or_none md.memcpys) in
      finish_trace (kernel_rows ++ memcpy_rows) no_rt
