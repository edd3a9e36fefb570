-- ===== src/Analyze/Trace.antt =====
-- `build_colocated_trace` and `build_seq_trace`: one row for each operation of a run.
pub mod Gather
pub mod Kernels
pub mod Foreign
pub mod Copies
pub mod Colocated
pub mod Accounts
pub mod Examples
use mathlib.Core.Option
use cuda_schedule_project.Prelude.Outcome.{Outcome, ◌>>=◌, raises, returns}
use cuda_schedule_project.Prelude.{
  ℕ, zero, suc, ◌+◌, ◌-◌, String, Bool, true, false, not, ◌||◌, Option, none, some, List, [], ◌∷◌,
  ◌++◌, map, select, length, get_elem?, ltb, ◌==◌, if◌then◌else◌,
}
use cuda_schedule_project.Prelude.Int.{ℤ, pos, ◌-ℤ◌, ltb_ℤ}
use cuda_schedule_project.Analyze.Records.{
  OpKind, op_kind_name, Dim3, IssueRow, KernelRecord, MemcpyRecord, RuntimeRecord,
}
use cuda_schedule_project.Analyze.Kinds.{
  cbid_launch, cbid_memcpy_async, in_kernel_kinds, in_memcpy_kinds, kernel_class,
}
use cuda_schedule_project.Analyze.Clock.{Clock, ticks_of, to_mono, int_ns}
use cuda_schedule_project.Analyze.Pandas.{Sorting}
use cuda_schedule_project.Analyze.Join
use cuda_schedule_project.Analyze.Join.{JoinError, Joined, assign_kernels}

-- A row of trace.json. A seq trace has no `n_kernels`; it is 1 or 0 there.
pub record TraceRow : Type 0 where
  pub client : ℕ
  pub op_id : ℕ
  pub kind : OpKind
  pub name : String
  pub raw_name : String
  pub n_kernels : ℕ
  pub bytes : ℕ
  pub grid : Dim3
  pub block : Dim3
  pub correlation : ℕ
  pub t_intercept_ns : Option ℤ
  pub t_issue_ns : Option ℤ
  pub t_gpu_start_ns : Option ℤ
  pub t_gpu_end_ns : Option ℤ
  pub gpu_stream : Option ℕ

-- What `ModeData` has read of a run.
pub record RunData : Type 0 where
  pub sched_tid : ℕ
  pub client_tids : List ℕ
  pub issue : List IssueRow
  pub kernels : List KernelRecord
  pub memcpys : Option (List MemcpyRecord)
  pub runtime : List RuntimeRecord
  pub clock : Clock

-- The exceptions of `build_colocated_trace`.
pub data TraceError : Type 0 where
  join_failed : JoinError → TraceError
  memcpy_mismatch : ℕ → ℕ → TraceError
  -- `kern.iloc[j]` out of range, and `max` of no kernels
  index_error value_error : TraceError
  -- `sort_values` of a table with no rows has no such column
  key_error : TraceError

abbrev pub Traced {ℓ} : Type ℓ → Type ℓ
Traced A = Outcome TraceError A

abbrev pub lift_join {ℓ} : {A : Type ℓ} → Joined A → Traced A
lift_join (returns a) = returns a
lift_join (raises e) = raises (join_failed e)

-- `df.drop_duplicates("correlation").set_index("correlation")`, by its look-up: the first record
-- with the id.
unfoldable pub first_record : ℕ → List RuntimeRecord → Option RuntimeRecord
first_record corr [] = none
first_record corr (r ∷ rs) = if r.correlation == corr then some r else first_record corr rs

-- `set_index("correlation").loc`. CUPTI gives a memcpy record an id of its own, so that no second
-- record has it.
unfoldable pub first_memcpy : ℕ → List MemcpyRecord → Option MemcpyRecord
first_memcpy corr [] = none
first_memcpy corr (g ∷ gs) = if g.correlation == corr then some g else first_memcpy corr gs

-- `rt_all`
abbrev pub launch_records : RunData → List RuntimeRecord
launch_records md = select (λ r. r.cbid == cbid_launch) md.runtime

abbrev pub other_thread : ℕ → Option RuntimeRecord → Bool
other_thread tid none = false
other_thread tid (some r) = not (r.thread_id == tid)

-- `foreign`: the launch record carries another thread's id.
unfoldable pub is_foreign : RunData → KernelRecord → Bool
unfolding first_record
is_foreign md k = other_thread md.sched_tid (first_record k.correlation (launch_records md))

abbrev pub start_of : ℕ → Option RuntimeRecord → Option ℕ
start_of tid none = none
start_of tid (some r) = if r.thread_id == tid then some r.start_ns else none

-- `rt_start.get`
unfoldable pub rt_start : RunData → ℕ → Option ℕ
unfolding first_record
rt_start md corr = start_of md.sched_tid (first_record corr (launch_records md))

abbrev pub gather_next :
    Option KernelRecord → Traced (List KernelRecord) → Traced (List KernelRecord)
gather_next none gathered = raises index_error
gather_next (some k) gathered = do gs ← gathered; returns (k ∷ gs)

-- `[kern.iloc[j] for j in idx]`
unfoldable pub gather : List KernelRecord → List ℕ → Traced (List KernelRecord)
gather kern [] = returns []
gather kern (j ∷ js) = gather_next (get_elem? kern j) (gather kern js)

abbrev pub duration : KernelRecord → ℤ
duration k = pos k.end_ns -ℤ pos k.start_ns

-- `max(gs, key=duration)`: the first of the longest.
unfoldable pub longest : KernelRecord → List KernelRecord → KernelRecord
longest g [] = g
longest g (k ∷ ks) = longest (if ltb_ℤ (duration g) (duration k) then k else g) ks

unfoldable pub earliest_start : ℕ → List KernelRecord → ℕ
earliest_start t [] = t
earliest_start t (k ∷ ks) = earliest_start (if ltb k.start_ns t then k.start_ns else t) ks

unfoldable pub latest_end : ℕ → List KernelRecord → ℕ
latest_end t [] = t
latest_end t (k ∷ ks) = latest_end (if ltb t k.end_ns then k.end_ns else t) ks

-- The row of an operation that launched the kernels `k ∷ ks`.
unfoldable pub kernel_row : Clock → IssueRow → KernelRecord → List KernelRecord → TraceRow
unfolding longest earliest_start latest_end
kernel_row c op k ks =
    let g = longest k ks in
    record {
      client = op.client;
      op_id = op.op_id;
      kind = op.kind;
      name = kernel_class g.name;
      raw_name = g.name;
      n_kernels = length (k ∷ ks);
      bytes = op.bytes;
      grid = op.grid;
      block = op.block;
      correlation = g.correlation;
      t_intercept_ns = some (pos op.t_intercept_ns);
      t_issue_ns = some (pos op.t_issue_ns);
      t_gpu_start_ns = some (int_ns c (to_mono c (earliest_start k.start_ns ks)));
      t_gpu_end_ns = some (int_ns c (to_mono c (latest_end k.end_ns ks)));
      gpu_stream = some g.stream;
    }

abbrev pub row_of_kernels : Clock → IssueRow → List KernelRecord → Traced TraceRow
row_of_kernels c op [] = raises value_error
row_of_kernels c op (k ∷ ks) = returns (kernel_row c op k ks)

-- `for i in range(len(ops))` over the rows and their index lists.
unfoldable pub kernel_rows :
    Clock → List KernelRecord → List IssueRow → List (List ℕ) → Traced (List TraceRow)
kernel_rows c kern [] idx_lists = returns []
kernel_rows c kern (op ∷ ops) [] = raises index_error
kernel_rows c kern (op ∷ ops) (idx ∷ idx_lists) = do
  gs ← gather kern idx
  row ← row_of_kernels c op gs
  rows ← kernel_rows c kern ops idx_lists
  returns (row ∷ rows)

unfoldable pub memcpy_row : Clock → IssueRow → ℕ → Option MemcpyRecord → TraceRow
memcpy_row c op corr g = record {
  client = op.client;
  op_id = op.op_id;
  kind = op.kind;
  name = op_kind_name op.kind;
  raw_name = "";
  n_kernels = 0;
  bytes = op.bytes;
  grid = op.grid;
  block = op.block;
  correlation = corr;
  t_intercept_ns = some (pos op.t_intercept_ns);
  t_issue_ns = some (pos op.t_issue_ns);
  t_gpu_start_ns = Option.map (λ (m : MemcpyRecord). int_ns c (to_mono c m.start_ns)) g;
  t_gpu_end_ns = Option.map (λ (m : MemcpyRecord). int_ns c (to_mono c m.end_ns)) g;
  gpu_stream = Option.map (λ (m : MemcpyRecord). m.stream) g;
}

abbrev pub find_memcpy : ℕ → Option (List MemcpyRecord) → Option MemcpyRecord
find_memcpy corr none = none
find_memcpy corr (some gpu) = first_memcpy corr gpu

-- The second `for`, over two lists that are known to be as long as each other.
unfoldable pub memcpy_rows : RunData → List IssueRow → List RuntimeRecord → List TraceRow
unfolding memcpy_row first_memcpy
memcpy_rows md (op ∷ ops) (r ∷ api) =
    memcpy_row md.clock op r.correlation (find_memcpy r.correlation md.memcpys)
    ∷ memcpy_rows md ops api
memcpy_rows md _ _ = []

abbrev pub issue_key : TraceRow → ℤ
issue_key row = elim row.t_issue_ns [ none ↦ pos 0 | some t ↦ t ]

abbrev pub gpu_key : TraceRow → ℤ
gpu_key row = elim row.t_gpu_start_ns [ none ↦ pos 0 | some t ↦ t ]

module _ (S : Sorting) where
  open S use {sort_values}

  -- The kernels that the scheduler caused, in correlation order.
  abbrev pub own_kernels : RunData → List KernelRecord
  own_kernels md =
      select (λ k. not (is_foreign md k))
        (sort_values KernelRecord (λ k. pos k.correlation) md.kernels)

  abbrev pub kernel_ops : RunData → List IssueRow
  kernel_ops md =
      sort_values IssueRow (λ op. pos op.t_issue_ns)
        (select (λ op. in_kernel_kinds op.kind) md.issue)

  abbrev pub memcpy_ops : RunData → List IssueRow
  memcpy_ops md = select (λ op. in_memcpy_kinds op.kind) md.issue

  abbrev pub memcpy_calls : RunData → List RuntimeRecord
  memcpy_calls md =
      sort_values RuntimeRecord (λ r. pos r.start_ns)
        (select (λ r. r.cbid == cbid_memcpy_async)
          (select (λ r. r.thread_id == md.sched_tid) md.runtime))

  abbrev pub sort_trace : List TraceRow → Traced (List TraceRow)
  sort_trace [] = raises key_error
  sort_trace (row ∷ rows) = returns (sort_values TraceRow issue_key (row ∷ rows))

  unfoldable pub build_colocated_trace : RunData → Traced (List TraceRow)
  build_colocated_trace md = do
    idx_lists ←
        lift_join
          (assign_kernels md.clock (rt_start md) (kernel_ops md) (own_kernels md) md.clock.offset)
    rows ← kernel_rows md.clock (own_kernels md) (kernel_ops md) idx_lists
    if length (memcpy_calls md) == length (memcpy_ops md)
        then sort_trace (rows ++ memcpy_rows md (memcpy_ops md) (memcpy_calls md))
        else raises (memcpy_mismatch (length (memcpy_calls md)) (length (memcpy_ops md)))
