-- ===== src/Export.antt =====
-- colocator/visualizer/export.py: the data of a replay page, `build_data`.
pub mod Trim
pub mod Ops
pub mod Total
pub mod Data
pub mod Whole
pub mod Perf
pub mod Examples
use mathlib.Core.Option
use cuda_schedule_project.Prelude.{
  ℕ, suc, String, Bool, true, false, not, ◌&&◌, Option, none, some, List, [], ◌∷◌, map, select, all,
  ◌==◌, if◌then◌else◌,
}
use Prim.Native.Nat.{max}
use cuda_schedule_project.Prelude.Int.{ℤ, pos, ◌-ℤ◌, ltb_ℤ, leb_ℤ, max_ℤ, min_ℤ}
use cuda_schedule_project.Prelude.Outcome.{Outcome, raises, returns, ◌>>=◌}
use cuda_schedule_project.Analyze.Records.{Dim3}
use cuda_schedule_project.Analyze.Kinds.{in_memcpy_kinds}
use cuda_schedule_project.Analyze.Trace.{TraceRow}
use cuda_schedule_project.Analyze.Pandas.{stable_sort}

pub data PageError : Type 0 where
  -- `None` in arithmetic or in a comparison, and `min` or `max` of nothing
  type_error value_error : PageError
  -- a client with no priority
  index_error : PageError

-- `a or b`, where `None` and 0 count as false.
abbrev pub or_else : Option ℤ → Option ℤ → Option ℤ
or_else none b = b
or_else (some (pos n)) b = if n == 0 then b else some (pos n)
or_else (some t) b = some t

-- The earliest host-side timestamp, falling back to the GPU start.
abbrev pub host_ts : TraceRow → Option ℤ
host_ts op = or_else op.t_intercept_ns (or_else op.t_issue_ns op.t_gpu_start_ns)

abbrev pub issue_ts : TraceRow → Option ℤ
issue_ts op = or_else op.t_issue_ns op.t_gpu_start_ns

-- `op["t_gpu_start_ns"] or op["t_issue_ns"] or op["t_intercept_ns"] or 0`
abbrev pub or_zero : Option ℤ → ℤ
or_zero none = pos 0
or_zero (some t) = t

abbrev pub trim_ts : TraceRow → ℤ
trim_ts op = or_zero (or_else op.t_gpu_start_ns (or_else op.t_issue_ns op.t_intercept_ns))

-- `[x for x in loads if x]`
abbrev pub load_marks : List (Option ℕ) → List ℕ
load_marks [] = []
load_marks (none ∷ loads) = load_marks loads
load_marks (some x ∷ loads) = if x == 0 then load_marks loads else x ∷ load_marks loads

abbrev pub max_of : ℕ → List ℕ → ℕ
max_of m [] = m
max_of m (x ∷ xs) = max_of (max m x) xs

abbrev pub or_full : List TraceRow → List TraceRow → List TraceRow
or_full [] full = full
or_full (op ∷ ops) full = op ∷ ops

-- The rows from the last "load_done" mark on, or all if there are none.
abbrev pub trim_at : List ℕ → List TraceRow → List TraceRow
trim_at [] trace = trace
trim_at (m ∷ marks) trace =
    or_full (select (λ op. leb_ℤ (pos (max_of m marks)) (trim_ts op)) trace) trace

unfoldable pub trim : List (Option ℕ) → List TraceRow → List TraceRow
trim loads trace = trim_at (load_marks loads) trace

-- A row with its host and issue times.
pub record Timed : Type 0 where
  pub host : ℤ
  pub issue : ℤ
  pub row : TraceRow

abbrev pub timed_row : TraceRow → Option ℤ → Option ℤ → Outcome PageError Timed
timed_row op none t = raises type_error
timed_row op (some h) none = raises type_error
timed_row op (some h) (some t) = returns (record { host = h; issue = t; row = op })

-- `host_ts(op)` and the sort key of each row.
unfoldable pub time_rows : List TraceRow → Outcome PageError (List Timed)
time_rows [] = returns []
time_rows (op ∷ ops) = do
  t ← timed_row op (host_ts op) (issue_ts op)
  ts ← time_rows ops
  returns (t ∷ ts)

abbrev pub min_host : ℤ → List Timed → ℤ
min_host m [] = m
min_host m (t ∷ ts) = min_host (min_ℤ m t.host) ts

-- An operation of the page. Times are in ns since `t0`; the page has them in us.
pub record PageOp : Type 0 where
  pub client : ℕ
  pub op_id : ℕ
  pub is_copy : Bool
  pub cls : String
  pub ti : ℤ
  pub tis : ℤ
  pub tgs : Option ℤ
  pub tge : Option ℤ
  pub st : Option ℕ
  pub rnd : ℕ
  pub bytes : Option ℕ
  pub grid : List ℕ

-- `[v for v in g if v]`, or 1 if it is empty
abbrev pub shape : Dim3 → List ℕ
shape g = or_one (select (λ v. not (v == 0)) (g.x ∷ g.y ∷ g.z ∷ []))
  where
    or_one : List ℕ → List ℕ
    or_one [] = 1 ∷ []
    or_one (v ∷ vs) = v ∷ vs

abbrev pub since : ℤ → Option ℤ → Option ℤ
since t0 none = none
since t0 (some t) = some (t -ℤ t0)

unfoldable pub page_op : ℤ → ℕ → Timed → PageOp
page_op t0 rnd t =
    let op = t.row in
    let copy = in_memcpy_kinds op.kind in
    record {
      client = op.client;
      op_id = op.op_id;
      is_copy = copy;
      cls = if copy then "copy" else op.name;
      ti = t.host -ℤ t0;
      tis = t.issue -ℤ t0;
      tgs = since t0 op.t_gpu_start_ns;
      tge = since t0 op.t_gpu_end_ns;
      st = op.gpu_stream;
      rnd = rnd;
      bytes = if copy then some op.bytes else none;
      grid = if copy then [] else shape op.grid;
    }

-- `for rnd, op in enumerate(trace)`
unfoldable pub page_ops : ℤ → ℕ → List Timed → List PageOp
page_ops t0 rnd [] = []
page_ops t0 rnd (t ∷ ts) = page_op t0 rnd t ∷ page_ops t0 (suc rnd) ts

-- `rec["tge"] or rec["tis"]`
abbrev pub op_end : PageOp → ℤ
op_end op = or_zero (or_else op.tge (some op.tis))

-- `t_end`, from 0 on.
abbrev pub last_end : ℤ → List PageOp → ℤ
last_end t [] = t
last_end t (op ∷ ops) = last_end (max_ℤ t (op_end op)) ops

pub record Page : Type 0 where
  pub t0 : ℤ
  pub ops : List PageOp
  pub t_end : ℤ
  pub barrier : Option ℤ

-- `max(barrier_ns) - t0 if all(barrier_ns) else None`
abbrev pub barrier_at : ℤ → List (Option ℕ) → List ℕ → Outcome PageError (Option ℤ)
barrier_at t0 [] marks = raises value_error
barrier_at t0 (b ∷ bs) [] = returns none
barrier_at t0 (b ∷ bs) (m ∷ marks) =
    if all (λ o. is_mark o) (b ∷ bs)
    then returns (some (pos (max_of m marks) -ℤ t0))
    else returns none
  where
    is_mark : Option ℕ → Bool
    is_mark none = false
    is_mark (some x) = not (x == 0)

abbrev pub page_of : List Timed → List (Option ℕ) → Outcome PageError Page
page_of [] barriers = raises value_error
page_of (t ∷ ts) barriers =
    let t0 = min_host t.host ts in
    let ops = page_ops t0 0 (stable_sort (λ (u : Timed). u.issue) (t ∷ ts)) in
    (do
      barrier ← barrier_at t0 barriers (load_marks barriers)
      returns (record { t0 = t0; ops = ops; t_end = last_end (pos 0) ops; barrier = barrier }))

-- `build_data`, from the trace and each client's "load_done" and `barrier_ns`.
unfoldable pub build_data :
    List TraceRow → (loads barriers : List (Option ℕ)) → Outcome PageError Page
build_data trace loads barriers = do timed ← time_rows (trim loads trace); page_of timed barriers
