-- ===== src/Analyze/SelfCheck.antt =====
-- `self_check`: the assertions on a colocated trace.
mod Columns
pub mod Spec
pub mod Examples
use Prim.Native.Nat.{max}
use cuda_schedule_project.Prelude.{
  ℕ, ◌+◌, ◌-◌, ◌*◌, Bool, true, false, not, ◌&&◌, ◌||◌, Option, none, some, List, [], ◌∷◌, ◌++◌,
  map, select, any, length, ltb, ◌==◌, if◌then◌else◌,
}
use cuda_schedule_project.Prelude.Int.{ℤ, pos, pos_part, neg_part, ◌-ℤ◌, ltb_ℤ, leb_ℤ}
use cuda_schedule_project.Analyze.Records.{KernelRecord, RuntimeRecord}
use cuda_schedule_project.Analyze.Kinds.{in_kernel_kinds}
use cuda_schedule_project.Analyze.Clock.{Clock, ticks_of, to_mono}
use cuda_schedule_project.Analyze.Pandas.{Sorting}
use cuda_schedule_project.Analyze.Trace.{TraceRow, RunData, first_record, launch_records, gpu_key}

-- The messages in `problems`, with the numbers that they name.
pub data Problem : Type 0 where
  unmatched intercept_after_issue issue_after_start empty_activity not_monotonic leaked :
      ℕ → Problem

pub data Verdict : Type 0 where
  passed : (external : ℕ) → Verdict
  failed : List Problem → Verdict

-- `max(2e6, 4 * abs(drift))`, in ns.
unfoldable pub tolerance : Clock → ℤ
tolerance c = pos (max 2_000_000 (4 * (pos_part c.drift + neg_part c.drift)))

-- `a > b` on columns, where a missing value compares as false.
abbrev pub exceeds : Option ℤ → Option ℤ → Bool
exceeds none b = false
exceeds (some a) none = false
exceeds (some a) (some b) = ltb_ℤ b a

abbrev pub minus : Option ℤ → ℤ → Option ℤ
minus none t = none
minus (some a) t = some (a -ℤ t)

abbrev pub at_least : Option ℤ → Option ℤ → Bool
at_least none b = false
at_least (some a) none = false
at_least (some a) (some b) = leb_ℤ b a

abbrev pub is_matched : TraceRow → Bool
is_matched row = elim row.t_gpu_start_ns [ none ↦ false | some t ↦ true ]

abbrev pub report : (ℕ → Problem) → ℕ → List Problem
report problem n = if n == 0 then [] else problem n ∷ []

-- The keys of `groupby("client")`.
unfoldable pub insert_id : ℕ → List ℕ → List ℕ
insert_id c [] = c ∷ []
insert_id c (d ∷ ds) = if c == d then d ∷ ds else if ltb c d then c ∷ d ∷ ds else d ∷ insert_id c ds

unfoldable pub client_ids : List TraceRow → List ℕ
unfolding insert_id
client_ids [] = []
client_ids (row ∷ rows) = insert_id row.client (client_ids rows)

-- `(np.diff(starts) < 0).any()`
unfoldable pub has_drop : List ℤ → Bool
has_drop [] = false
has_drop (a ∷ []) = false
has_drop (a ∷ b ∷ rest) = ltb_ℤ b a || has_drop (b ∷ rest)

abbrev pub is_member : ℕ → List ℕ → Bool
is_member tid tids = any (λ t. tid == t) tids

module _ (md : RunData) where
  -- The launch record of a kernel. A correlation id has one at most, as CUPTI gives them.
  abbrev pub launch_tid : KernelRecord → Option RuntimeRecord
  launch_tid k = first_record k.correlation (launch_records md)

  -- The kernel was launched by a client's own thread, and by neither a client nor the scheduler. A
  -- kernel without a launch record has the thread id -1.
  abbrev pub by_client : Option RuntimeRecord → Bool
  by_client none = false
  by_client (some r) = is_member r.thread_id md.client_tids

  abbrev pub by_scheduler : Option RuntimeRecord → Bool
  by_scheduler none = false
  by_scheduler (some r) = r.thread_id == md.sched_tid

  -- `if md.window`: the mode's time window, if results.json has one.
  abbrev pub in_mode : Option (ℕ × ℕ) → KernelRecord → Bool
  in_mode none k = true
  in_mode (some (lo, hi)) k =
      leb_ℤ (ticks_of md.clock lo) (to_mono md.clock k.start_ns)
      && leb_ℤ (to_mono md.clock k.start_ns) (ticks_of md.clock hi)

  abbrev pub leaked_kernels : Option (ℕ × ℕ) → List KernelRecord
  leaked_kernels window =
      select (λ k. by_client (launch_tid k)) (select (in_mode window) md.kernels)

  abbrev pub external_kernels : Option (ℕ × ℕ) → List KernelRecord
  external_kernels window =
      select (λ k. not (by_client (launch_tid k)) && not (by_scheduler (launch_tid k)))
        (select (in_mode window) md.kernels)

module _ (S : Sorting) where
  abbrev pub kernel_rows_of : List TraceRow → List TraceRow
  kernel_rows_of trace = select (λ r. in_kernel_kinds r.kind) (select is_matched trace)

  -- A client's GPU kernel starts in the order of its operations.
  abbrev pub starts_of : List TraceRow → ℕ → List ℤ
  starts_of kern client =
      map gpu_key
        (S.sort_values TraceRow (λ r. pos r.op_id) (select (λ r. r.client == client) kern))

  unfoldable pub monotonic_problems : List TraceRow → List ℕ → List Problem
  monotonic_problems kern [] = []
  monotonic_problems kern (client ∷ clients) =
      let rest = monotonic_problems kern clients in
      if has_drop (starts_of kern client) then not_monotonic client ∷ rest else rest

  unfoldable pub problems : RunData → Option (ℕ × ℕ) → List TraceRow → List Problem
  problems md window trace =
      let tol = tolerance md.clock in
      let matched = select is_matched trace in
      let bad_order = select (λ r. exceeds r.t_intercept_ns r.t_issue_ns) trace in
      let bad_gpu = select (λ r. exceeds (minus r.t_issue_ns tol) r.t_gpu_start_ns) matched in
      let bad_dur = select (λ r. at_least r.t_gpu_start_ns r.t_gpu_end_ns) matched in
      let kern = kernel_rows_of trace in
      report unmatched (length trace - length matched)
      ++ (report intercept_after_issue (length bad_order)
          ++ (report issue_after_start (length bad_gpu)
              ++ (report empty_activity (length bad_dur)
                  ++ (monotonic_problems kern (client_ids kern)
                      ++ report leaked (length (leaked_kernels md window))))))

  abbrev pub verdict : ℕ → List Problem → Verdict
  verdict external [] = passed external
  verdict external (p ∷ ps) = failed (p ∷ ps)

  unfoldable pub self_check : RunData → Option (ℕ × ℕ) → List TraceRow → Verdict
  self_check md window trace =
      verdict (length (external_kernels md window)) (problems md window trace)
