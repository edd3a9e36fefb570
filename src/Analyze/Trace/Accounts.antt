-- ===== src/Analyze/Trace/Accounts.antt =====
-- The colocated trace accounts for the kernels of the run.
use mathlib.Core.List.{Perm, perm_middle}
use mathlib.Core.List.Perm
use cuda_schedule_project.Prelude.Outcome.{returns}
use cuda_schedule_project.Prelude.{
  ◌≡◌, refl, inl, inr, Bool, true, false, not, List, [], ◌∷◌, ◌++◌, map, select, All, Bool-cases,
  ◌==◌,
}
use cuda_schedule_project.Prelude.Int.{ℤ, pos, ◌≤ℤ◌}
use cuda_schedule_project.Analyze.Records.{IssueRow, KernelRecord, RuntimeRecord}
use cuda_schedule_project.Analyze.Kinds.{cbid_memcpy_async, in_kernel_kinds, in_memcpy_kinds}
use cuda_schedule_project.Analyze.Pandas.{Sorting, IsAscending}
use cuda_schedule_project.Analyze.Join.Calls.{Call, IsCall, rows, kernels}
use cuda_schedule_project.Analyze.Trace.{
  TraceRow, RunData, is_foreign, memcpy_rows, memcpy_ops, memcpy_calls, build_colocated_trace,
}
use cuda_schedule_project.Analyze.Trace.Colocated.{build-Built}
use cuda_schedule_project.Analyze.Trace.Copies.{AreCopies, memcpy_rows-AreCopies}
use cuda_schedule_project.Analyze.Trace.Foreign.{IsForeign, is_foreign_iff}
use cuda_schedule_project.Analyze.Trace.Gather.{call_row}
use cuda_schedule_project.Analyze.Trace.Kernels.{TellAll, call_rows-TellAll}

module _ {A : Type 0} where
  select-perm : (p : A → Bool) (xs : List A) → Perm (select (λ x. not (p x)) xs ++ select p xs) xs
  select-perm p [] = Perm.rfl
  select-perm p (x ∷ xs) = elim (Bool-cases (p x)) [
    | inl e ↦ rw e (
        Perm.trans (perm_middle (select (λ y. not (p y)) xs) (select p xs))
          (Perm.cons x (select-perm p xs)))
    | inr e ↦ rw e (Perm.cons x (select-perm p xs))
  ]

  All-select : (P : A → Type 0) (p : A → Bool) (xs : List A) → All P xs → All P (select p xs)
  All-select P p [] h = tt
  All-select P p (x ∷ xs) h = elim (Bool-cases (p x)) [
    | inl e ↦ rw e (h.0, All-select P p xs h.1)
    | inr e ↦ rw e (All-select P p xs h.1)
  ]

  select-IsAscending :
      (key : A → ℤ) (p : A → Bool) (xs : List A)
      → IsAscending key xs
      → IsAscending key (select p xs)
  select-IsAscending key p [] h = tt
  select-IsAscending key p (x ∷ xs) h = elim (Bool-cases (p x)) [
    | inl e ↦ rw e (All-select (λ y. key x ≤ℤ key y) p xs h.0, select-IsAscending key p xs h.1)
    | inr e ↦ rw e (select-IsAscending key p xs h.1)
  ]

  All-selected :
      (P : A → Type 0) (p : A → Bool)
      → ((x : A) → p x ≡ true → P x)
      → (xs : List A) → All P (select p xs)
  All-selected P p f [] = tt
  All-selected P p f (x ∷ xs) = elim (Bool-cases (p x)) [
    | inl e ↦ let px = f x e in rw e (px, All-selected P p f xs)
    | inr e ↦ rw e (All-selected P p f xs)
  ]

not-true : (b : Bool) → not b ≡ true → b ≡ false
not-true true h = cc
not-true false h = refl

-- The record's launch was another thread's than the scheduler's.
abbrev pub IsOthers : RunData → KernelRecord → Type 0
IsOthers md k = IsForeign md.sched_tid k.correlation md.runtime

module _ (md : RunData) where
  own-not_others : (k : KernelRecord) → not (is_foreign md k) ≡ true → IsOthers md k → ⊥
  own-not_others k h o =
      let foreign = (is_foreign_iff md k).1 o in let other = not-true (is_foreign md k) h in cc

module _ (S : Sorting) (md : RunData) where
  -- A colocated trace that is returned accounts for the run. There are calls, whose operations are the
  -- kernel launches and the cuBLAS calls of the issue log in order of issue, and whose kernels, in
  -- order, are the kernel records in order of correlation id without those that another thread than
  -- the scheduler's launched. The trace has a row for each call, which tells its operation and the
  -- number, first start, last end and longest of its kernels; and a row for each memcpy of the issue
  -- log, which tells it, the id of the scheduler's memcpy call of the same place in order of start, and
  -- the times of the GPU record with that id, if there is one; and no others.
  pub build_colocated_trace-calls :
      (trace : List TraceRow)
      → build_colocated_trace S md ≡ returns trace
      → (calls : List Call) × (foreign : List KernelRecord) × (api : List RuntimeRecord) × (told
          copies : List TraceRow)
        × All IsCall calls
        × (IsAscending (λ (op : IssueRow). pos op.t_issue_ns) (rows calls)
            × Perm (rows calls) (select (λ op. in_kernel_kinds op.kind) md.issue))
        × (IsAscending (λ (k : KernelRecord). pos k.correlation) (kernels calls)
            × All (λ k. IsOthers md k → ⊥) (kernels calls)
            × All (IsOthers md) foreign
            × Perm (kernels calls ++ foreign) md.kernels)
        × TellAll md.clock calls told
        × (IsAscending (λ (r : RuntimeRecord). pos r.start_ns) api
            × Perm api (
                select
                  (λ r. r.cbid == cbid_memcpy_async)
                  (select (λ r. r.thread_id == md.sched_tid) md.runtime)))
        × AreCopies md (select (λ op. in_memcpy_kinds op.kind) md.issue) api copies
        × Perm trace (told ++ copies)
  build_colocated_trace-calls trace h =
      let b = build-Built S md trace h in
      let by_id = S.sort_values KernelRecord (λ k. pos k.correlation) md.kernels in
      let by_scheduler =
        select (λ (r : RuntimeRecord). r.cbid == cbid_memcpy_async)
          (select (λ r. r.thread_id == md.sched_tid) md.runtime) in
      let launches = select (λ (op : IssueRow). in_kernel_kinds op.kind) md.issue in
      (
        b.calls,
        select (is_foreign md) by_id,
        memcpy_calls S md,
        map (call_row md.clock) b.calls,
        memcpy_rows md (memcpy_ops S md) (memcpy_calls S md),
        b.are_calls,
        rw b.rows_eq (
          S.sort_values-IsAscending IssueRow (λ op. pos op.t_issue_ns) launches,
          S.sort_values-perm IssueRow (λ op. pos op.t_issue_ns) launches,
        ),
        rw b.kernels_eq (
          select-IsAscending (λ k. pos k.correlation) (λ k. not (is_foreign md k)) by_id
              (S.sort_values-IsAscending KernelRecord (λ k. pos k.correlation) md.kernels),
          All-selected (λ k. IsOthers md k → ⊥) (λ k. not (is_foreign md k)) (own-not_others md)
              by_id,
          All-selected (IsOthers md) (is_foreign md) (λ k e. (is_foreign_iff md k).0 e) by_id,
          Perm.trans (select-perm (is_foreign md) by_id)
              (S.sort_values-perm KernelRecord (λ k. pos k.correlation) md.kernels),
        ),
        call_rows-TellAll md.clock b.calls,
        (
          S.sort_values-IsAscending RuntimeRecord (λ r. pos r.start_ns) by_scheduler,
          S.sort_values-perm RuntimeRecord (λ r. pos r.start_ns) by_scheduler,
        ),
        memcpy_rows-AreCopies md (memcpy_ops S md) (memcpy_calls S md) b.lengths_eq,
        b.sorted.0,
      )
