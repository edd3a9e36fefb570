-- ===== src/Analyze/Trace/Colocated.antt =====
-- The colocated trace: one row for each operation of the issue log.
use mathlib.Core.List.{Perm}
use mathlib.Core.List.Perm
use cuda_schedule_project.Prelude.Outcome.{◌>>=◌, raises, returns}
use cuda_schedule_project.Prelude.{
  ℕ, ◌+◌, ◌≡◌, refl, ap, ap₂, ◌∙◌, ◌<◌, true, List, [], ◌∷◌, ◌++◌, map, map-append, select, length,
  length-append, length-map, arith, All, inl, inr, Bool-cases, ◌==◌,
}
use cuda_schedule_project.Prelude.Int.{pos}
use cuda_schedule_project.Analyze.Records.{OpKind, IssueRow, RuntimeRecord}
use cuda_schedule_project.Analyze.Kinds.{in_kernel_kinds, in_memcpy_kinds}
use cuda_schedule_project.Analyze.Clock.{Clock}
use cuda_schedule_project.Analyze.Pandas.{Sorting, IsAscending}
use cuda_schedule_project.Analyze.Join.{Joined, assign_kernels}
use cuda_schedule_project.Analyze.Join.Calls.{Call, IsCall, rows, kernels, places}
use cuda_schedule_project.Analyze.Join.Sound.{assign_kernels-calls}
use cuda_schedule_project.Analyze.Trace.{
  TraceRow, RunData, Traced, lift_join, rt_start, kernel_row, kernel_rows, memcpy_rows, issue_key,
  own_kernels, kernel_ops, memcpy_ops, memcpy_calls, sort_trace, build_colocated_trace,
}
use cuda_schedule_project.Analyze.Trace.Gather.{call_row, kernel_rows-places}

>>=-eq-returns {ℓ κ} :
    {A : Type ℓ} {B : Type κ} (m : Traced A) (f : A → Traced B) {b : B}
    → (m >>= f) ≡ returns b
    → (a : A) × (m ≡ returns a) × (f a ≡ returns b)
>>=-eq-returns (returns a) f h = (a, refl, h)
>>=-eq-returns (raises e) f h = cc

lift_join-eq-returns {ℓ} :
    {A : Type ℓ} (m : Joined A) {a : A} → lift_join m ≡ returns a → m ≡ returns a
lift_join-eq-returns (returns a) h = cc
lift_join-eq-returns (raises e) h = cc

-- What names an operation: the client, its number there, and the kind.
abbrev pub issue_id : IssueRow → ℕ × ℕ × OpKind
issue_id op = (op.client, op.op_id, op.kind)

abbrev pub trace_id : TraceRow → ℕ × ℕ × OpKind
trace_id row = (row.client, row.op_id, row.kind)

call_row-ids :
    (c : Clock) (calls : List Call)
    → map trace_id (map (call_row c) calls) ≡ map issue_id (rows calls)
unfolding kernel_row
call_row-ids c [] = refl
call_row-ids c (call ∷ calls) = ap (◌∷◌ (issue_id call.op)) (call_row-ids c calls)

memcpy_rows-ids :
    (md : RunData) (ops : List IssueRow) (api : List RuntimeRecord)
    → length api ≡ length ops
    → map trace_id (memcpy_rows md ops api) ≡ map issue_id ops
unfolding memcpy_rows
memcpy_rows-ids md [] [] e = refl
memcpy_rows-ids md [] (r ∷ api) e = absurd (omega arith)
memcpy_rows-ids md (op ∷ ops) [] e = absurd (omega arith)
memcpy_rows-ids md (op ∷ ops) (r ∷ api) e =
    ap (◌∷◌ (issue_id op)) (memcpy_rows-ids md ops api (omega arith))

module _ (S : Sorting) (md : RunData) where
  -- The rows of the trace before its last sort.
  abbrev pub joined_rows : List Call → List TraceRow
  joined_rows calls =
      map (call_row md.clock) calls ++ memcpy_rows md (memcpy_ops S md) (memcpy_calls S md)

  sort_trace-eq-returns :
      (xs : List TraceRow) (trace : List TraceRow)
      → sort_trace S xs ≡ returns trace
      → Perm trace xs × IsAscending issue_key trace
  sort_trace-eq-returns [] trace h = cc
  sort_trace-eq-returns (x ∷ xs) trace h =
      let e : trace ≡ S.sort_values TraceRow issue_key (x ∷ xs) = cc in
      rw e (
        S.sort_values-perm TraceRow issue_key (x ∷ xs),
        S.sort_values-IsAscending TraceRow issue_key (x ∷ xs),
      )

  -- What a build that returns has found.
  pub record Built (trace : List TraceRow) : Type 0 where
    pub calls : List Call
    pub are_calls : All IsCall calls
    pub rows_eq : rows calls ≡ kernel_ops S md
    pub kernels_eq : kernels calls ≡ own_kernels S md
    pub lengths_eq : length (memcpy_calls S md) ≡ length (memcpy_ops S md)
    pub sorted : Perm trace (joined_rows calls) × IsAscending issue_key trace

  joined :
      (calls : List Call) (found : List TraceRow)
      → kernel_rows md.clock (own_kernels S md) (kernel_ops S md) (places 0 calls) ≡ returns found
      → rows calls ≡ kernel_ops S md
      → kernels calls ≡ own_kernels S md
      → found ≡ map (call_row md.clock) calls
  joined calls found e r k = let all_rows = kernel_rows-places md.clock [] 0 calls refl in cc

  pub build-Built :
      (trace : List TraceRow) → build_colocated_trace S md ≡ returns trace → Built trace
  unfolding build_colocated_trace
  build-Built trace h =
      let (idx, h1, h2) =
        >>=-eq-returns
          (lift_join (
            assign_kernels md.clock (rt_start md) (kernel_ops S md) (own_kernels S md)
              md.clock.offset))
          _ h in
      let (calls, is, r, k, o) =
        assign_kernels-calls md.clock (rt_start md) (kernel_ops S md) (own_kernels S md)
          md.clock.offset idx (lift_join-eq-returns _ h1) in
      let (found, h3, h4) =
        >>=-eq-returns (kernel_rows md.clock (own_kernels S md) (kernel_ops S md) idx) _ h2 in
      let f : found ≡ map (call_row md.clock) calls = joined calls found (rw o at h3) r k in
      elim (Bool-cases (length (memcpy_calls S md) == length (memcpy_ops S md))) [
        | inr e ↦ cc (rw e at h4)
        | inl e ↦ record {
          calls = calls;
          are_calls = is;
          rows_eq = r;
          kernels_eq = k;
          lengths_eq = ground arith;
          sorted = rw f at (
              sort_trace-eq-returns (found ++ memcpy_rows md (memcpy_ops S md) (memcpy_calls S md))
                trace (rw e at h4));
        }
      ]

  abbrev pub traced_ops : List IssueRow
  traced_ops =
      select (λ op. in_kernel_kinds op.kind) md.issue
      ++ select (λ op. in_memcpy_kinds op.kind) md.issue

  ids_perm :
      (calls : List Call)
      → rows calls ≡ kernel_ops S md
      → length (memcpy_calls S md) ≡ length (memcpy_ops S md)
      → Perm (map trace_id (joined_rows calls)) (map issue_id traced_ops)
  ids_perm calls r e =
      let own = select (λ op. in_kernel_kinds op.kind) md.issue in
      let same : map trace_id (joined_rows calls)
          ≡ map issue_id (kernel_ops S md) ++ map issue_id (memcpy_ops S md) =
        map-append trace_id (map (call_row md.clock) calls)
          (memcpy_rows md (memcpy_ops S md) (memcpy_calls S md))
        ∙ ap₂ ◌++◌ (call_row-ids md.clock calls ∙ ap (map issue_id) r)
            (memcpy_rows-ids md (memcpy_ops S md) (memcpy_calls S md) e) in
      rw (same, map-append)
        (Perm.append (Perm.map issue_id (S.sort_values-perm IssueRow (λ op. pos op.t_issue_ns) own))
          Perm.rfl)

  -- A colocated trace that is returned has exactly one row for each kernel launch, cuBLAS call and
  -- memcpy of the issue log, and for nothing else, in ascending order of issue.
  pub build_colocated_trace-ids :
      (trace : List TraceRow)
      → build_colocated_trace S md ≡ returns trace
      → Perm (map trace_id trace) (map issue_id traced_ops) × IsAscending issue_key trace
  build_colocated_trace-ids trace h =
      let b = build-Built trace h in
      (
        Perm.trans (Perm.map trace_id b.sorted.0) (ids_perm b.calls b.rows_eq b.lengths_eq),
        b.sorted.1,
      )

  sort_trace_total :
      (xs : List TraceRow) → 0 < length xs → (t : List TraceRow) × (sort_trace S xs ≡ returns t)
  sort_trace_total [] h = absurd (omega arith)
  sort_trace_total (x ∷ xs) h = (S.sort_values TraceRow issue_key (x ∷ xs), refl)

  some_row :
      (calls : List Call)
      → rows calls ≡ kernel_ops S md
      → length (memcpy_calls S md) ≡ length (memcpy_ops S md)
      → 0 < length (kernel_ops S md) + length (memcpy_ops S md)
      → 0 < length (joined_rows calls)
  some_row calls r e h =
      let copies = memcpy_rows md (memcpy_ops S md) (memcpy_calls S md) in
      let ids = memcpy_rows-ids md (memcpy_ops S md) (memcpy_calls S md) e in
      omega (
        arith,
        length-append (map (call_row md.clock) calls) copies,
        length-map calls (call_row md.clock),
        length-map calls (λ (c : Call). c.op),
        ap length r,
        length-map copies trace_id,
        length-map (memcpy_ops S md) issue_id,
        ap length ids,
      )

  -- If the kernels join, the memcpys number as many as their runtime records, and the issue log has
  -- some such operation, then the colocated trace is built: no index is out of range and no call is
  -- without a kernel.
  pub build_colocated_trace_total :
      (idx_lists : List (List ℕ))
      → assign_kernels md.clock (rt_start md) (kernel_ops S md) (own_kernels S md) md.clock.offset
        ≡ returns idx_lists
      → length (memcpy_calls S md) ≡ length (memcpy_ops S md)
      → 0 < length (kernel_ops S md) + length (memcpy_ops S md)
      → (trace : List TraceRow) × (build_colocated_trace S md ≡ returns trace)
  unfolding build_colocated_trace
  build_colocated_trace_total idx h e some_op =
      let (calls, _, r, k, o) =
        assign_kernels-calls md.clock (rt_start md) (kernel_ops S md) (own_kernels S md)
          md.clock.offset idx h in
      let all_rows : kernel_rows md.clock (own_kernels S md) (kernel_ops S md) idx
          ≡ returns (map (call_row md.clock) calls) =
        rw (o, ← r, ← k) (kernel_rows-places md.clock [] 0 calls refl) in
      let same : (length (memcpy_calls S md) == length (memcpy_ops S md)) ≡ true = ground arith in
      let (t, built) = sort_trace_total (joined_rows calls) (some_row calls r e some_op) in
      (t, rw (h, all_rows, same) built)
