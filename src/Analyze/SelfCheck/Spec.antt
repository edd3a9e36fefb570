-- ===== src/Analyze/SelfCheck/Spec.antt =====
-- `self_check` passes exactly the traces that it is meant to pass.
use cuda_schedule_project.Prelude.{
  ℕ, ◌-◌, ◌≡◌, ◌≢◌, refl, ◌↔◌, true, inl, inr, Bool-cases, Option, none, List, [], ◌∷◌, select, All,
  length,
}
use cuda_schedule_project.Prelude.Int.{pos}
use cuda_schedule_project.Analyze.Records.{KernelRecord}
use cuda_schedule_project.Analyze.Pandas.{Sorting}
use cuda_schedule_project.Analyze.Trace.{TraceRow, RunData}
use cuda_schedule_project.Analyze.SelfCheck.{
  Problem, passed, tolerance, exceeds, minus, at_least, is_matched, client_ids, has_drop,
  launch_tid, by_client, in_mode, external_kernels, kernel_rows_of, starts_of, monotonic_problems,
  problems, verdict, self_check,
}
use cuda_schedule_project.Analyze.SelfCheck.Columns.{
  select-All, All-select, All-iff, append-nil_iff, report-nil, Rising, has_drop_iff, NoLater,
  Before, NotBy, exceeds_iff, exceeds-minus_iff, at_least_iff, by_client_iff, is_matched_iff,
  report_iff, unmatched, NoLater-none, Before-none,
}

module _ (S : Sorting) (md : RunData) (window : Option (ℕ × ℕ)) where
  -- What the docstring of the analysis asks of a colocated trace.
  pub record IsSound (trace : List TraceRow) : Type 0 where
    -- Each operation matched a GPU activity record.
    pub matched : All (λ (r : TraceRow). r.t_gpu_start_ns ≢ none) trace
    -- t_intercept ≤ t_issue ≤ t_gpu_start + tolerance, and t_gpu_start < t_gpu_end.
    pub intercepted : All (λ (r : TraceRow). NoLater (pos 0) r.t_intercept_ns r.t_issue_ns) trace
    pub issued :
        All (λ (r : TraceRow). NoLater (tolerance md.clock) r.t_issue_ns r.t_gpu_start_ns) trace
    pub ran : All (λ (r : TraceRow). Before r.t_gpu_start_ns r.t_gpu_end_ns) trace
    -- Each client's GPU kernels start in the order of its operations.
    pub monotonic :
        All
          (λ client. Rising (starts_of S (kernel_rows_of S trace) client))
          (client_ids (kernel_rows_of S trace))
    -- No kernel in the window was launched by a client's own thread.
    pub no_leak :
        All
          (λ (k : KernelRecord). NotBy md.client_tids (launch_tid md k))
          (select (in_mode md window) md.kernels)

  monotonic_problems-nil :
      (kern : List TraceRow) (clients : List ℕ)
      → (monotonic_problems S kern clients ≡ [])
        ↔ All (λ client. Rising (starts_of S kern client)) clients
  unfolding monotonic_problems
  monotonic_problems-nil kern [] = (λ h. tt, λ h. refl)
  monotonic_problems-nil kern (c ∷ cs) = elim (Bool-cases (has_drop (starts_of S kern c))) [
    | inl e ↦ rw e (λ h. cc, λ h. let no_drop = (has_drop_iff (starts_of S kern c)).1 h.0 in cc)
    | inr e ↦ rw e (
      λ h. ((has_drop_iff (starts_of S kern c)).0 e, (monotonic_problems-nil kern cs).0 h),
      λ h. (monotonic_problems-nil kern cs).1 h.1,
    )
  ]

  problems-nil : (trace : List TraceRow) → (problems S md window trace ≡ []) ↔ IsSound trace
  unfolding problems
  problems-nil trace =
      let kern = kernel_rows_of S trace in
      let matched = select is_matched trace in
      let m = report-nil Problem.unmatched (length trace - length matched) in
      let m' = select-All is_matched trace in
      let m'' =
        All-iff (λ (r : TraceRow). is_matched r ≡ true) (λ r. r.t_gpu_start_ns ≢ none) trace
          is_matched_iff in
      let i =
        report_iff Problem.intercept_after_issue
          (λ (r : TraceRow). exceeds r.t_intercept_ns r.t_issue_ns)
          (λ r. NoLater (pos 0) r.t_intercept_ns r.t_issue_ns) trace
          (λ r. exceeds_iff r.t_intercept_ns r.t_issue_ns) in
      let s =
        report_iff Problem.issue_after_start
          (λ (r : TraceRow). exceeds (minus r.t_issue_ns (tolerance md.clock)) r.t_gpu_start_ns)
          (λ r. NoLater (tolerance md.clock) r.t_issue_ns r.t_gpu_start_ns) matched
          (λ r. exceeds-minus_iff r.t_issue_ns r.t_gpu_start_ns (tolerance md.clock)) in
      let s' =
        All-select (λ (r : TraceRow). NoLater (tolerance md.clock) r.t_issue_ns r.t_gpu_start_ns)
          is_matched trace
          (λ r e.
            NoLater-none (tolerance md.clock) r.t_issue_ns r.t_gpu_start_ns (unmatched r e)) in
      let d =
        report_iff Problem.empty_activity
          (λ (r : TraceRow). at_least r.t_gpu_start_ns r.t_gpu_end_ns)
          (λ r. Before r.t_gpu_start_ns r.t_gpu_end_ns) matched
          (λ r. at_least_iff r.t_gpu_start_ns r.t_gpu_end_ns) in
      let d' =
        All-select (λ (r : TraceRow). Before r.t_gpu_start_ns r.t_gpu_end_ns) is_matched trace
          (λ r e. Before-none r.t_gpu_start_ns r.t_gpu_end_ns (unmatched r e)) in
      let o = monotonic_problems-nil kern (client_ids kern) in
      let l =
        report_iff Problem.leaked (λ (k : KernelRecord). by_client md (launch_tid md k))
          (λ k. NotBy md.client_tids (launch_tid md k)) (select (in_mode md window) md.kernels)
          (λ k. by_client_iff md (launch_tid md k)) in
      (
        λ h.
            let (h1, t1) = (append-nil_iff _ _).0 h in
            let (h2, t2) = (append-nil_iff _ _).0 t1 in
            let (h3, t3) = (append-nil_iff _ _).0 t2 in
            let (h4, t4) = (append-nil_iff _ _).0 t3 in
            let (h5, h6) = (append-nil_iff _ _).0 t4 in
            record {
              matched = m''.0 (m'.0 (m.0 h1));
              intercepted = i.0 h2;
              issued = s'.0 (s.0 h3);
              ran = d'.0 (d.0 h4);
              monotonic = o.0 h5;
              no_leak = l.0 h6;
            },
        λ v.
            let t4 = (append-nil_iff _ _).1 (o.1 v.monotonic, l.1 v.no_leak) in
            let t3 = (append-nil_iff _ _).1 (d.1 (d'.1 v.ran), t4) in
            let t2 = (append-nil_iff _ _).1 (s.1 (s'.1 v.issued), t3) in
            let t1 = (append-nil_iff _ _).1 (i.1 v.intercepted, t2) in
            (append-nil_iff _ _).1 (m.1 (m'.1 (m''.1 v.matched)), t1),
      )

  verdict-passed :
      (external : ℕ) (ps : List Problem) → (verdict S external ps ≡ passed external) ↔ (ps ≡ [])
  verdict-passed external [] = (λ h. refl, λ h. refl)
  verdict-passed external (p ∷ ps) = (λ h. cc, λ h. cc)

  -- `self_check` passes a trace, with the number of the kernels in the window that neither a client
  -- nor the scheduler launched, just if the trace is sound: each row has a GPU record, the times of
  -- each row are in order, within the clock's tolerance where two clocks meet, each client's kernels
  -- start in the order of their operations, and no client's thread launched a kernel in the window.
  pub self_check_iff :
      (trace : List TraceRow)
      → (self_check S md window trace ≡ passed (length (external_kernels md window)))
        ↔ IsSound trace
  unfolding self_check
  self_check_iff trace =
      let v = verdict-passed (length (external_kernels md window)) (problems S md window trace) in
      let p = problems-nil trace in (λ h. p.0 (v.0 h), λ h. v.1 (p.1 h))
