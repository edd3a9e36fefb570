-- ===== src/Analyze/Driver/Exported.antt =====
-- What analyze.py writes without an error, the replay page can be made of.
use mathlib.Core.List.{Perm}
use mathlib.Core.List.Perm
use cuda_schedule_project.Prelude.{
  ℕ, ◌≤◌, ◌≡◌, refl, sym, subst, inl, inr, true, Bool-cases, Option, none, some, List, [], ◌∷◌,
  ◌++◌, length, ◌==◌,
}
use cuda_schedule_project.Prelude.Dict.{Text, Dict}
use cuda_schedule_project.Prelude.Outcome.{returns, bind-returns}
use cuda_schedule_project.Analyze.Pandas.{Sorting}
use cuda_schedule_project.Analyze.Trace.{
  TraceRow, RunData, build_colocated_trace, sort_trace, issue_key, lift_join, memcpy_calls,
  memcpy_ops, kernel_rows, kernel_ops, own_kernels, rt_start,
}
use cuda_schedule_project.Analyze.Join.{assign_kernels}
use cuda_schedule_project.Analyze.SelfCheck.Spec.{IsSound}
use cuda_schedule_project.Analyze.Driver.{Mode, colocated, SoloDir, ColocatedDir, main}
use cuda_schedule_project.Analyze.Driver.Sound.{main-IsSound}
use cuda_schedule_project.Export.Data.{ClientResult, Results, PageData, prios_of, page_data}
use cuda_schedule_project.Export.Whole.{page_data_sound}

abbrev IsFilled : List TraceRow → Type 0
IsFilled trace = (op : TraceRow) × (ops : List TraceRow) × (trace ≡ op ∷ ops)

Perm-IsFilled :
    (xs : List TraceRow) (y : TraceRow) (ys : List TraceRow) → Perm xs (y ∷ ys) → IsFilled xs
Perm-IsFilled [] y ys p = absurd (let e = Perm.eq-nil (Perm.symm p) in cc)
Perm-IsFilled (x ∷ xs) y ys p = (x, xs, refl)

module _ (S : Sorting) where
  sort_trace-IsFilled :
      (rows trace : List TraceRow) → sort_trace S rows ≡ returns trace → IsFilled trace
  sort_trace-IsFilled [] trace h = cc
  sort_trace-IsFilled (r ∷ rows) trace h =
      let e : S.sort_values TraceRow issue_key (r ∷ rows) ≡ trace = cc in
      Perm-IsFilled trace r rows
        (subst (λ t. Perm t (r ∷ rows)) e (S.sort_values-perm TraceRow issue_key (r ∷ rows)))

  build-IsFilled :
      (md : RunData) (trace : List TraceRow)
      → build_colocated_trace S md ≡ returns trace
      → IsFilled trace
  unfolding build_colocated_trace
  build-IsFilled md trace h =
      let (idx, _, h1) =
        bind-returns
          (lift_join (
            assign_kernels md.clock (rt_start md) (kernel_ops S md) (own_kernels S md)
              md.clock.offset))
          _ trace h in
      let (rows, _, h2) =
        bind-returns (kernel_rows md.clock (own_kernels S md) (kernel_ops S md) idx) _ trace h1 in
      elim (Bool-cases (length (memcpy_calls S md) == length (memcpy_ops S md))) [
        | inl e ↦ sort_trace-IsFilled _ trace (rw e at h2)
        | inr e ↦ absurd (let f = rw e at h2 in cc)
      ]

  -- If analyze.py, with its self-check, ends without an error on a run with a colocated directory and an
  -- issue log, then the replay data of the trace that it has written can be built, from any results
  -- with a client and a priority for each.
  pub main-page_data :
      (seq_dir streams_dir : Option SoloDir) (dir : ColocatedDir) (decimal : ℕ → Text)
      (pick : List (Option ℕ) → Option ℕ) (label : Text) (results : Results) (c : ClientResult)
      (cs : List ClientResult) (baseline : Option Text) (beside : Text)
      (files : Dict (List ClientResult))
      → dir.has_issue ≡ true
      → (main S true seq_dir streams_dir (some dir)).error ≡ none
      → results.clients ≡ c ∷ cs
      → length results.clients ≤ length (prios_of results)
      → (trace : List TraceRow) × (d : PageData) × ((before after : List (Mode × List TraceRow))
          × ((main S true seq_dir streams_dir (some dir)).written
              ≡ before ++ (colocated, trace) ∷ after))
        × (page_data decimal pick label trace results baseline beside files ≡ returns d)
  main-page_data seq_dir streams_dir dir decimal pick label results c cs baseline beside files i h e
        l =
      let (md, trace, recorded, built, sound, written) =
        main-IsSound S seq_dir streams_dir dir i h in
      let (op, ops, filled) = build-IsFilled md trace built in
      let (d, page, _) =
        page_data_sound decimal pick label S md dir.window op ops results c cs baseline beside files
          (subst (λ t. IsSound S md dir.window t) filled sound) e l in
      (
        trace,
        d,
        written,
        subst (λ t. page_data decimal pick label t results baseline beside files ≡ returns d)
            (sym filled) page,
      )
