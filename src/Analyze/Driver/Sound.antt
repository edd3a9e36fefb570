-- ===== src/Analyze/Driver/Sound.antt =====
-- A run of analyze.py that ends without an error has written a sound trace.
use cuda_schedule_project.Prelude.{
  ℕ, ◌≡◌, refl, sym, ap, subst, ◌∙◌, inl, inr, Bool, true, false, Option, Option-cases, none, some,
  List, [], ◌∷◌, ◌++◌, append_assoc, length,
}
use cuda_schedule_project.Prelude.Outcome.{raises, returns}
use cuda_schedule_project.Analyze.Pandas.{Sorting}
use cuda_schedule_project.Analyze.Trace.{TraceRow, RunData, Traced, build_colocated_trace}
use cuda_schedule_project.Analyze.SelfCheck.{
  Problem, passed, verdict, problems, external_kernels, self_check,
}
use cuda_schedule_project.Analyze.SelfCheck.Spec.{IsSound, self_check_iff}
use cuda_schedule_project.Analyze.Concurrency.{concurrency}
use cuda_schedule_project.Analyze.Driver.{
  AnalyzeError, Mode, colocated, SoloDir, ColocatedDir, Analysis, then_run, durations_of, wrote,
  analyze_seq, analyze_streams, check_result, metrics, colocated_trace, build_if, analyze_colocated,
  each, main,
}

then_run-none :
    (a b : Analysis)
    → (then_run a b).error ≡ none
    → (a.error ≡ none) × (b.error ≡ none) × ((then_run a b).written ≡ a.written ++ b.written)
unfolding then_run
then_run-none a b h = elim (Option-cases a.error) [
  | inl e ↦ (e, rw e at h, rw e refl)
  | inr (err, e) ↦ absurd (let f : Path (Option AnalyzeError) (some err) none = rw e at h in cc)
]

nested_append :
    {A : Type 0} (xs ys zs ws : List A) → xs ++ (ys ++ (zs ++ ws)) ≡ (xs ++ (ys ++ zs)) ++ ws
nested_append xs ys zs ws =
    sym (append_assoc xs (ys ++ zs) ws ∙ ap (λ l. xs ++ l) (append_assoc ys zs ws))

module _ (S : Sorting) where
  check_passes :
      (md : RunData) (window : Option (ℕ × ℕ)) (trace : List TraceRow)
      → (check_result S (self_check S md window trace)).error ≡ none
      → self_check S md window trace ≡ passed (length (external_kernels md window))
  unfolding self_check
  check_passes md window trace h =
      of_verdict (length (external_kernels md window)) (problems S md window trace) h
    where
      of_verdict :
          (external : ℕ) (ps : List Problem)
          → (check_result S (verdict S external ps)).error ≡ none
          → verdict S external ps ≡ passed external
      of_verdict external [] h = refl
      of_verdict external (p ∷ ps) h = cc

  colocated_trace-none :
      (md : RunData) (window : Option (ℕ × ℕ)) (traced : Traced (List TraceRow))
      → (colocated_trace S true md window traced).error ≡ none
      → (trace : List TraceRow) × (traced ≡ returns trace)
        × IsSound S md window trace
        × ((written : List (Mode × List TraceRow)) × ((colocated_trace S true md window
                traced).written
              ≡ (colocated, trace) ∷ written))
  colocated_trace-none md window (raises e) h = cc
  colocated_trace-none md window (returns trace) h =
      let checked = check_result S (self_check S md window trace) in
      let more = metrics S (concurrency trace) in
      let (_, rest, written) = then_run-none (wrote colocated trace) (then_run checked more) h in
      let (passes, _, _) = then_run-none checked more rest in
      (
        trace,
        refl,
        (self_check_iff S md window trace).0 (check_passes md window trace passes),
        (_, written),
      )

  -- What `main` is when there is a colocated directory.
  main-colocated :
      (check : Bool) (seq_dir streams_dir : Option SoloDir) (dir : ColocatedDir)
      → main S check seq_dir streams_dir (some dir)
        ≡ then_run
            (each S seq_dir (analyze_seq S))
            (then_run (each S streams_dir (analyze_streams S)) (analyze_colocated S check dir))
  unfolding main
  main-colocated check none none dir = refl
  main-colocated check none (some t) dir = refl
  main-colocated check (some s) t dir = refl

  build_if-none :
      (has_issue : Bool) (recorded : Option RunData) (window : Option (ℕ × ℕ))
      → has_issue ≡ true
      → (build_if S true has_issue recorded window).error ≡ none
      → (md : RunData) × (trace : List TraceRow) × (recorded ≡ some md)
        × (build_colocated_trace S md ≡ returns trace)
        × IsSound S md window trace
        × ((written : List (Mode × List TraceRow)) × ((build_if S true has_issue recorded
                window).written
              ≡ (colocated, trace) ∷ written))
  build_if-none false recorded window i h = cc
  build_if-none true none window i h = cc
  build_if-none true (some md) window i h =
      let (trace, built, sound, written) =
        colocated_trace-none md window (build_colocated_trace S md) h in
      (md, trace, refl, built, sound, written)

  -- If analyze.py, with its self-check, ends without an error on a run with a colocated directory and an
  -- issue log, then the observer's records are there, the trace of the colocated run was built and
  -- written, and it is sound.
  pub main-IsSound :
      (seq_dir streams_dir : Option SoloDir) (dir : ColocatedDir)
      → dir.has_issue ≡ true
      → (main S true seq_dir streams_dir (some dir)).error ≡ none
      → (md : RunData) × (trace : List TraceRow) × (dir.recorded ≡ some md)
        × (build_colocated_trace S md ≡ returns trace)
        × IsSound S md dir.window trace
        × ((before after : List (Mode × List TraceRow)) × ((main S true seq_dir streams_dir
                (some dir)).written
              ≡ before ++ (colocated, trace) ∷ after))
  unfolding analyze_colocated
  main-IsSound seq_dir streams_dir dir i h =
      let e = main-colocated true seq_dir streams_dir dir in
      let first = each S seq_dir (analyze_seq S) in
      let second = each S streams_dir (analyze_streams S) in
      let third = analyze_colocated S true dir in
      let (_, rest, w1) =
        then_run-none first (then_run second third)
          (subst (λ (a : Analysis). a.error ≡ none) e h) in
      let (_, last, w2) = then_run-none second third rest in
      let built = build_if S true dir.has_issue dir.recorded dir.window in
      let durations = durations_of colocated dir.recorded dir.window in
      let (_, ok, w3) = then_run-none durations built last in
      let (md, trace, recorded, traced, sound, (after, w4)) =
        build_if-none dir.has_issue dir.recorded dir.window i ok in
      (
        md,
        trace,
        recorded,
        traced,
        sound,
        (
          first.written ++ (second.written ++ durations.written),
          after,
          ap (λ (a : Analysis). a.written) e
              ∙ w1
              ∙ ap (λ l. first.written ++ l) w2
              ∙ ap (λ l. first.written ++ (second.written ++ l))
                  (w3 ∙ ap (λ l. durations.written ++ l) w4)
              ∙ nested_append first.written second.written durations.written
                  ((colocated, trace) ∷ after),
        ),
      )
