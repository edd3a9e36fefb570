-- ===== src/Pairs/Returned.antt =====
-- A measured run of the pairs returns, with every pair run once, and does what `run_pairs` says.
use cuda_schedule_project.Prelude.{
  ℕ, ◌≡◌, refl, sym, ap, ap₂, ◌∙◌, inl, inr, Bool, true, ◌&&◌, Bool-cases, Option, none, some, List,
  [], ◌∷◌, ◌++◌, map, All, append_assoc, append-nil, if◌then◌else◌,
}
use cuda_schedule_project.Prelude.Outcome.{Outcome, returns}
use cuda_schedule_project.Prelude.Dict.{Text, Dict, get}
use cuda_schedule_project.Pairs.{PairsError, combinations, pair_name, failed_pairs, run_pairs}
use cuda_schedule_project.Pairs.Config.{check_names-ok}
use cuda_schedule_project.Pairs.Main.{
  Solo, World, Args, chosen_names, by_name, solo_args, is_there, run, pair_args, run_each,
  solo_step, main,
}
use cuda_schedule_project.Pairs.Measured.{IsMeasured, HasIters, iters_of-returns, All-combinations}

abbrev pub or_zero : Option ℕ → ℕ
or_zero none = 0
or_zero (some k) = k

abbrev pub iters_at : Dict ℕ → Text → ℕ
iters_at iters n = or_zero (get n iters)

iters_at-some : (iters : Dict ℕ) (n : Text) (k : ℕ) → get n iters ≡ some k → iters_at iters n ≡ k
iters_at-some iters n k e = ap or_zero e

failed_pairs-cons :
    (runs_ok : Text × Text → Bool) (p : Text × Text) (pairs : List (Text × Text))
    → failed_pairs runs_ok (p ∷ pairs)
      ≡ (if runs_ok p then failed_pairs runs_ok pairs else pair_name p ∷ failed_pairs runs_ok pairs)
unfolding failed_pairs
failed_pairs-cons runs_ok p pairs = elim (Bool-cases (runs_ok p)) [
  | inl e ↦ rw e refl
  | inr e ↦ rw e refl
]

module _ (exec : List Text → Option Solo → Bool × Option Solo) (decimal : ℕ → Text)
    (ok : List Text → Bool)
    (steady : (args : List Text) (solo : Option Solo) → (exec args solo).0 ≡ ok args) where
  -- The arguments of a pair's run.
  abbrev pub args_of : Args → Dict ℕ → Text × Text → List Text
  args_of args iters p = pair_args exec decimal args p (iters_at iters p.0) (iters_at iters p.1)

  run_each-returns :
      (args : Args) (iters : Dict ℕ) (pairs : List (Text × Text)) (w : World)
      → All (λ (p : Text × Text). HasIters iters p.0 × HasIters iters p.1) pairs
      → (w' : World) × Path
          (Outcome PairsError (List Text × World))
          (run_each exec decimal args iters pairs w)
          (returns (failed_pairs (λ p. ok (args_of args iters p)) pairs, w'))
        × (w'.ran ≡ w.ran ++ map (args_of args iters) pairs)
  unfolding run_each run failed_pairs
  run_each-returns args iters [] w h = (w, refl, sym (append-nil w.ran))
  run_each-returns args iters (p ∷ pairs) w (((k, e, lo, hi), (l, e', lo', hi')), h) =
      let a = pair_args exec decimal args p k l in
      let w1 : World = record { solo = (exec a w.solo).1; ran = w.ran ++ a ∷ [] } in
      let (w', r, ran) = run_each-returns args iters pairs w1 h in
      let same : args_of args iters p ≡ a =
        ap₂ (pair_args exec decimal args p) (iters_at-some iters p.0 k e)
          (iters_at-some iters p.1 l e') in
      let later = failed_pairs (λ p. ok (args_of args iters p)) pairs in
      let fails : (if ok a then later else pair_name p ∷ later)
          ≡ failed_pairs (λ p. ok (args_of args iters p)) (p ∷ pairs) =
        ap (λ b. if b then later else pair_name p ∷ later) (ap ok (sym same))
        ∙ sym (failed_pairs-cons (λ p. ok (args_of args iters p)) p pairs) in
      (
        w',
        rw (e, e', r, steady a w.solo) refl ∙ ap (λ l. returns (l, w')) fails,
        ran
            ∙ append_assoc w.ran (a ∷ []) (map (args_of args iters) pairs)
            ∙ ap (λ first. w.ran ++ first ∷ map (args_of args iters) pairs) (sym same),
      )

  -- The runs of the solo step.
  abbrev pub solo_runs : Args → List Text → World → List (List Text)
  solo_runs args names w =
      if args.skip_solo && is_there w.solo then [] else solo_args args.out names ∷ []

  -- The baseline after the solo step, and the world.
  abbrev pub solo_after : Args → List Text → World → Option Solo
  solo_after args names w =
      if args.skip_solo && is_there w.solo
      then w.solo
      else (exec (solo_args args.out names) w.solo).1

  solo_step-returns :
      (args : Args) (names : List Text) (w : World)
      → ok (solo_args args.out names) ≡ true
      → Path (Outcome PairsError World) (solo_step exec decimal args names w) (
          returns
            (record { solo = solo_after args names w; ran = w.ran ++ solo_runs args names w }))
  unfolding solo_step run
  solo_step-returns args names w h = elim (Bool-cases (args.skip_solo && is_there w.solo)) [
    | inl e ↦ rw (e, append-nil w.ran) refl
    | inr e ↦ rw (e, steady (solo_args args.out names) w.solo, h) refl
  ]

  -- Let the success of a run of run_demo.py depend on its arguments alone, each name be that of a
  -- registered workload that can be colocated, the solo run succeed, and the baseline after it have
  -- for each name latencies with a median above 0. Then `main` returns. It has run, beside the solo
  -- run if there was none to reuse, each pair of the names once, in order, with 3 to 5000 iterations for
  -- each of the two, and its result is that of `run_pairs`: the names of the pairs that failed.
  pub main-run_pairs :
      (registry : Dict Bool) (args : Args) (w : World) (solo : Solo)
      → let names = chosen_names registry args.workloads in
        All (λ (n : Text). get n registry ≡ some true) names
        → ok (solo_args args.out names) ≡ true
        → solo_after args names w ≡ some solo
        → IsMeasured (by_name solo []) names
        → (iters : Dict ℕ) × (w' : World) × (failed : List Text) × Path
            (Outcome PairsError (List Text × World))
            (main exec decimal registry args w)
            (returns (failed, w'))
          × Path
              (Outcome PairsError (List Text))
              (run_pairs registry true (λ p. ok (args_of args iters p)) names)
              (returns failed)
          × (w'.ran
              ≡ (w.ran ++ solo_runs args names w) ++ map (args_of args iters) (combinations names))
          × All (HasIters iters) names
  unfolding main run_pairs
  main-run_pairs registry args w solo good h there measured =
      let names = chosen_names registry args.workloads in
      let (iters, e, all) = iters_of-returns (by_name solo []) names measured in
      let start : World = record { solo = some solo; ran = w.ran ++ solo_runs args names w } in
      let (w', r, ran) =
        run_each-returns args iters (combinations names) start
          (All-combinations (HasIters iters) names all) in
      let c = check_names-ok registry names good in
      (
        iters,
        w',
        failed_pairs (λ p. ok (args_of args iters p)) (combinations names),
        rw (c, solo_step-returns args names w h, there, e, r) refl,
        rw c refl,
        ran,
        all,
      )
