-- ===== src/Demo/Ends.antt =====
-- How `main` ends.
use cuda_schedule_project.Prelude.{
  ℕ, suc, ◌≡◌, ◌≢◌, refl, ap, sym, subst, ◌∙◌, ◌↔◌, inl, inr, Bool, true, false, not, ◌&&◌, Option,
  none, List, [], ◌∷◌, ◌++◌, map, All, any, if◌then◌else◌,
}
use cuda_schedule_project.Prelude.Dict.{Text, Dict}
use cuda_schedule_project.Prelude.Outcome.{Outcome, raises, returns, Outcome-cases}
use cuda_schedule_project.Frontend.Env.{
  Managed, kept, too_late, reexec, ensure_managed_env, ensure_managed_env-reexec,
}
use cuda_schedule_project.Demo.{DemoError}
use cuda_schedule_project.Demo.Driver.{
  Mode, Choice, modes_of, is_colocated, Summed, summarize, Written, MainEnd, replaced,
  observer_failed, ran, run_modes, observed, in_env, main,
}

module _ {E Res : Type 0} where
  pub observed_run :
      (stop : Bool) (files : List (Written Res)) (error : Option (DemoError E))
      (files' : List (Written Res)) (error' : Option (DemoError E))
      → Path (MainEnd E Res) (if stop then observer_failed else ran files error) (ran files' error')
      → (files ≡ files') × (error ≡ error')
  observed_run true files error files' error' h = cc
  observed_run false files error files' error' h = (cc, cc)

  pub main_run :
      (test : Bool) (managed : Managed) (run : MainEnd E Res) (files : List (Written Res))
      (error : Option (DemoError E))
      → (if test then in_env managed run else run) ≡ ran files error
      → run ≡ ran files error
  main_run true kept run files error h = h
  main_run true too_late run files error h = cc
  main_run true (reexec env) run files error h = cc
  main_run false managed run files error h = h

module _ {E Res : Type 0} (runner : Mode → Outcome (DemoError E) Res)
    (clients : Res → List Summed) where
  -- The mode's run returns, and its summary is printed.
  abbrev pub Works : Mode → Type 0
  Works m =
      (res : Res) × Path (Outcome (DemoError E) Res) (runner m) (returns res)
      × Path (Outcome (DemoError E) (Unit {0})) (summarize (clients res)) (returns tt)

  -- The files are those of the first modes, each with what its run returned, and there is no error
  -- just if all modes work; then all have a file.
  pub record IsEnd (modes : List Mode) (files : List (Written Res)) (error : Option (DemoError E))
      : Type 0 where
    pub left : List Mode
    pub in_order : modes ≡ map (λ (w : Written Res). w.mode) files ++ left
    pub returned :
        All
          (λ (w : Written Res). Path (Outcome (DemoError E) Res) (runner w.mode) (returns w.result))
          files
    pub error_iff : (error ≡ none) ↔ All Works modes
    pub all_written : error ≡ none → left ≡ []

  not_Works :
      (m : Mode) (res : Res) (e : DemoError E)
      → Path (Outcome (DemoError E) Res) (runner m) (returns res)
      → Path (Outcome (DemoError E) (Unit {0})) (summarize (clients res)) (raises e)
      → Works m
      → ⊥
  not_Works m res e works failed (res', works', printed) =
      let same : res ≡ res' = cc in
      let f : Path (Outcome (DemoError E) (Unit {0})) (raises e) (returns tt) =
        sym failed ∙ ap (λ r. summarize (clients r)) same ∙ printed in
      cc

  run_modes-IsEnd :
      (clock : ℕ → ℕ) (observer : Bool) (n : ℕ) (modes : List Mode)
      → IsEnd modes
          (run_modes runner clients clock observer n modes).0
          (run_modes runner clients clock observer n modes).1
  unfolding run_modes
  run_modes-IsEnd clock observer n [] = record {
    left = [];
    in_order = refl;
    returned = tt;
    error_iff = (λ h. tt, λ h. refl);
    all_written = λ h. refl;
  }
  run_modes-IsEnd clock observer n (m ∷ modes) = elim (Outcome-cases (runner m)) [
    | inl (e, failed) ↦ rw failed record {
      left = m ∷ modes;
      in_order = refl;
      returned = tt;
      error_iff = (λ h. cc, λ (w, all). let works = w.1 in cc);
      all_written = λ h. cc;
    }
    | inr (res, works) ↦ elim (Outcome-cases (summarize {E = E} (clients res))) [
      | inl (e, failed) ↦
          rw (works, failed)
            record {
              left = modes;
              in_order = refl;
              returned = (works, tt);
              error_iff = (λ h. cc, λ (w, all). absurd (not_Works m res e works failed w));
              all_written = λ h. cc;
            }
      | inr (u, printed) ↦
          let v = run_modes-IsEnd clock observer (suc (suc n)) modes in
          rw (works, printed)
            record {
              left = v.left;
              in_order = ap (λ ms. m ∷ ms) v.in_order;
              returned = (works, v.returned);
              error_iff =
                  (λ h. ((res, works, printed), v.error_iff.0 h), λ (w, all). v.error_iff.1 all);
              all_written = v.all_written;
            }
    ]
  ]

  -- The files and the error of a run of `main` that came to its modes. The files are those of the first
  -- modes of the run, in order, each with what the run of its mode returned. There is no error just if
  -- the run of every mode returns and its summary is printed; then every mode has its file.
  pub main-ran :
      (clock : ℕ → ℕ) (obs_ok : Bool) (libcol : Text) (torch_loaded : Bool) (env : Dict Text)
      (choice : Choice) (observer : Bool) (files : List (Written Res))
      (error : Option (DemoError E))
      → main runner clients clock obs_ok libcol torch_loaded env choice observer ≡ ran files error
      → IsEnd (modes_of choice) files error
  unfolding main
  main-ran clock obs_ok libcol torch_loaded env choice observer files error h =
      let r = run_modes runner clients clock observer 0 (modes_of choice) in
      let o : observed runner clients clock obs_ok choice observer ≡ ran files error =
        main_run _ _ _ files error h in
      let (same, same') = observed_run (observer && not obs_ok) r.0 r.1 files error o in
      subst (λ f. IsEnd (modes_of choice) f error) same
        (subst (IsEnd (modes_of choice) r.0) same'
          (run_modes-IsEnd clock observer 0 (modes_of choice)))

  in_env_replaced :
      (test : Bool) (managed : Managed) (run : MainEnd E Res) (env' : Dict Text)
      → ((env : Dict Text) → run ≢ replaced env)
      → (if test then in_env managed run else run) ≡ replaced env'
      → managed ≡ reexec env'
  in_env_replaced true kept run env' never h = absurd (never env' h)
  in_env_replaced true too_late run env' never h = cc
  in_env_replaced true (reexec env) run env' never h = let same : env ≡ env' = cc in ap reexec same
  in_env_replaced false managed run env' never h = absurd (never env' h)

  observed_kept :
      (clock : ℕ → ℕ) (obs_ok : Bool) (choice : Choice) (observer : Bool) (env : Dict Text)
      → observed runner clients clock obs_ok choice observer ≢ replaced env
  observed_kept clock obs_ok choice observer env h = not_replaced (observer && not obs_ok) _ _ env h
    where
      not_replaced :
          (stop : Bool) (files : List (Written Res)) (error : Option (DemoError E))
          (env : Dict Text)
          → (if stop then observer_failed else ran files error) ≢ replaced env
      not_replaced true files error env h = cc
      not_replaced false files error env h = cc

  main_kept :
      (test : Bool) (managed : Managed) (run : MainEnd E Res)
      → managed ≡ kept
      → (if test then in_env managed run else run) ≡ run
  main_kept true managed run e = rw e refl
  main_kept false managed run e = refl

  -- `main` executes the interpreter again at most once: in the environment that the new one gets it
  -- comes to its modes, or to the observer's error, whether or not torch is loaded by then.
  pub main-replaced :
      (clock : ℕ → ℕ) (obs_ok : Bool) (libcol : Text) (torch_loaded torch_loaded' : Bool)
      (env env' : Dict Text) (choice : Choice) (observer : Bool)
      → main runner clients clock obs_ok libcol torch_loaded env choice observer ≡ replaced env'
      → main runner clients clock obs_ok libcol torch_loaded' env' choice observer
        ≡ observed runner clients clock obs_ok choice observer
  unfolding main
  main-replaced clock obs_ok libcol torch_loaded torch_loaded' env env' choice observer h =
      let run = observed runner clients clock obs_ok choice observer in
      let e =
        in_env_replaced (any is_colocated (modes_of choice))
          (ensure_managed_env libcol torch_loaded env) run env'
          (observed_kept clock obs_ok choice observer) h in
      let again = (ensure_managed_env-reexec libcol torch_loaded env env' e).0 torch_loaded' in
      main_kept (any is_colocated (modes_of choice)) (ensure_managed_env libcol torch_loaded' env')
        run again
