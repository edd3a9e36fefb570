-- ===== src/Pairs/Config.antt =====
-- The directory of a configuration, and the checks of the names.
use cuda_schedule_project.Prelude.{
  ◌≡◌, refl, ◌↔◌, Bool, true, false, ◌||◌, inl, inr, Bool-cases, Option, none, some, List, [], ◌∷◌,
  ◌++◌, All,
}
use cuda_schedule_project.Prelude.Outcome.{Outcome, returns, bind-returns}
use cuda_schedule_project.Prelude.Text.{codes, begins, begins-append}
use cuda_schedule_project.Prelude.Dict.{Text, Dict, get}
use cuda_schedule_project.Pages.{is_config}
use cuda_schedule_project.Pairs.{
  PairsError, Options, given, check_name, check_names, is_throttle, or_two, config_of, config,
  combinations, failed_pairs, run_pairs,
}

is_config-sm_limit : (text : Text) → is_config (codes "smlimit_" ++ text) ≡ true
is_config-sm_limit text =
    rw (begins-append (codes "smlimit_") text)
      (or_true (begins (codes "throttle_") (codes "smlimit_" ++ text)))
  where
    or_true : (b : Bool) → (b || true) ≡ true
    or_true true = refl
    or_true false = refl

is_config-throttle : (text : Text) → is_config (codes "throttle_" ++ text) ≡ true
is_config-throttle text = rw (begins-append (codes "throttle_") text) refl

config_of-is_config :
    (sm_limit policy throttle : Option Text) → is_config (config_of sm_limit policy throttle) ≡ true
config_of-is_config (some text) policy throttle = is_config-sm_limit text
config_of-is_config none policy throttle = elim (Bool-cases (is_throttle policy)) [
  | inl e ↦ rw e (is_config-throttle (or_two throttle))
  | inr e ↦ rw e (is_config-throttle (codes "none"))
]

-- Whatever the options are, the scan of export_all.py takes the directory that run_pairs.py makes
-- for them for that of a configuration.
pub config-is_config : (o : Options) → is_config (config o) ≡ true
unfolding config
config-is_config o = config_of-is_config (given o.sm_limit) o.policy (given o.throttle)

check_name-returns :
    (n : Text) (o : Option Bool) (u : Unit {0})
    → Path (Outcome PairsError (Unit {0})) (check_name n o) (returns u)
    → o ≡ some true
unfolding check_name
check_name-returns n none u h = cc
check_name-returns n (some false) u h = cc
check_name-returns n (some true) u h = refl

check_names-returns :
    (registry : Dict Bool) (names : List Text) (u : Unit {0})
    → Path (Outcome PairsError (Unit {0})) (check_names registry names) (returns u)
    → All (λ (n : Text). get n registry ≡ some true) names
unfolding check_names
check_names-returns registry [] u h = tt
check_names-returns registry (n ∷ names) u h =
    let (v, e, h') = bind-returns (check_name n (get n registry)) _ u h in
    (check_name-returns n (get n registry) v e, check_names-returns registry names u h')

pub check_names-ok :
    (registry : Dict Bool) (names : List Text)
    → All (λ (n : Text). get n registry ≡ some true) names
    → Path (Outcome PairsError (Unit {0})) (check_names registry names) (returns tt)
unfolding check_names check_name
check_names-ok registry [] h = refl
check_names-ok registry (n ∷ names) h =
    let e = h.0 in rw (e, check_names-ok registry names h.1) refl

-- With a solo baseline, the run over the pairs returns just if every name is that of a registered
-- workload that can be colocated, and returns the names of the pairs whose run failed, among all
-- pairs of the names.
pub run_pairs-cases :
    (registry : Dict Bool) (runs_ok : Text × Text → Bool) (names failed : List Text)
    → Path (Outcome PairsError (List Text)) (run_pairs registry true runs_ok names) (returns failed)
      ↔ (All (λ (n : Text). get n registry ≡ some true) names
          × (failed ≡ failed_pairs runs_ok (combinations names)))
unfolding run_pairs
run_pairs-cases registry runs_ok names failed = (
  λ h.
      let (u, e, h') = bind-returns (check_names registry names) _ failed h in
      let f : failed ≡ failed_pairs runs_ok (combinations names) = cc in
      (check_names-returns registry names u e, f),
  λ (all, f). rw (check_names-ok registry names all, f) refl,
)
