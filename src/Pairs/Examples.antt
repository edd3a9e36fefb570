-- ===== src/Pairs/Examples.antt =====
-- Three workloads, one of which cannot be colocated.
use cuda_schedule_project.Prelude.{
  ℕ, ◌≡◌, refl, Bool, true, false, not, ◌||◌, any, map, ◌++◌, Option, arith, none, some, List, [],
  ◌∷◌, All, length,
}
use cuda_schedule_project.Prelude.Outcome.{Outcome, raises, returns}
use cuda_schedule_project.Prelude.Text.{codes, same_text}
use cuda_schedule_project.Prelude.Dict.{Text, Dict, get, put}
use cuda_schedule_project.Workload.{round_div}
use cuda_schedule_project.Pages.{is_config}
use cuda_schedule_project.Pairs.{
  PairsError, not_colocatable, Options, check_name, check_names, iterations, extra_args, config,
  combinations, run_pairs,
}
use cuda_schedule_project.Analyze.Pandas.{stable_sort}
use cuda_schedule_project.Pairs.Main.{
  Solo, World, Args, chosen_names, split_comma, sort_names, by_name, twice_median, main,
}
use cuda_schedule_project.Pairs.Measured.{HasIters}
use cuda_schedule_project.Pairs.Returned.{args_of, solo_runs, main-run_pairs}
use cuda_schedule_project.Pairs.Config.{config-is_config}

abbrev registry : Dict Bool
registry = (codes "dram", true) ∷ (codes "fma", true) ∷ (codes "hidden", false) ∷ []

abbrev names : List Text
names = codes "dram" ∷ codes "fma" ∷ []

abbrev options : Options
options = record {
  priorities = none;
  policy = some (codes "throttle");
  throttle = some (codes "4");
  sm_limit = some (codes "50");
}

iterations_7_ms : iterations 14_000_000 ≡ some 71
unfolding iterations round_div
iterations_7_ms = refl

-- Under both limits the directory names the SM limit alone.
combined_config : config options ≡ codes "smlimit_50"
unfolding config
combined_config = refl

combined_args : length (extra_args options) ≡ 6
unfolding extra_args
combined_args = refl

refused_name :
    run_pairs registry true (λ p. true) (codes "fma" ∷ codes "hidden" ∷ [])
    ≡ raises (not_colocatable (codes "hidden"))
unfolding run_pairs check_names check_name get
refused_name = refl

config-is_config_example : is_config (config options) ≡ true
config-is_config_example = config-is_config options

-- A run of the two workloads without a baseline, in which the pairs with themselves fail.
abbrev baseline : Solo
baseline = (codes "dram", 5_000_000 ∷ []) ∷ (codes "fma", 7_000_000 ∷ 8_000_000 ∷ []) ∷ []

abbrev ok_unless : List Text → Bool
ok_unless args =
    not (any (λ t. same_text t (codes "dram,dram") || same_text t (codes "fma,fma")) args)

abbrev run_demo : List Text → Option Solo → Bool × Option Solo
run_demo args solo = (ok_unless args, some baseline)

abbrev digits : ℕ → Text
digits n = codes "71"

abbrev pair_run : Args
pair_run = record {
  workloads = some (codes "fma,dram");
  out = codes "runs";
  skip_solo = true;
  options = options;
}

abbrev fresh : World
fresh = record { solo = none; ran = [] }

chosen : chosen_names registry (some (codes "fma,dram")) ≡ names
unfolding chosen_names split_comma sort_names
chosen = refl

main-run_pairs_example :
    let chosen = chosen_names registry pair_run.workloads in
    (iters : Dict ℕ) × (w' : World) × (failed : List Text) × Path
      (Outcome PairsError (List Text × World))
      (main run_demo digits registry pair_run fresh)
      (returns (failed, w'))
    × Path
        (Outcome PairsError (List Text))
        (run_pairs registry true
          (λ p. ok_unless (args_of run_demo digits ok_unless (λ args solo. refl) pair_run iters p))
          chosen)
        (returns failed)
    × (w'.ran
        ≡ (fresh.ran
            ++ solo_runs run_demo digits ok_unless (λ args solo. refl) pair_run chosen fresh)
          ++ map
              (args_of run_demo digits ok_unless (λ args solo. refl) pair_run iters)
              (combinations chosen))
    × All (HasIters iters) chosen
unfolding chosen_names split_comma sort_names by_name twice_median stable_sort get put
main-run_pairs_example =
    main-run_pairs run_demo digits ok_unless (λ args solo. refl) registry pair_run fresh baseline
      (refl, (refl, tt)) refl refl
      (
        (5_000_000 ∷ [], 10_000_000, refl, refl, omega arith),
        ((7_000_000 ∷ 8_000_000 ∷ [], 15_000_000, refl, refl, omega arith), tt),
      )
