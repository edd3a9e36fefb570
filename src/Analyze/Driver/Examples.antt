-- ===== src/Analyze/Driver/Examples.antt =====
-- The analysis of the example's run, and the page of its trace.
use cuda_schedule_project.Prelude.{
  ℕ, ◌≡◌, refl, true, Option, none, some, List, [], ◌∷◌, ◌++◌, arith,
}
use cuda_schedule_project.Prelude.Text.{codes}
use cuda_schedule_project.Prelude.Dict.{Text}
use cuda_schedule_project.Prelude.Outcome.{returns}
use cuda_schedule_project.Analyze.Pandas.{stable_sorting}
use cuda_schedule_project.Analyze.Trace.{TraceRow, first_record}
use cuda_schedule_project.Analyze.Trace.Examples.{run, computing}
use cuda_schedule_project.Analyze.SelfCheck.{
  tolerance, insert_id, client_ids, has_drop, monotonic_problems, problems, self_check,
}
use cuda_schedule_project.Analyze.Concurrency.{concurrency}
use cuda_schedule_project.Analyze.Durations.{kernel_durations}
use cuda_schedule_project.Analyze.Driver.{
  Mode, colocated, ColocatedDir, no_modes, then_run, analyze_colocated, main,
}
use cuda_schedule_project.Analyze.Driver.Exported.{main-page_data}
use cuda_schedule_project.Export.Data.{ClientResult, Results, PageData, page_data}

abbrev dir : ColocatedDir
dir = record { has_issue = true; recorded = some run; window = none }

unfoldable analyzing : Unit {0}
unfolding computing first_record tolerance insert_id client_ids has_drop monotonic_problems problems
    self_check concurrency kernel_durations then_run analyze_colocated main
analyzing = tt

ends_well : (main stable_sorting true none none (some dir)).error ≡ none
unfolding analyzing
ends_well = refl

no_directory : (main stable_sorting true none none none).error ≡ some no_modes
unfolding main
no_directory = refl

abbrev client : ClientResult
client = record {
  name = codes "fma";
  iters = some 2;
  desc = none;
  lat = 10 ∷ [];
  load_done = none;
  barrier_ns = none;
}

abbrev results : Results
results = record {
  mode = codes "colocated";
  clients = client ∷ [];
  priorities = none;
  sm_limit = none;
  policy = none;
}

abbrev no_decimal : ℕ → Text
no_decimal n = []

abbrev no_pick : List (Option ℕ) → Option ℕ
no_pick streams = none

main-page_data_example :
    (trace : List TraceRow) × (d : PageData) × ((before after : List (Mode × List TraceRow))
      × ((main stable_sorting true none none (some dir)).written
          ≡ before ++ (colocated, trace) ∷ after))
    × (page_data no_decimal no_pick (codes "run") trace results none [] [] ≡ returns d)
main-page_data_example =
    main-page_data stable_sorting none none dir no_decimal no_pick (codes "run") results client []
      none [] [] refl ends_well refl (omega arith)
