-- ===== src/Server/Examples.antt =====
-- A directory with one page and its index.
use cuda_schedule_project.Prelude.{◌≡◌, refl, List, [], ◌∷◌, ◌++◌}
use cuda_schedule_project.Prelude.Text.{codes}
use cuda_schedule_project.Prelude.Dict.{Text}
use cuda_schedule_project.Pages.{page_name}
use cuda_schedule_project.Server.{
  placeholder, runs, stem, stems, insert_name, sort_names, run_names, do_get,
}
use cuda_schedule_project.Server.Listing.{Has, do_get-page_name}

abbrev files : List Text
files = codes "dram__fma.throttle_2.html" ∷ codes "index.html" ∷ codes "notes.txt" ∷ []

api_runs : do_get files (codes "/api/runs") ≡ runs (codes "dram__fma.throttle_2" ∷ [])
unfolding do_get run_names stems stem sort_names insert_name
api_runs = refl

sorted_runs :
    run_names (codes "fma.x.html" ∷ codes "dram.x.html" ∷ []) ≡ codes "dram.x" ∷ codes "fma.x" ∷ []
unfolding run_names stems stem sort_names insert_name
sorted_runs = refl

no_index : do_get [] (codes "/") ≡ placeholder
unfolding do_get
no_index = refl

do_get-page_name_example :
    (names : List Text) × (do_get files (codes "/api/runs") ≡ runs names)
    × Has (codes "dram__fma" ++ (codes "." ++ codes "throttle_2")) names
unfolding page_name
do_get-page_name_example =
    do_get-page_name files 0 (codes "throttle_2") (codes "dram__fma") refl refl
