-- ===== src/Pages/Examples.antt =====
-- The runs of two pairs under one configuration.
use cuda_schedule_project.Prelude.{
  ℕ, ◌≡◌, refl, Bool, true, false, Option, none, some, List, [], ◌∷◌, map, arith,
}
use cuda_schedule_project.Prelude.Outcome.{Outcome, raises, returns}
use cuda_schedule_project.Prelude.Text.{codes, begins}
use cuda_schedule_project.Prelude.Dict.{Text, get, put}
use cuda_schedule_project.Pages.{
  ModeDir, RunDir, Entry, Run, Scan, ensure_trace, scan_run, scan_solo, scan_config, scan_entry,
  scan_entries, page_name, cfg_axes, split_plus, first_with, throttle_none, NavError, joined, Pairs,
  pair_map, add_page,
}
use cuda_schedule_project.Analyze.Trace.{TraceRow}
use cuda_schedule_project.Analyze.Trace.Examples.{run_trace, computing}
use cuda_schedule_project.Export.{build_data, trim, time_rows}
use cuda_schedule_project.Export.Data.{ClientResult, Results, page_data, data_of, page_clients}
use cuda_schedule_project.Pages.Written.{
  Nav, nav_of, Site, ExportError, export_runs, sorted_set, insert_by, leb_cfg,
}
use cuda_schedule_project.Pages.Links.{HasPage, export_runs-HasPage}
use cuda_schedule_project.Pages.Navigation.{page_at, page_of, pair_map-page_of}
use cuda_schedule_project.Prelude.{◌↔◌, ◌⊎◌}
use cuda_schedule_project.Pages.Layouts.{IsIn, IsLaidOut}
use cuda_schedule_project.Pages.Scanned.{scan_entries-exportable}

abbrev throttle_2 : Text
throttle_2 = codes "throttle_2"

abbrev run : List ℕ → List Text → Run
run name clients = record { cfg = throttle_2; name = name; clients = clients }

abbrev both : List Text
both = codes "fma" ∷ codes "dram" ∷ []

-- An older run of the pair, its canonical run, and a copy of it.
abbrev runs : List Run
runs = run (codes "old") both ∷ run (codes "dram__fma") both ∷ run (codes "copy") both ∷ []

canonical_page :
    page_of (codes "dram|fma") throttle_2 none runs ≡ some (codes "dram__fma.throttle_2.html")
unfolding joined page_name
canonical_page = refl

pair_map-page_of_example :
    (built : Pairs) × Path (Outcome NavError Pairs) (pair_map runs []) (returns built)
    × ((k c : Text) → page_at built k c ≡ page_of k c (page_at [] k c) runs)
pair_map-page_of_example = pair_map-page_of runs [] (omega arith, (omega arith, (omega arith, tt)))

abbrev mode_dir : Bool → List Text → ModeDir
mode_dir has_kernels clients = record {
  has_trace = false;
  has_kernels = has_kernels;
  analyzes = true;
  traced = true;
  clients = clients;
}

abbrev run_dir : Text → Option ModeDir → Option ModeDir → RunDir
run_dir name colocated seq = record { name = name; colocated = colocated; seq = seq }

abbrev entries : List Entry
entries =
    record {
      is_dir = true;
      run = run_dir (codes "prio") (some (mode_dir true both)) none;
      runs = [];
    }
    ∷ record {
      is_dir = true;
      run = run_dir (codes "llm") none (some (mode_dir true (codes "llmdecode" ∷ [])));
      runs = [];
    }
    ∷ record {
      is_dir = true;
      run = run_dir throttle_2 none none;
      runs = run_dir (codes "dram__fma") (some (mode_dir false both)) none ∷ [];
    }
    ∷ []

abbrev nothing : Scan
nothing = record { exportable = []; skipped = [] }

-- The third is recorded without the observer.
skipped_run : (scan_entries entries nothing).skipped ≡ (throttle_2, codes "dram__fma") ∷ []
unfolding scan_entries scan_entry scan_run scan_config scan_solo ensure_trace begins
skipped_run = refl

scan_entries-exportable_example :
    IsIn (run (codes "fma__dram") both) (scan_entries entries nothing).exportable
    ↔ (((e : Entry) × IsIn e entries × IsLaidOut e (run (codes "fma__dram") both)) ⊎ ⊥)
scan_entries-exportable_example =
    scan_entries-exportable entries nothing (run (codes "fma__dram") both)

combined_axes :
    cfg_axes (codes "throttle_4+smlimit_50") ≡ (codes "throttle_4", some (codes "smlimit_50"))
unfolding cfg_axes split_plus first_with begins
combined_axes = refl

sm_limit_axes : cfg_axes (codes "smlimit_50") ≡ (throttle_none, some (codes "smlimit_50"))
unfolding cfg_axes split_plus first_with begins
sm_limit_axes = refl

-- The site of one run of a pair.
abbrev no_decimal : ℕ → Text
no_decimal n = []

abbrev no_pick : List (Option ℕ) → Option ℕ
no_pick streams = none

abbrev client_named : Text → ClientResult
client_named name = record {
  name = name;
  iters = some 2;
  desc = none;
  lat = [];
  load_done = none;
  barrier_ns = none;
}

abbrev content : Run → List TraceRow × Results
content r = (
  run_trace,
  record {
    mode = codes "colocated";
    clients = map client_named r.clients;
    priorities = none;
    sm_limit = none;
    policy = none;
  },
)

abbrev own_seq : Run → Text
own_seq r = codes "seq"

abbrev no_nav : Nav
no_nav = record { workloads = []; pairs = []; cfgs = []; smcfgs = [] }

abbrev exported : Nav × Site no_decimal no_pick content own_seq []
exported = site_or (export_runs no_decimal no_pick content own_seq [] none runs)
  where
    site_or :
        Outcome ExportError (Nav × Site no_decimal no_pick content own_seq [])
        → Nav × Site no_decimal no_pick content own_seq []
    site_or (returns site) = site
    site_or (raises e) = (no_nav, ([], []))

export_runs-HasPage_example : HasPage (codes "dram__fma.throttle_2.html") exported.1.0
unfolding computing export_runs nav_of pair_map add_page joined page_name get put page_data data_of
    build_data trim time_rows page_clients
export_runs-HasPage_example =
    export_runs-HasPage no_decimal no_pick content own_seq [] none runs exported.0 exported.1
      (codes "dram|fma") throttle_2 (codes "dram__fma.throttle_2.html") refl refl

sorted_cfgs :
    sorted_set leb_cfg (throttle_2 ∷ codes "smlimit_50" ∷ throttle_none ∷ throttle_2 ∷ [])
    ≡ throttle_none ∷ codes "smlimit_50" ∷ throttle_2 ∷ []
unfolding sorted_set insert_by
sorted_cfgs = refl
