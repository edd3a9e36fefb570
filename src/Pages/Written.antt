-- ===== src/Pages/Written.antt =====
-- The rest of export_all.py's `main`: the baseline, the lists of the navigation, and the pages.
use cuda_schedule_project.Prelude.{
  ℕ, Bool, true, false, not, Option, none, some, List, [], ◌∷◌, ◌++◌, map, select, concat, length,
  if◌then◌else◌,
}
use cuda_schedule_project.Prelude.Int.{ℤ}
use cuda_schedule_project.Prelude.Text.{codes, same_text}
use cuda_schedule_project.Prelude.Dict.{Text, Dict, get, put}
use cuda_schedule_project.Prelude.Outcome.{Outcome, raises, returns, ◌>>=◌}
use cuda_schedule_project.Analyze.Trace.{TraceRow}
use cuda_schedule_project.Export.{PageError}
use cuda_schedule_project.Export.Data.{ClientResult, Results, PageClient, PageData, page_data}
use cuda_schedule_project.Pages.{
  Run, page_name, leb_text, NavError, Pairs, pair_map, cfg_axes, throttle_none, solo,
}

-- The elements of a list as a sorted set. `le` is the order.
unfoldable pub insert_by : (Text → Text → Bool) → Text → List Text → List Text
insert_by le x [] = x ∷ []
insert_by le x (y ∷ ys) =
    let rest = insert_by le x ys in
    if same_text x y then y ∷ ys else if le x y then x ∷ y ∷ ys else y ∷ rest

unfoldable pub sorted_set : (Text → Text → Bool) → List Text → List Text
unfolding insert_by
sorted_set le [] = []
sorted_set le (x ∷ xs) = insert_by le x (sorted_set le xs)

-- The order of the keys `(c != "throttle_none", c)`.
abbrev pub leb_cfg : Text → Text → Bool
leb_cfg a b =
    if same_text a throttle_none
    then true
    else if same_text b throttle_none
    then false
    else leb_text a b

abbrev pub given_axes : List (Option Text) → List Text
given_axes [] = []
given_axes (none ∷ axes) = given_axes axes
given_axes (some [] ∷ axes) = given_axes axes
given_axes (some (c ∷ sm) ∷ axes) = (c ∷ sm) ∷ given_axes axes

-- `non_solo`
abbrev pub non_solo : List Run → List Text
non_solo runs = map (λ (r : Run). r.cfg) (select (λ (r : Run). not (same_text r.cfg solo)) runs)

-- `nav`, as far as all pages share it.
pub record Nav : Type 0 where
  pub workloads : List Text
  pub pairs : Pairs
  pub cfgs : List Text
  pub smcfgs : List Text

unfoldable pub nav_of : List Run → Pairs → Nav
unfolding sorted_set
nav_of runs pairs = record {
  workloads = sorted_set leb_text (concat (map (λ (r : Run). r.clients) runs));
  pairs = pairs;
  cfgs = sorted_set leb_cfg (map (λ cfg. (cfg_axes cfg).0) (non_solo runs));
  smcfgs = sorted_set leb_text (given_axes (map (λ cfg. (cfg_axes cfg).1) (non_solo runs)));
}

-- A page: its data, and the navigation with its own configuration.
pub record WrittenPage : Type 0 where
  pub contents : PageData
  pub nav : Nav
  pub cur_cfg : Text

-- A line of the index, but for the size of the file.
pub record Row : Type 0 where
  pub page : Text
  pub label : Text
  pub clients : List Text
  pub prios : List ℤ
  pub policy : Text
  pub n_ops : ℕ
  pub t_end_us : ℕ

pub data ExportError : Type 0 where
  nav_error : NavError → ExportError
  page_error : PageError → ExportError

abbrev pub lift_page : {A : Type 0} → Outcome PageError A → Outcome ExportError A
lift_page (raises e) = raises (page_error e)
lift_page (returns a) = returns a

abbrev pub lift_nav : {A : Type 0} → Outcome NavError A → Outcome ExportError A
lift_nav (raises e) = raises (nav_error e)
lift_nav (returns a) = returns a

-- `p if os.path.exists(p) else default`
abbrev pub if_there : {V : Type 0} → Dict V → Text → Option Text → Option Text
if_there files path default = elim (get path files) [ none ↦ default | some v ↦ some path ]

-- `default_baseline`, from `--baseline` and the two places where a baseline is looked for.
unfoldable pub default_baseline : {V : Type 0} → Option Text → Dict V → Text → Text → Option Text
default_baseline none files solo_path full_path =
    if_there files solo_path (if_there files full_path none)
default_baseline (some []) files solo_path full_path =
    if_there files solo_path (if_there files full_path none)
default_baseline (some (c ∷ path)) files solo_path full_path = some (c ∷ path)

-- `content` is what a run's trace.json and results.json hold, `own_seq` the path of its own seq
-- results, and `files` leads from the path of a results.json to its clients.
module _ (decimal : ℕ → Text) (pick : List (Option ℕ) → Option ℕ)
    (content : Run → List TraceRow × Results) (own_seq : Run → Text)
    (files : Dict (List ClientResult)) where
  abbrev pub Site : Type 0
  Site = Dict WrittenPage × List Row

  abbrev pub row_of : Run → PageData → Row
  row_of r d = record {
    page = page_name r.cfg r.name;
    label = r.name ++ (codes " (" ++ (r.cfg ++ codes ")"));
    clients = map (λ (c : PageClient). c.name) d.clients;
    prios = map (λ (c : PageClient). c.prio) d.clients;
    policy = d.policy;
    n_ops = length d.page.ops;
    t_end_us = d.t_end_us;
  }

  -- The loop over `exportable`.
  unfoldable pub write_pages : Nav → Option Text → List Run → Site → Outcome PageError Site
  write_pages nav baseline [] site = returns site
  write_pages nav baseline (r ∷ runs) site = do
    d ←
        page_data decimal pick r.name (content r).0 (content r).1
          (if_there files (own_seq r) baseline) (own_seq r) files
    let page : WrittenPage = record { contents = d; nav = nav; cur_cfg = r.cfg }
    write_pages nav baseline runs
        (put (page_name r.cfg r.name) page site.0, site.1 ++ row_of r d ∷ [])

  -- `main`, from the runs of the scan on.
  unfoldable pub export_runs : Option Text → List Run → Outcome ExportError (Nav × Site)
  unfolding write_pages
  export_runs baseline runs = do
    pairs ← lift_nav (pair_map runs [])
    site ← lift_page (write_pages (nav_of runs pairs) baseline runs ([], []))
    returns (nav_of runs pairs, site)
