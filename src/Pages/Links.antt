-- ===== src/Pages/Links.antt =====
-- Every link of the navigation leads to a page that is written, and every configuration can be chosen.
use cuda_schedule_project.Prelude.{
  ◌≡◌, sym, ap, subst, ◌∙◌, ◌⊎◌, inl, inr, ℕ, true, false, not, ◌||◌, Bool, Bool-cases, Option,
  some, List, [], ◌∷◌, if◌then◌else◌,
}
use cuda_schedule_project.Prelude.Text.{codes, same_text, same_text→≡, same_text_refl}
use cuda_schedule_project.Prelude.Dict.{Text, Dict, get, put, get-put, get-put_other}
use cuda_schedule_project.Prelude.Outcome.{Outcome, raises, returns, bind-returns}
use cuda_schedule_project.Analyze.Trace.{TraceRow}
use cuda_schedule_project.Export.{PageError}
use cuda_schedule_project.Export.Data.{ClientResult, Results, page_data}
use cuda_schedule_project.Pages.{
  Run, page_name, NavError, joined, Pairs, is_some, add_page, is_skipped, pair_map,
}
use cuda_schedule_project.Pages.Navigation.{page_at, chosen, add_page_at}
use cuda_schedule_project.Pages.Written.{
  Nav, nav_of, Site, write_pages, ExportError, lift_page, lift_nav, export_runs, if_there,
}

-- The file is the page of one of the runs.
abbrev pub IsPageOf : Text → List Run → Type 0
IsPageOf file [] = ⊥
IsPageOf file (r ∷ runs) = (page_name r.cfg r.name ≡ file) ⊎ IsPageOf file runs

from_chosen :
    (test : Bool) (canonical : Text) (r : Run) (old : Option Text) (file : Text)
    → (if test then chosen canonical r old else old) ≡ some file
    → (page_name r.cfg r.name ≡ file) ⊎ (old ≡ some file)
from_chosen true canonical r old file h =
    elim (Bool-cases (not (is_some old) || same_text r.name canonical)) [
      | inl e ↦ let f = rw e at h in inl cc
      | inr e ↦ let f = rw e at h in inr f
    ]
from_chosen false canonical r old file h = inr h

-- A link of the navigation was there before, or is to the page of a run.
pair_map-IsPageOf :
    (runs : List Run) (pairs built : Pairs) (key cfg file : Text)
    → Path (Outcome NavError Pairs) (pair_map runs pairs) (returns built)
    → page_at built key cfg ≡ some file
    → (page_at pairs key cfg ≡ some file) ⊎ IsPageOf file runs
unfolding pair_map
pair_map-IsPageOf [] pairs built key cfg file h at =
    let same : pairs ≡ built = cc in inl (subst (λ p. page_at p key cfg ≡ some file) (sym same) at)
pair_map-IsPageOf (r ∷ runs) pairs built key cfg file h at = elim (Bool-cases (is_skipped r)) [
  | inl e ↦ elim (pair_map-IsPageOf runs pairs built key cfg file (rw e at h) at) [
    | inl before ↦ inl before
    | inr later ↦ inr (inr later)
  ]
  | inr e ↦
      let h' = rw e at h in
      let (k, _, h1) = bind-returns (joined (codes "|") r.clients) _ built h' in
      let (canonical, _, h2) = bind-returns (joined (codes "__") r.clients) _ built h1 in
      elim (pair_map-IsPageOf runs (add_page k canonical r pairs) built key cfg file h2 at) [
        | inl added ↦
            elim (from_chosen _ canonical r (page_at pairs key cfg) file
              (sym (add_page_at k canonical r pairs key cfg) ∙ added)) [
                | inl here ↦ inr (inl here)
                | inr before ↦ inl before
              ]
        | inr later ↦ inr (inr later)
      ]
]

abbrev pub HasPage : {V : Type 0} → Text → Dict V → Type 0
HasPage {V} file pages = (page : V) × (get file pages ≡ some page)

put-HasPage :
    {V : Type 0} (file key : Text) (page : V) (pages : Dict V)
    → HasPage file pages ⊎ (key ≡ file)
    → HasPage file (put key page pages)
put-HasPage file key page pages h = elim (Bool-cases (same_text key file)) [
  | inl e ↦
      let same : key ≡ file = same_text→≡ key file e in
      (page, subst (λ f. get f (put key page pages) ≡ some page) same (get-put key page pages))
  | inr e ↦ elim h [
    | inl (old, found) ↦ (old, get-put_other key file page pages e ∙ found)
    | inr same ↦
        absurd
          (let f = same_text_refl key in let g = subst (λ t. same_text key t ≡ true) same f in cc)
  ]
]

module _ (decimal : ℕ → Text) (pick : List (Option ℕ) → Option ℕ)
    (content : Run → List TraceRow × Results) (own_seq : Run → Text)
    (files : Dict (List ClientResult)) where
  write_pages-HasPage :
      (nav : Nav) (baseline : Option Text) (runs : List Run)
      (site site' : Site decimal pick content own_seq files) (file : Text)
      → Path
          (Outcome PageError (Site decimal pick content own_seq files))
          (write_pages decimal pick content own_seq files nav baseline runs site)
          (returns site')
      → HasPage file site.0 ⊎ IsPageOf file runs
      → HasPage file site'.0
  unfolding write_pages
  write_pages-HasPage nav baseline [] site site' file h (inl has) =
      let same : site ≡ site' = cc in subst (λ s. HasPage file s.0) same has
  write_pages-HasPage nav baseline [] site site' file h (inr nowhere) = absurd nowhere
  write_pages-HasPage nav baseline (r ∷ runs) site site' file h has =
      let (d, _, h') =
        bind-returns
          (page_data decimal pick r.name (content r).0 (content r).1
            (if_there files (own_seq r) baseline) (own_seq r) files)
          _ site' h in
      write_pages-HasPage nav baseline runs _ site' file h' (elim has [
        | inl before ↦ inl (put-HasPage file (page_name r.cfg r.name) _ site.0 (inl before))
        | inr (inl here) ↦ inl (put-HasPage file (page_name r.cfg r.name) _ site.0 (inr here))
        | inr (inr later) ↦ inr later
      ])

  only_runs :
      (key cfg file : Text) (runs : List Run)
      → (page_at [] key cfg ≡ some file) ⊎ IsPageOf file runs
      → IsPageOf file runs
  unfolding get
  only_runs key cfg file runs (inl before) = cc
  only_runs key cfg file runs (inr linked) = linked

  lift_nav-returns :
      (m : Outcome NavError Pairs) (pairs : Pairs)
      → Path (Outcome ExportError Pairs) (lift_nav m) (returns pairs)
      → Path (Outcome NavError Pairs) m (returns pairs)
  lift_nav-returns (raises e) pairs h = cc
  lift_nav-returns (returns p) pairs h = let same : p ≡ pairs = cc in ap returns same

  lift_page-returns :
      {A : Type 0} (m : Outcome PageError A) (a : A)
      → Path (Outcome ExportError A) (lift_page m) (returns a)
      → Path (Outcome PageError A) m (returns a)
  lift_page-returns (raises e) a h = cc
  lift_page-returns (returns b) a h = let same : b ≡ a = cc in ap returns same

  -- When the export returns, every link of the navigation is to a page that it has written: the file
  -- that the selectors lead to for a pair of workloads and a configuration is among the pages.
  pub export_runs-HasPage :
      (baseline : Option Text) (runs : List Run) (nav : Nav)
      (site : Site decimal pick content own_seq files) (key cfg file : Text)
      → Path
          (Outcome ExportError (Nav × Site decimal pick content own_seq files))
          (export_runs decimal pick content own_seq files baseline runs)
          (returns (nav, site))
      → page_at nav.pairs key cfg ≡ some file
      → HasPage file site.0
  unfolding export_runs nav_of
  export_runs-HasPage baseline runs nav site key cfg file h at =
      let (pairs, e, h1) = bind-returns (lift_nav (pair_map runs [])) _ (nav, site) h in
      let (site', e', h2) =
        bind-returns
          (lift_page (
            write_pages decimal pick content own_seq files (nav_of runs pairs) baseline runs
              ([], [])))
          _ (nav, site) h1 in
      let same_nav : nav_of runs pairs ≡ nav = cc in
      let same_site : site' ≡ site = cc in
      let at' : page_at (nav_of runs pairs).pairs key cfg ≡ some file =
        subst (λ (n : Nav). page_at n.pairs key cfg ≡ some file) (sym same_nav) at in
      let linked = pair_map-IsPageOf runs [] pairs key cfg file (lift_nav-returns _ pairs e) at' in
      let page_of_run : IsPageOf file runs = only_runs key cfg file runs linked in
      subst (λ s. HasPage file s.0) same_site
        (write_pages-HasPage (nav_of runs pairs) baseline runs ([], []) site' file
          (lift_page-returns _ site' e') (inr page_of_run))
