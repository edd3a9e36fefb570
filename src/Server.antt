-- ===== src/Server.antt =====
-- colocator/visualizer/server.py: what the server answers.
pub mod Listing
pub mod Examples
use cuda_schedule_project.Prelude.{
  ℕ, Bool, true, false, not, ◌&&◌, ◌||◌, Option, none, some, List, [], ◌∷◌, ◌++◌, any,
  if◌then◌else◌,
}
use cuda_schedule_project.Prelude.Text.{codes, same_text}
use cuda_schedule_project.Prelude.Dict.{Text}
use cuda_schedule_project.Pages.{leb_text}

-- The page for a directory without an index, the list of `/api/runs`, and the answer of the
-- standard library's handler.
pub data Response : Type 0 where
  placeholder : Response
  runs : List Text → Response
  delegated : Text → Response

abbrev pub html : Text
html = codes ".html"

abbrev pub index_html : Text
index_html = codes "index.html"

abbrev pub push : ℕ → Option Text → Option Text
push c none = none
push c (some rest) = some (c ∷ rest)

-- `f[:-5]` if `f.endswith(".html")`
unfoldable pub stem : Text → Option Text
stem [] = none
stem (c ∷ text) = let rest = stem text in if same_text (c ∷ text) html then some [] else push c rest

abbrev pub listed : Text → Option Text → List Text → List Text
listed f none names = names
listed f (some name) names = if same_text f index_html then names else name ∷ names

-- The files' stems, in the order of `os.listdir`.
unfoldable pub stems : List Text → List Text
unfolding stem
stems [] = []
stems (f ∷ files) = listed f (stem f) (stems files)

-- `sorted`
unfoldable pub insert_name : Text → List Text → List Text
insert_name x [] = x ∷ []
insert_name x (y ∷ ys) =
    let rest = insert_name x ys in if leb_text x y then x ∷ y ∷ ys else y ∷ rest

unfoldable pub sort_names : List Text → List Text
unfolding insert_name
sort_names [] = []
sort_names (x ∷ xs) = insert_name x (sort_names xs)

-- The runs of `/api/runs`, from the directory's files in any order.
unfoldable pub run_names : List Text → List Text
unfolding stems sort_names
run_names files = sort_names (stems files)

abbrev pub has_file : Text → List Text → Bool
has_file name files = any (λ f. same_text f name) files

unfoldable pub do_get : List Text → Text → Response
do_get files path =
    if (same_text path (codes "/") || same_text path (codes "/index.html"))
      && not (has_file index_html files)
    then placeholder
    else if same_text path (codes "/api/runs")
    then runs (run_names files)
    else delegated path
