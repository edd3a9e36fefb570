-- ===== src/Server/Listing.antt =====
-- The server lists the pages that the exporter writes.
use cuda_schedule_project.Prelude.{
  ℕ, zero, suc, get_elem?, ◌≡◌, refl, ap, sym, ◌∙◌, subst, inl, inr, false, Bool-cases, Option,
  none, some, List, [], ◌∷◌, ◌++◌, append_assoc, length, length-append, arith,
}
use cuda_schedule_project.Prelude.Text.{codes, same_text, same_text→≡}
use cuda_schedule_project.Prelude.Dict.{Text}
use cuda_schedule_project.Pages.{leb_text, page_name}
use cuda_schedule_project.Server.{
  runs, html, index_html, stem, listed, stems, insert_name, sort_names, run_names, do_get,
}

longer : (c : ℕ) (text : Text) → same_text (c ∷ (text ++ html)) html ≡ false
longer c text = elim (Bool-cases (same_text (c ∷ (text ++ html)) html)) [
  | inl e ↦
      let same = ap length (same_text→≡ (c ∷ (text ++ html)) html e) in
      absurd (omega (arith, same, length-append text html))
  | inr e ↦ e
]

stem-html : (text : Text) → stem (text ++ html) ≡ some text
unfolding stem
stem-html [] = refl
stem-html (c ∷ text) = rw (longer c text, stem-html text) refl

-- Whether a name stands in a list.
abbrev pub Has : Text → List Text → Type 0
Has name names = (i : ℕ) × (get_elem? names i ≡ some name)

Has-listed :
    (f : Text) (o : Option Text) (name : Text) (names : List Text)
    → Has name names
    → Has name (listed f o names)
Has-listed f none name names h = h
Has-listed f (some other) name names h = elim (Bool-cases (same_text f index_html)) [
  | inl e ↦ rw e h
  | inr e ↦ rw e (suc h.0, h.1)
]

stems-Has :
    (files : List Text) (i : ℕ) (text : Text)
    → get_elem? files i ≡ some (text ++ html)
    → same_text (text ++ html) index_html ≡ false
    → Has text (stems files)
unfolding stems
stems-Has [] i text h n = cc
stems-Has (f ∷ files) zero text h n =
    let e : f ≡ text ++ html = cc in rw (e, stem-html text, n) (zero, refl)
stems-Has (f ∷ files) (suc i) text h n =
    Has-listed f (stem f) text (stems files) (stems-Has files i text h n)

Has-insert_new : (x : Text) (names : List Text) → Has x (insert_name x names)
unfolding insert_name
Has-insert_new x [] = (zero, refl)
Has-insert_new x (y ∷ ys) = elim (Bool-cases (leb_text x y)) [
  | inl e ↦ rw e (zero, refl)
  | inr e ↦ let (i, h) = Has-insert_new x ys in rw e (suc i, h)
]

Has-insert_old :
    (x name : Text) (names : List Text) → Has name names → Has name (insert_name x names)
unfolding insert_name
Has-insert_old x name [] (i, h) = cc
Has-insert_old x name (y ∷ ys) (i, h) = elim (Bool-cases (leb_text x y)) [
  | inl e ↦ rw e (suc i, h)
  | inr e ↦ rw e (Has-below x name y ys i h (λ j g. Has-insert_old x name ys (j, g)))
]
  where
    Has-below :
        (x name y : Text) (ys : List Text) (i : ℕ)
        → get_elem? (y ∷ ys) i ≡ some name
        → ((j : ℕ) → get_elem? ys j ≡ some name → Has name (insert_name x ys))
        → Has name (y ∷ insert_name x ys)
    Has-below x name y ys zero h f = (zero, h)
    Has-below x name y ys (suc j) h f = let (p, g) = f j h in (suc p, g)

sort_names-Has : (names : List Text) (name : Text) → Has name names → Has name (sort_names names)
unfolding sort_names
sort_names-Has [] name (i, h) = cc
sort_names-Has (x ∷ xs) name (zero, h) =
    let same : x ≡ name = cc in rw same (Has-insert_new name (sort_names xs))
sort_names-Has (x ∷ xs) name (suc i, h) =
    Has-insert_old x name (sort_names xs) (sort_names-Has xs name (i, h))

page_name-html : (cfg name : Text) → page_name cfg name ≡ (name ++ (codes "." ++ cfg)) ++ html
unfolding page_name
page_name-html cfg name =
    ap (λ (t : Text). name ++ t) (sym (append_assoc (codes ".") cfg html))
    ∙ sym (append_assoc name (codes "." ++ cfg) html)

-- For a page that export_all.py has written, other than one called index.html, `/api/runs` answers
-- with a list that has the page's run and configuration.
pub do_get-page_name :
    (files : List Text) (i : ℕ) (cfg name : Text)
    → get_elem? files i ≡ some (page_name cfg name)
    → same_text (page_name cfg name) index_html ≡ false
    → (names : List Text) × (do_get files (codes "/api/runs") ≡ runs names)
      × Has (name ++ (codes "." ++ cfg)) names
unfolding do_get run_names
do_get-page_name files i cfg name h n =
    let e = page_name-html cfg name in
    (
      run_names files,
      refl,
      sort_names-Has (stems files) (name ++ (codes "." ++ cfg)) (
          stems-Has files i (name ++ (codes "." ++ cfg)) (h ∙ ap some e)
            (subst (λ (t : Text). same_text t index_html ≡ false) e n)),
    )
