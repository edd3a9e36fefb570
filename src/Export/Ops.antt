-- ===== src/Export/Ops.antt =====
-- The operations of a page.
use mathlib.Core.List.{Perm}
use mathlib.Core.List.Perm
use cuda_schedule_project.Prelude.{
  ℕ, suc, ◌≡◌, refl, ap, Option, none, some, List, [], ◌∷◌, map, All, length,
}
use cuda_schedule_project.Prelude.Int.{
  ℤ, pos, ◌-ℤ◌, ◌≤ℤ◌, max_ℤ, min_ℤ, min_ℤ-le, le-max_ℤ, int_laws,
}
use cuda_schedule_project.Prelude.Outcome.{Outcome, returns, bind-returns}
use cuda_schedule_project.Analyze.Trace.{TraceRow}
use cuda_schedule_project.Analyze.Join.Calls.{range_from}
use cuda_schedule_project.Analyze.Pandas.{
  IsAscending, stable_sort, All-stable_sort, stable_sort-perm, stable_sort-IsAscending,
}
use cuda_schedule_project.Export.{
  PageError, trim, Timed, timed_row, host_ts, issue_ts, time_rows, min_host, PageOp, page_op,
  page_ops, op_end, last_end, Page, page_of, barrier_at, load_marks, build_data,
}

abbrev pub row_id : TraceRow → ℕ × ℕ
row_id r = (r.client, r.op_id)

abbrev pub op_id_of : PageOp → ℕ × ℕ
op_id_of op = (op.client, op.op_id)

timed_row-returns :
    (op : TraceRow) (h t : Option ℤ) (timed : Timed)
    → Path (Outcome PageError Timed) (timed_row op h t) (returns timed)
    → timed.row ≡ op
timed_row-returns op none t timed e = cc
timed_row-returns op (some h) none timed e = cc
timed_row-returns op (some h) (some t) timed e =
    let f : timed ≡ record { host = h; issue = t; row = op } = cc in ap (λ (u : Timed). u.row) f

time_rows-rows :
    (trace : List TraceRow) (timed : List Timed)
    → Path (Outcome PageError (List Timed)) (time_rows trace) (returns timed)
    → map (λ (t : Timed). t.row) timed ≡ trace
unfolding time_rows
time_rows-rows [] timed e = let f : timed ≡ [] = cc in rw f refl
time_rows-rows (op ∷ ops) timed e =
    let (t, e1, h1) = bind-returns (timed_row op (host_ts op) (issue_ts op)) _ timed e in
    let (ts, e2, h2) = bind-returns (time_rows ops) _ timed h1 in
    let f : timed ≡ t ∷ ts = cc in
    rw (f, timed_row-returns op (host_ts op) (issue_ts op) t e1, time_rows-rows ops ts e2) refl

min_host-le :
    (m : ℤ) (ts : List Timed)
    → (min_host m ts ≤ℤ m) × All (λ (t : Timed). min_host m ts ≤ℤ t.host) ts
min_host-le m [] = (omega int_laws, tt)
min_host-le m (t ∷ ts) =
    let (le, all) = min_host-le (min_ℤ m t.host) ts in
    let (l, l') = min_ℤ-le m t.host in (omega (int_laws, le, l), (omega (int_laws, le, l'), all))

hosts : (t : Timed) (ts : List Timed) → All (λ (u : Timed). min_host t.host ts ≤ℤ u.host) (t ∷ ts)
hosts t ts = min_host-le t.host ts

last_end-le :
    (t : ℤ) (ops : List PageOp)
    → (t ≤ℤ last_end t ops) × All (λ (op : PageOp). op_end op ≤ℤ last_end t ops) ops
last_end-le t [] = (omega int_laws, tt)
last_end-le t (op ∷ ops) =
    let (le, all) = last_end-le (max_ℤ t (op_end op)) ops in
    let (l, l') = le-max_ℤ t (op_end op) in
    (omega (int_laws, le, l), (omega (int_laws, le, l'), all))

module _ (t0 : ℤ) where
  page_ops-ids :
      (n : ℕ) (ts : List Timed)
      → map op_id_of (page_ops t0 n ts) ≡ map row_id (map (λ (t : Timed). t.row) ts)
  unfolding page_ops page_op
  page_ops-ids n [] = refl
  page_ops-ids n (t ∷ ts) = ap (◌∷◌ (row_id t.row)) (page_ops-ids (suc n) ts)

  page_ops-rnd :
      (n : ℕ) (ts : List Timed)
      → map (λ (op : PageOp). op.rnd) (page_ops t0 n ts) ≡ range_from n (length (page_ops t0 n ts))
  unfolding page_ops page_op
  page_ops-rnd n [] = refl
  page_ops-rnd n (t ∷ ts) = ap (◌∷◌ n) (page_ops-rnd (suc n) ts)

  page_ops-ti :
      (n : ℕ) (ts : List Timed)
      → All (λ (t : Timed). t0 ≤ℤ t.host) ts
      → All (λ (op : PageOp). pos 0 ≤ℤ op.ti) (page_ops t0 n ts)
  unfolding page_ops page_op
  page_ops-ti n [] h = tt
  page_ops-ti n (t ∷ ts) h = let le = h.0 in (omega (int_laws, le), page_ops-ti (suc n) ts h.1)

  page_ops-bound :
      (n : ℕ) (a : ℤ) (ts : List Timed)
      → All (λ (t : Timed). a ≤ℤ t.issue) ts
      → All (λ (op : PageOp). a -ℤ t0 ≤ℤ op.tis) (page_ops t0 n ts)
  unfolding page_ops page_op
  page_ops-bound n a [] h = tt
  page_ops-bound n a (t ∷ ts) h =
      let le = h.0 in (omega (int_laws, le), page_ops-bound (suc n) a ts h.1)

  page_ops-IsAscending :
      (n : ℕ) (ts : List Timed)
      → IsAscending (λ (t : Timed). t.issue) ts
      → IsAscending (λ (op : PageOp). op.tis) (page_ops t0 n ts)
  unfolding page_ops page_op
  page_ops-IsAscending n [] h = tt
  page_ops-IsAscending n (t ∷ ts) h =
      (page_ops-bound (suc n) t.issue ts h.0, page_ops-IsAscending (suc n) ts h.1)

page_of-returns :
    (trace : List TraceRow) (timed : List Timed) (barriers : List (Option ℕ)) (page : Page)
    → map (λ (t : Timed). t.row) timed ≡ trace
    → Path (Outcome PageError Page) (page_of timed barriers) (returns page)
    → Perm (map op_id_of page.ops) (map row_id trace)
      × IsAscending (λ (op : PageOp). op.tis) page.ops
      × (map (λ (op : PageOp). op.rnd) page.ops ≡ range_from 0 (length page.ops))
      × All (λ (op : PageOp). pos 0 ≤ℤ op.ti) page.ops
      × All (λ (op : PageOp). op_end op ≤ℤ page.t_end) page.ops
page_of-returns trace [] barriers page r h = cc
page_of-returns trace (t ∷ ts) barriers page r h =
    let t0 = min_host t.host ts in
    let sorted = stable_sort (λ (u : Timed). u.issue) (t ∷ ts) in
    let perm = stable_sort-perm (λ (u : Timed). u.issue) (t ∷ ts) in
    let ascending = stable_sort-IsAscending (λ (u : Timed). u.issue) (t ∷ ts) in
    let ops = page_ops t0 0 sorted in
    let (b, _, h') = bind-returns (barrier_at t0 barriers (load_marks barriers)) _ page h in
    let f : page ≡ record { t0 = t0; ops = ops; t_end = last_end (pos 0) ops; barrier = b } = cc in
    rw f (
      rw (page_ops-ids t0 0 sorted, ← r) (Perm.map row_id (Perm.map (λ (u : Timed). u.row) perm)),
      page_ops-IsAscending t0 0 sorted ascending,
      page_ops-rnd t0 0 sorted,
      page_ops-ti t0 0 sorted (
          All-stable_sort (λ (u : Timed). u.issue) (λ (u : Timed). t0 ≤ℤ u.host) (t ∷ ts)
            (hosts t ts)),
      (last_end-le (pos 0) ops).1,
    )

-- The rows of a page are those of the trimmed trace, one operation for each, in ascending order of
-- issue and numbered by it. No host time is before the page's zero, and none ends after its end.
pub build_data-returns :
    (trace : List TraceRow) (loads barriers : List (Option ℕ)) (page : Page)
    → build_data trace loads barriers ≡ returns page
    → Perm (map op_id_of page.ops) (map row_id (trim loads trace))
      × IsAscending (λ (op : PageOp). op.tis) page.ops
      × (map (λ (op : PageOp). op.rnd) page.ops ≡ range_from 0 (length page.ops))
      × All (λ (op : PageOp). pos 0 ≤ℤ op.ti) page.ops
      × All (λ (op : PageOp). op_end op ≤ℤ page.t_end) page.ops
unfolding build_data
build_data-returns trace loads barriers page h =
    let (timed, e, h') = bind-returns (time_rows (trim loads trace)) _ page h in
    page_of-returns (trim loads trace) timed barriers page
      (time_rows-rows (trim loads trace) timed e) h'
