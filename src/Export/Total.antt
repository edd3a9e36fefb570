-- ===== src/Export/Total.antt =====
-- The traces of which a page is built.
use cuda_schedule_project.Prelude.{
  ℕ, ◌≡◌, refl, Bool, true, false, Option, none, some, List, [], ◌∷◌, All, if◌then◌else◌,
}
use cuda_schedule_project.Prelude.Int.{ℤ, pos}
use cuda_schedule_project.Prelude.Outcome.{Outcome, returns}
use cuda_schedule_project.Analyze.Trace.{TraceRow}
use cuda_schedule_project.Analyze.Pandas.{stable_sort}
use cuda_schedule_project.Export.{
  PageError, host_ts, issue_ts, load_marks, trim, Timed, time_rows, min_host, page_ops, last_end,
  page_of, barrier_at, Page, build_data,
}

-- The row has a host time and an issue time, or a GPU start in their place.
abbrev pub HasTimes : TraceRow → Type 0
HasTimes op = (h t : ℤ) × (host_ts op ≡ some h) × (issue_ts op ≡ some t)

time_rows-returns :
    (op : TraceRow) (ops : List TraceRow)
    → All HasTimes (op ∷ ops)
    → (t : Timed) × (ts : List Timed) × Path
        (Outcome PageError (List Timed))
        (time_rows (op ∷ ops))
        (returns (t ∷ ts))
unfolding time_rows
time_rows-returns op [] ((h, t, e, e'), all) =
    (record { host = h; issue = t; row = op }, [], rw (e, e') refl)
time_rows-returns op (op' ∷ ops) ((h, t, e, e'), all) =
    let (u, us, more) = time_rows-returns op' ops all in
    (record { host = h; issue = t; row = op }, u ∷ us, rw (e, e', more) refl)

if-returns :
    (test : Bool) (a b : Option ℤ)
    → (o : Option ℤ) × Path
        (Outcome PageError (Option ℤ))
        (if test then returns a else returns b)
        (returns o)
if-returns true a b = (a, refl)
if-returns false a b = (b, refl)

barrier_at-returns :
    (t0 : ℤ) (b : Option ℕ) (bs : List (Option ℕ)) (marks : List ℕ)
    → (o : Option ℤ) × Path
        (Outcome PageError (Option ℤ))
        (barrier_at t0 (b ∷ bs) marks)
        (returns o)
barrier_at-returns t0 b bs [] = (none, refl)
barrier_at-returns t0 b bs (m ∷ marks) = if-returns _ _ _

page_of-total :
    (t : Timed) (ts : List Timed) (b : Option ℕ) (bs : List (Option ℕ))
    → (page : Page) × Path (Outcome PageError Page) (page_of (t ∷ ts) (b ∷ bs)) (returns page)
page_of-total t ts b bs =
    let t0 = min_host t.host ts in
    let (o, e) = barrier_at-returns t0 b bs (load_marks (b ∷ bs)) in
    let ops = page_ops t0 0 (stable_sort (λ (u : Timed). u.issue) (t ∷ ts)) in
    (record { t0 = t0; ops = ops; t_end = last_end (pos 0) ops; barrier = o }, rw e refl)

-- If the trimmed trace has a row, each of its rows has a host and an issue time, or a GPU start in
-- their place, and there is a client, then the page is built.
pub build_data_total :
    (trace : List TraceRow) (loads : List (Option ℕ)) (b : Option ℕ) (bs : List (Option ℕ))
    (op : TraceRow) (ops : List TraceRow)
    → trim loads trace ≡ op ∷ ops
    → All HasTimes (op ∷ ops)
    → (page : Page) × (build_data trace loads (b ∷ bs) ≡ returns page)
unfolding build_data
build_data_total trace loads b bs op ops h all =
    let (t, ts, e) = time_rows-returns op ops all in
    let (page, e') = page_of-total t ts b bs in (page, rw (h, e, e') refl)
