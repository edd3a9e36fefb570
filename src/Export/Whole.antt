-- ===== src/Export/Whole.antt =====
-- Which runs are exported, and what the page says of their clients.
use cuda_schedule_project.Prelude.{
  ℕ, zero, suc, ◌+◌, ◌≤◌, ◌<◌, ◌≡◌, ◌≢◌, refl, ap, sym, subst, ◌∙◌, Bool, true, false, Bool-cases,
  Option-cases, inl, inr, Option, none, some, List, [], ◌∷◌, map, select, All, length, get_elem?,
  arith, if◌then◌else◌, ◌==◌,
}
use cuda_schedule_project.Prelude.Int.{ℤ, pos, negsuc, leb_ℤ}
use cuda_schedule_project.Prelude.Dict.{Text, Dict}
use cuda_schedule_project.Prelude.Outcome.{Outcome, returns}
use cuda_schedule_project.Analyze.Pandas.{Sorting}
use cuda_schedule_project.Analyze.Trace.{TraceRow, RunData}
use cuda_schedule_project.Analyze.SelfCheck.Spec.{IsSound}
use cuda_schedule_project.Export.{
  PageError, or_else, issue_ts, trim, trim_at, trim_ts, load_marks, max_of, or_full, build_data,
}
use cuda_schedule_project.Export.Total.{HasTimes, build_data_total}
use cuda_schedule_project.Export.Data.{
  ClientResult, Results, PageClient, PageData, default_to, page_clients, prios_of, with_streams,
  page_data, data_of,
}

-- A row with a GPU record has the times that the page needs.
or_else-some : (o p : Option ℤ) (t : ℤ) → p ≡ some t → (u : ℤ) × (or_else o p ≡ some u)
or_else-some none p t e = (t, e)
or_else-some (some (pos n)) p t e = elim (Bool-cases (n == 0)) [
  | inl z ↦ (t, rw z e)
  | inr z ↦ (pos n, rw z refl)
]
or_else-some (some (negsuc n)) p t e = (negsuc n, refl)

matched-HasTimes : (op : TraceRow) → op.t_gpu_start_ns ≢ none → HasTimes op
matched-HasTimes op h = elim (Option-cases op.t_gpu_start_ns) [
  | inl e ↦ absurd (h e)
  | inr (t, e) ↦
      let (issue, e') = or_else-some op.t_issue_ns op.t_gpu_start_ns t e in
      let (host, e'') = or_else-some op.t_intercept_ns (issue_ts op) issue e' in
      (host, issue, e'', e')
]

module _ (P : TraceRow → Type 0) where
  All-kept : (p : TraceRow → Bool) (trace : List TraceRow) → All P trace → All P (select p trace)
  All-kept p [] h = tt
  All-kept p (op ∷ ops) h = elim (Bool-cases (p op)) [
    | inl e ↦ rw e (h.0, All-kept p ops h.1)
    | inr e ↦ rw e (All-kept p ops h.1)
  ]

  -- What trimming leaves of a trace with a row has a row, and only rows of the trace.
  abbrev pub Kept : List TraceRow → Type 0
  Kept trace = (op : TraceRow) × (ops : List TraceRow) × (trace ≡ op ∷ ops) × All P (op ∷ ops)

  or_full-Kept :
      (kept : List TraceRow) (op : TraceRow) (ops : List TraceRow)
      → All P kept
      → All P (op ∷ ops)
      → Kept (or_full kept (op ∷ ops))
  or_full-Kept [] op ops k h = (op, ops, refl, h)
  or_full-Kept (r ∷ kept) op ops k h = (r, kept, refl, k)

  trim_at-Kept :
      (marks : List ℕ) (op : TraceRow) (ops : List TraceRow)
      → All P (op ∷ ops)
      → Kept (trim_at marks (op ∷ ops))
  trim_at-Kept [] op ops h = (op, ops, refl, h)
  trim_at-Kept (m ∷ marks) op ops h =
      or_full-Kept _ op ops (All-kept (λ r. leb_ℤ (pos (max_of m marks)) (trim_ts r)) (op ∷ ops) h)
        h

get_elem?-some :
    {A : Type 0} (xs : List A) (i : ℕ) → i < length xs → (x : A) × (get_elem? xs i ≡ some x)
get_elem?-some [] i h = absurd (omega (arith, h))
get_elem?-some (x ∷ xs) zero h = (x, refl)
get_elem?-some (x ∷ xs) (suc i) h = get_elem?-some xs i (omega (arith, h))

page_clients-returns :
    (prios : List ℤ) (i : ℕ) (cs : List ClientResult)
    → i + length cs ≤ length prios
    → (out : List PageClient) × Path
        (Outcome PageError (List PageClient))
        (page_clients prios i cs)
        (returns out)
      × (map (λ (c : PageClient). c.name) out ≡ map (λ (c : ClientResult). c.name) cs)
unfolding page_clients
page_clients-returns prios i [] h = ([], refl, refl)
page_clients-returns prios i (c ∷ cs) h =
    let (p, e) = get_elem?-some prios i (omega (arith, h)) in
    let (out, e', names) = page_clients-returns prios (suc i) cs (omega (arith, h)) in
    let client : PageClient = record {
      name = c.name;
      prio = p;
      iters = c.iters;
      desc = default_to [] c.desc;
      streams = none;
    } in
    (client ∷ out, rw (e, e') refl, ap (λ ns. c.name ∷ ns) names)

with_streams-names :
    (pick : List (Option ℕ) → Option ℕ) (trace : List TraceRow) (i : ℕ) (cs : List PageClient)
    → map (λ (c : PageClient). c.name) (with_streams pick trace i cs)
      ≡ map (λ (c : PageClient). c.name) cs
unfolding with_streams
with_streams-names pick trace i [] = refl
with_streams-names pick trace i (c ∷ cs) =
    ap (λ ns. c.name ∷ ns) (with_streams-names pick trace (suc i) cs)

names_of : List PageClient → List Text
names_of = map (λ (c : PageClient). c.name)

with_or_without :
    (test : Bool) (pick : List (Option ℕ) → Option ℕ) (trace : List TraceRow) (cs : List PageClient)
    → names_of (if test then cs else with_streams pick trace 0 cs) ≡ names_of cs
unfolding names_of
with_or_without true pick trace cs = refl
with_or_without false pick trace cs = with_streams-names pick trace 0 cs

All-times :
    (trace : List TraceRow)
    → All (λ (op : TraceRow). op.t_gpu_start_ns ≢ none) trace
    → All HasTimes trace
All-times [] h = tt
All-times (op ∷ ops) h = (matched-HasTimes op h.0, All-times ops h.1)

module _ (decimal : ℕ → Text) (pick : List (Option ℕ) → Option ℕ) (label : Text) where
  -- A trace with a row that is sound, in the sense of the analysis's self-check, is exported, when the
  -- run has a client and a priority for each: the page has the clients in the run's order.
  pub page_data_sound :
      (S : Sorting) (md : RunData) (window : Option (ℕ × ℕ)) (op : TraceRow) (ops : List TraceRow)
      (results : Results) (c : ClientResult) (cs : List ClientResult) (baseline : Option Text)
      (beside : Text) (files : Dict (List ClientResult))
      → IsSound S md window (op ∷ ops)
      → results.clients ≡ c ∷ cs
      → length results.clients ≤ length (prios_of results)
      → (d : PageData) × (page_data decimal pick label (op ∷ ops) results baseline beside files
          ≡ returns d)
        × (map (λ (c : PageClient). c.name) d.clients
            ≡ map (λ (c : ClientResult). c.name) results.clients)
  unfolding page_data data_of names_of trim
  page_data_sound S md window op ops results c cs baseline beside files sound e h =
      let loads = map (λ (c : ClientResult). c.load_done) results.clients in
      let (r, rs, kept, times) =
        trim_at-Kept HasTimes (load_marks loads) op ops (All-times (op ∷ ops) sound.matched) in
      let barriers = map (λ (c : ClientResult). c.barrier_ns) cs in
      let (page, built) = build_data_total (op ∷ ops) loads c.barrier_ns barriers r rs kept times in
      let built' : build_data (op ∷ ops) loads
            (map (λ (c : ClientResult). c.barrier_ns) results.clients)
          ≡ returns page =
        subst
          (λ cs.
            build_data (op ∷ ops) loads (map (λ (c : ClientResult). c.barrier_ns) cs)
            ≡ returns page)
          (sym e) built in
      let (out, made, names) =
        page_clients-returns (prios_of results) 0 results.clients (omega (arith, h)) in
      (
        data_of decimal pick label (op ∷ ops) results baseline beside files page out,
        rw (built', made) refl,
        with_or_without (default_to 0 results.sm_limit == 0) pick _ out ∙ names,
      )
