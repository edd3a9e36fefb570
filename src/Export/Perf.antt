-- ===== src/Export/Perf.antt =====
-- The latencies of a page beside those of its baseline.
use cuda_schedule_project.Prelude.{
  ℕ, ◌≡◌, refl, ap, sym, ◌∙◌, false, Bool-cases, inl, inr, Option, none, some, List, [], ◌∷◌, map,
  if◌then◌else◌,
}
use cuda_schedule_project.Prelude.Text.{same_text, same_text→≡}
use cuda_schedule_project.Prelude.Dict.{Text, Dict, get, put, get-put, get-put_other}
use cuda_schedule_project.Prelude.Outcome.{returns, bind-returns}
use cuda_schedule_project.Analyze.Trace.{TraceRow}
use cuda_schedule_project.Export.{build_data}
use cuda_schedule_project.Export.Data.{
  ClientResult, Results, Perf, PageData, page_clients, prios_of, is_seq, tenths_us, solo_by_name,
  add_solo, page_data, data_of, perf_of,
}

-- A later entry, or else one from before.
abbrev pub later_or : Option (List ℕ) → Option (List ℕ) → Option (List ℕ)
later_or none before = before
later_or (some later) before = some later

-- The latencies of the last of the clients with that name.
unfoldable pub last_named : Text → List ClientResult → Option (List ℕ)
last_named name [] = none
last_named name (c ∷ cs) =
    later_or (last_named name cs)
      (if same_text c.name name then some (map tenths_us c.lat) else none)

put_cases :
    (key name : Text) (lat : List ℕ) (solo : Dict (List ℕ))
    → get name (put key lat solo)
      ≡ later_or (if same_text key name then some lat else none) (get name solo)
put_cases key name lat solo = elim (Bool-cases (same_text key name)) [
  | inl e ↦ rw (e, sym (same_text→≡ key name e)) (get-put key lat solo)
  | inr e ↦ rw e (get-put_other key name lat solo e)
]

later_or_assoc : (a b c : Option (List ℕ)) → later_or a (later_or b c) ≡ later_or (later_or a b) c
later_or_assoc none b c = refl
later_or_assoc (some l) b c = refl

get-add_solo :
    (name : Text) (solo : Dict (List ℕ)) (cs : List ClientResult)
    → get name (add_solo solo cs) ≡ later_or (last_named name cs) (get name solo)
unfolding add_solo last_named
get-add_solo name solo [] = refl
get-add_solo name solo (c ∷ cs) =
    let lat = map tenths_us c.lat in
    let rest = get-add_solo name (put c.name lat solo) cs in
    let assoc =
      later_or_assoc (last_named name cs) (if same_text c.name name then some lat else none)
        (get name solo) in
    rest ∙ ap (later_or (last_named name cs)) (put_cases c.name name lat solo) ∙ assoc

later_or-none : (o : Option (List ℕ)) → later_or o none ≡ o
later_or-none none = refl
later_or-none (some l) = refl

-- The client's latencies beside those of the last client of the baseline with its name.
abbrev pub perf_beside : List ClientResult → ClientResult → Perf
perf_beside baseline c = record {
  name = c.name;
  coloc = map tenths_us c.lat;
  solo = last_named c.name baseline;
}

perf-last :
    (baseline cs : List ClientResult)
    → map (perf_of (add_solo [] baseline)) cs ≡ map (perf_beside baseline) cs
unfolding get
perf-last baseline [] = refl
perf-last baseline (c ∷ cs) =
    let e = get-add_solo c.name [] baseline ∙ later_or-none (last_named c.name baseline) in
    rw (e, perf-last baseline cs) refl

module _ (decimal : ℕ → Text) (pick : List (Option ℕ) → Option ℕ) (label : Text) where
  -- A page of a colocated run whose baseline is given, and is there, has each client's own latencies
  -- beside those of the last client of the baseline that has its name, if there is one.
  pub page_data-perf :
      (trace : List TraceRow) (results : Results) (x : ℕ) (path beside : Text)
      (files : Dict (List ClientResult)) (baseline : List ClientResult) (d : PageData)
      → is_seq results ≡ false
      → get (x ∷ path) files ≡ some baseline
      → page_data decimal pick label trace results (some (x ∷ path)) beside files ≡ returns d
      → d.perf ≡ map (perf_beside baseline) results.clients
  unfolding page_data data_of solo_by_name
  page_data-perf trace results x path beside files baseline d seq found e =
      let (page, _, e') = bind-returns (build_data trace _ _) _ d e in
      let (clients, _, e'') =
        bind-returns (page_clients (prios_of results) 0 results.clients) _ d e' in
      let same : d
          ≡ data_of decimal pick label trace results (some (x ∷ path)) beside files page clients =
        cc in
      ap (λ (d : PageData). d.perf) same ∙ rw (seq, found) (perf-last baseline results.clients)
