-- ===== src/Pages/Layouts.antt =====
-- The runs that a directory is scanned for, and what each of `scan_run` and `scan_solo` adds.
use cuda_schedule_project.Prelude.{
  ◌≡◌, refl, ap, ◌∙◌, subst, ◌⊎◌, inl, inr, ◌↔◌, true, false, Bool-cases, Option-cases, none, some,
  List, [], ◌∷◌, length, ◌==◌, arith,
}
use cuda_schedule_project.Prelude.Dict.{Text}
use cuda_schedule_project.Pages.{
  ModeDir, RunDir, Entry, Run, Scan, ensure_trace, scan_run, throttle_none, solo, scan_solo,
  is_config,
}

abbrev pub IsIn : {A : Type 0} → A → List A → Type 0
IsIn a [] = ⊥
IsIn a (x ∷ xs) = (a ≡ x) ⊎ IsIn a xs

-- The mode directory has a trace, or one that analyze.py makes of the observer's files.
abbrev pub HasTrace : ModeDir → Type 0
HasTrace m =
    (m.has_trace ≡ true) ⊎ ((m.has_kernels ≡ true) × (m.analyzes ≡ true) × (m.traced ≡ true))

abbrev pub run_of : Text → RunDir → ModeDir → Run
run_of cfg d m = record { cfg = cfg; name = d.name; clients = m.clients }

-- `<dir>/colocated` has the run's clients and a trace.
abbrev pub IsColocated : (cfg : Text) → RunDir → Run → Type 0
IsColocated cfg d r = (m : ModeDir) × (d.colocated ≡ some m) × HasTrace m × (r ≡ run_of cfg d m)

-- `<dir>/seq` is of one client, and has a trace.
abbrev pub IsSolo : RunDir → Run → Type 0
IsSolo d r =
    (m : ModeDir) × (c : Text) × (d.seq ≡ some m)
    × (m.clients ≡ c ∷ [])
    × HasTrace m
    × (r ≡ record { cfg = solo; name = d.name; clients = c ∷ [] })

-- The layouts that are scanned: the run itself, the runs of a configuration's directory, and one
-- client alone.
abbrev pub IsLaidOut : Entry → Run → Type 0
IsLaidOut e r =
    (e.is_dir ≡ true)
    × (IsColocated throttle_none e.run r
        ⊎ ((e.run.colocated ≡ none)
            × (is_config e.run.name ≡ true)
            × ((d : RunDir) × IsIn d e.runs × IsColocated e.run.name d r))
        ⊎ ((e.run.colocated ≡ none) × (is_config e.run.name ≡ false) × IsSolo e.run r))

ensure_trace-HasTrace : (m : ModeDir) → ensure_trace m ≡ true → HasTrace m
unfolding ensure_trace
ensure_trace-HasTrace m h = elim (Bool-cases m.has_trace) [
  | inl t ↦ inl t
  | inr t ↦ elim (Bool-cases m.has_kernels) [
    | inr k ↦ absurd (let f = rw (t, k) at h in cc)
    | inl k ↦ elim (Bool-cases m.analyzes) [
      | inr a ↦ absurd (let f = rw (t, k, a) at h in cc)
      | inl a ↦ inr (k, a, rw (t, k, a) at h)
    ]
  ]
]

HasTrace-ensure_trace : (m : ModeDir) → HasTrace m → ensure_trace m ≡ true
unfolding ensure_trace
HasTrace-ensure_trace m (inl t) = rw t refl
HasTrace-ensure_trace m (inr (k, a, t)) = elim (Bool-cases m.has_trace) [
  | inl h ↦ rw h refl
  | inr h ↦ rw (h, k, a, t) refl
]

-- What a step adds to `exportable`: the runs with the property, and none of the others.
abbrev pub Adds : (Run → Type 0) → (before after : Scan) → Type 0
Adds P s s' = (r : Run) → IsIn r s'.exportable ↔ (P r ⊎ IsIn r s.exportable)

pub Adds-none :
    (P : Run → Type 0) (s s' : Scan)
    → ((r : Run) → P r → ⊥)
    → s'.exportable ≡ s.exportable
    → Adds P s s'
Adds-none P s s' never e r =
    rw e (λ i. inr i, λ o. elim o [ inl p ↦ absurd (never r p) | inr i ↦ i ])

Adds-one :
    (P : Run → Type 0) (s s' : Scan) (a : Run)
    → ((r : Run) → P r ↔ (r ≡ a))
    → s'.exportable ≡ a ∷ s.exportable
    → Adds P s s'
Adds-one P s s' a one e r = rw e (
  λ i. elim i [ inl f ↦ inl ((one r).1 f) | inr j ↦ inr j ],
  λ o. elim o [ inl p ↦ inl ((one r).0 p) | inr j ↦ inr j ],
)

colocated_eq :
    (cfg : Text) (d : RunDir) (m : ModeDir) (r : Run)
    → d.colocated ≡ some m
    → IsColocated cfg d r
    → HasTrace m × (r ≡ run_of cfg d m)
colocated_eq cfg d m r e (n, f, t, g) =
    let same : n ≡ m = cc in (subst HasTrace same t, g ∙ ap (run_of cfg d) same)

pub scan_run-Adds :
    (cfg : Text) (d : RunDir) (s : Scan) → Adds (IsColocated cfg d) s (scan_run cfg d s).1
unfolding scan_run
scan_run-Adds cfg d s = elim (Option-cases d.colocated) [
  | inl e ↦ Adds-none _ s (scan_run cfg d s).1 (λ r (m, f, t, g). cc) (rw e refl)
  | inr (m, e) ↦ elim (Bool-cases (ensure_trace m)) [
    | inr t ↦
        Adds-none _ s (scan_run cfg d s).1
          (λ r c. let h = HasTrace-ensure_trace m (colocated_eq cfg d m r e c).0 in cc)
          (rw (e, t) refl)
    | inl t ↦
        Adds-one _ s (scan_run cfg d s).1 (run_of cfg d m)
          (λ r. (λ c. (colocated_eq cfg d m r e c).1, λ f. (m, e, ensure_trace-HasTrace m t, f)))
          (rw (e, t) refl)
  ]
]

solo_eq :
    (d : RunDir) (m : ModeDir) (r : Run)
    → d.seq ≡ some m
    → IsSolo d r
    → (length m.clients ≡ 1) × HasTrace m × (r ≡ run_of solo d m)
solo_eq d m r e (n, c, f, one, t, g) =
    let same : n ≡ m = cc in
    let clients : m.clients ≡ c ∷ [] = cc in (rw clients refl, subst HasTrace same t, rw clients g)

one_client : (names : List Text) → length names ≡ 1 → (c : Text) × (names ≡ c ∷ [])
one_client [] h = absurd (omega arith)
one_client (c ∷ []) h = (c, refl)
one_client (c ∷ d ∷ names) h = absurd (omega arith)

pub scan_solo-Adds : (d : RunDir) (s : Scan) → Adds (IsSolo d) s (scan_solo d s)
unfolding scan_solo
scan_solo-Adds d s = elim (Option-cases d.seq) [
  | inl e ↦ Adds-none _ s (scan_solo d s) (λ r (m, c, f, o, t, g). cc) (rw e refl)
  | inr (m, e) ↦ elim (Bool-cases (length m.clients == 1)) [
    | inr l ↦
        Adds-none _ s (scan_solo d s) (λ r p. let one = (solo_eq d m r e p).0 in ground arith)
          (rw (e, l) refl)
    | inl l ↦ elim (Bool-cases (ensure_trace m)) [
      | inr t ↦
          Adds-none _ s (scan_solo d s)
            (λ r p. let h = HasTrace-ensure_trace m (solo_eq d m r e p).1 in cc) (rw (e, l, t) refl)
      | inl t ↦
          let (c, one) = one_client m.clients (ground arith) in
          Adds-one _ s (scan_solo d s) (run_of solo d m)
            (λ r. (
              λ p. (solo_eq d m r e p).2,
              λ f. (m, c, e, one, ensure_trace-HasTrace m t, rw one at f),
            ))
            (rw (e, l, t) refl)
    ]
  ]
]
