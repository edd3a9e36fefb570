-- ===== src/Pages/Scanned.antt =====
-- The runs that the scan exports.
use cuda_schedule_project.Prelude.{
  ◌≡◌, refl, ap, sym, subst, ◌⊎◌, inl, inr, ◌↔◌, true, false, Bool-cases, Option-cases, none, some,
  List, [], ◌∷◌,
}
use cuda_schedule_project.Prelude.Dict.{Text}
use cuda_schedule_project.Pages.{
  ModeDir, RunDir, Entry, Run, Scan, ensure_trace, scan_run, throttle_none, scan_solo, is_config,
  scan_config, scan_entry, scan_entries,
}
use cuda_schedule_project.Pages.Layouts.{
  IsIn, IsColocated, IsSolo, IsLaidOut, Adds, Adds-none, scan_run-Adds, scan_solo-Adds,
}

Adds-trans :
    (P Q : Run → Type 0) (s s' s'' : Scan)
    → Adds P s s'
    → Adds Q s' s''
    → Adds (λ r. P r ⊎ Q r) s s''
Adds-trans P Q s s' s'' f g r = (
  λ i. elim ((g r).0 i) [
    | inl q ↦ inl (inr q)
    | inr j ↦ elim ((f r).0 j) [ inl p ↦ inl (inl p) | inr k ↦ inr k ]
  ],
  λ o. elim o [
    | inl either ↦ elim either [ inl p ↦ (g r).1 (inr ((f r).1 (inl p))) | inr q ↦ (g r).1 (inl q) ]
    | inr k ↦ (g r).1 (inr ((f r).1 (inr k)))
  ],
)

Adds-same : (P Q : Run → Type 0) (s s' : Scan) → ((r : Run) → P r ↔ Q r) → Adds P s s' → Adds Q s s'
Adds-same P Q s s' same f r = (
  λ i. elim ((f r).0 i) [ inl p ↦ inl ((same r).0 p) | inr j ↦ inr j ],
  λ o. (f r).1 (elim o [ inl q ↦ inl ((same r).1 q) | inr j ↦ inr j ]),
)

scan_config-Adds :
    (cfg : Text) (runs : List RunDir) (s : Scan)
    → Adds (λ r. (d : RunDir) × IsIn d runs × IsColocated cfg d r) s (scan_config cfg runs s)
unfolding scan_config
scan_config-Adds cfg [] s = Adds-none _ s s (λ r (d, i, c). i) refl
scan_config-Adds cfg (q ∷ runs) s =
    Adds-same _ _ s (scan_config cfg (q ∷ runs) s)
      (λ r. (
        λ o. elim o [ inl c ↦ (q, inl refl, c) | inr (d, i, c) ↦ (d, inr i, c) ],
        λ (d, i, c). elim i [
          | inl e ↦ inl (subst (λ x. IsColocated cfg x r) e c)
          | inr j ↦ inr (d, j, c)
        ],
      ))
      (Adds-trans _ _ s (scan_run cfg q s).1 (scan_config cfg runs (scan_run cfg q s).1)
        (scan_run-Adds cfg q s) (scan_config-Adds cfg runs (scan_run cfg q s).1))

scan_run-none :
    (cfg : Text) (d : RunDir) (s : Scan) → d.colocated ≡ none → scan_run cfg d s ≡ (false, s)
unfolding scan_run
scan_run-none cfg d s e = rw e refl

scan_run-some :
    (cfg : Text) (d : RunDir) (s : Scan) (m : ModeDir)
    → d.colocated ≡ some m
    → (scan_run cfg d s).0 ≡ true
unfolding scan_run
scan_run-some cfg d s m e = elim (Bool-cases (ensure_trace m)) [
  | inl t ↦ rw (e, t) refl
  | inr t ↦ rw (e, t) refl
]

scan_entry_eq :
    (e : Entry) (s : Scan)
    → e.is_dir ≡ true
    → ((m : ModeDir)
        → e.run.colocated ≡ some m
        → scan_entry e s ≡ (scan_run throttle_none e.run s).1)
      × (e.run.colocated ≡ none
          → (is_config e.run.name ≡ true → scan_entry e s ≡ scan_config e.run.name e.runs s)
            × (is_config e.run.name ≡ false → scan_entry e s ≡ scan_solo e.run s))
unfolding scan_entry
scan_entry_eq e s d = (
  λ m c. rw (d, scan_run-some throttle_none e.run s m c) refl,
  λ c. (
    λ i. rw (d, scan_run-none throttle_none e.run s c, i) refl,
    λ i. rw (d, scan_run-none throttle_none e.run s c, i) refl,
  ),
)

scan_entry-none : (e : Entry) (s : Scan) → e.is_dir ≡ false → scan_entry e s ≡ s
unfolding scan_entry
scan_entry-none e s d = rw d refl

-- A run is laid out in one of the three ways, by what the directory is.
laid_out_flat :
    (e : Entry) (m : ModeDir) (r : Run)
    → e.run.colocated ≡ some m
    → IsLaidOut e r
    → IsColocated throttle_none e.run r
laid_out_flat e m r c (d, inl p) = p
laid_out_flat e m r c (d, inr (inl (f, i, p))) = cc
laid_out_flat e m r c (d, inr (inr (f, i, p))) = cc

laid_out_inner :
    (e : Entry) (r : Run)
    → e.run.colocated ≡ none
    → IsLaidOut e r
    → ((is_config e.run.name ≡ true) × ((d : RunDir) × IsIn d e.runs × IsColocated e.run.name d r))
      ⊎ ((is_config e.run.name ≡ false) × IsSolo e.run r)
laid_out_inner e r c (d, inl (m, f, t, g)) = cc
laid_out_inner e r c (d, inr (inl (f, i, p))) = inl (i, p)
laid_out_inner e r c (d, inr (inr (f, i, p))) = inr (i, p)

Adds-to : (P : Run → Type 0) (s s' s'' : Scan) → s'' ≡ s' → Adds P s s' → Adds P s s''
Adds-to P s s' s'' e f = subst (Adds P s) (sym e) f

scan_entry-Adds : (e : Entry) (s : Scan) → Adds (IsLaidOut e) s (scan_entry e s)
scan_entry-Adds e s = elim (Bool-cases e.is_dir) [
  | inr d ↦
      Adds-none _ s (scan_entry e s) (λ r (h, o). cc)
        (ap (λ t. t.exportable) (scan_entry-none e s d))
  | inl d ↦ elim (Option-cases e.run.colocated) [
    | inr (m, c) ↦ Adds-to _ s (scan_run throttle_none e.run s).1 _ ((scan_entry_eq e s d).0 m c) (
        Adds-same (IsColocated throttle_none e.run) (IsLaidOut e) s
          (scan_run throttle_none e.run s).1 (λ r. (λ p. (d, inl p), laid_out_flat e m r c))
          (scan_run-Adds throttle_none e.run s))
    | inl c ↦ elim (Bool-cases (is_config e.run.name)) [
      | inl i ↦ Adds-to _ s (scan_config e.run.name e.runs s) _ (((scan_entry_eq e s d).1 c).0 i) (
          Adds-same _ (IsLaidOut e) s (scan_config e.run.name e.runs s)
            (λ r. (
              λ p. (d, inr (inl (c, i, p))),
              λ l. elim (laid_out_inner e r c l) [ inl (_, p) ↦ p | inr (n, p) ↦ cc ],
            ))
            (scan_config-Adds e.run.name e.runs s))
      | inr i ↦ Adds-to _ s (scan_solo e.run s) _ (((scan_entry_eq e s d).1 c).1 i) (
          Adds-same (IsSolo e.run) (IsLaidOut e) s (scan_solo e.run s)
            (λ r. (
              λ p. (d, inr (inr (c, i, p))),
              λ l. elim (laid_out_inner e r c l) [ inl (n, p) ↦ cc | inr (_, p) ↦ p ],
            ))
            (scan_solo-Adds e.run s))
    ]
  ]
]

entries-Adds :
    (entries : List Entry) (s : Scan)
    → Adds (λ r. (e : Entry) × IsIn e entries × IsLaidOut e r) s (scan_entries entries s)
unfolding scan_entries
entries-Adds [] s = Adds-none _ s s (λ r (e, i, l). i) refl
entries-Adds (e ∷ entries) s =
    Adds-same _ _ s (scan_entries (e ∷ entries) s)
      (λ r. (
        λ o. elim o [ inl l ↦ (e, inl refl, l) | inr (f, i, l) ↦ (f, inr i, l) ],
        λ (f, i, l). elim i [
          | inl same ↦ inl (subst (λ x. IsLaidOut x r) same l)
          | inr j ↦ inr (f, j, l)
        ],
      ))
      (Adds-trans _ _ s (scan_entry e s) (scan_entries entries (scan_entry e s))
        (scan_entry-Adds e s) (entries-Adds entries (scan_entry e s)))

-- The scan adds to `exportable` exactly the runs that the entries lay out: a directory's own
-- colocated run, under "throttle_none"; if it has none and is named for a configuration, the colocated
-- runs in it, under that name; and if neither, a seq run of one client, under "solo". Each has a
-- trace, or observer's files that analyze.py makes one of, and the clients of its results.json.
pub scan_entries-exportable :
    (entries : List Entry) (s : Scan) (r : Run)
    → IsIn r (scan_entries entries s).exportable
      ↔ (((e : Entry) × IsIn e entries × IsLaidOut e r) ⊎ IsIn r s.exportable)
scan_entries-exportable entries s = entries-Adds entries s
