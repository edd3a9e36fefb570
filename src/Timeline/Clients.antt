-- ===== src/Timeline/Clients.antt =====
-- The ids of the clients are in order, each once, and all of them.
use cuda_schedule_project.Prelude.{
  ℕ, ◌<◌, ◌≡◌, refl, inl, inr, ◌⊎◌, Bool-cases, List, [], ◌∷◌, All, ltb, ◌==◌, arith,
}
use cuda_schedule_project.Analyze.Trace.{TraceRow}
use cuda_schedule_project.Analyze.SelfCheck.{client_ids, insert_id}

-- The ids in order, each once.
abbrev pub IsIncreasing : List ℕ → Type 0
IsIncreasing [] = Unit
IsIncreasing (c ∷ cs) = All (λ d. c < d) cs × IsIncreasing cs

abbrev pub Occurs : ℕ → List ℕ → Type 0
Occurs c [] = ⊥
Occurs c (d ∷ ds) = (c ≡ d) ⊎ Occurs c ds

All-lt : (a b : ℕ) (cs : List ℕ) → a < b → All (λ d. b < d) cs → All (λ d. a < d) cs
All-lt a b [] l h = tt
All-lt a b (c ∷ cs) l h = (omega (arith, l, h.0), All-lt a b cs l h.1)

All-insert_id :
    (a c : ℕ) (cs : List ℕ) → a < c → All (λ d. a < d) cs → All (λ d. a < d) (insert_id c cs)
unfolding insert_id
All-insert_id a c [] l h = (l, tt)
All-insert_id a c (d ∷ ds) l h = elim (Bool-cases (c == d)) [
  | inl e ↦ rw e h
  | inr e ↦ elim (Bool-cases (ltb c d)) [
    | inl s ↦ rw (e, s) (l, h)
    | inr s ↦ rw (e, s) (h.0, All-insert_id a c ds l h.1)
  ]
]

insert_id-IsIncreasing : (c : ℕ) (cs : List ℕ) → IsIncreasing cs → IsIncreasing (insert_id c cs)
unfolding insert_id
insert_id-IsIncreasing c [] h = (tt, tt)
insert_id-IsIncreasing c (d ∷ ds) h = elim (Bool-cases (c == d)) [
  | inl e ↦ rw e h
  | inr e ↦ elim (Bool-cases (ltb c d)) [
    | inl s ↦ let l : c < d = ground arith in rw (e, s) ((l, All-lt c d ds l h.0), h)
    | inr s ↦
        let l : d < c = ground arith in
        rw (e, s) (All-insert_id d c ds l h.0, insert_id-IsIncreasing c ds h.1)
  ]
]

insert_id-Occurs : (c : ℕ) (cs : List ℕ) → Occurs c (insert_id c cs)
unfolding insert_id
insert_id-Occurs c [] = inl refl
insert_id-Occurs c (d ∷ ds) = elim (Bool-cases (c == d)) [
  | inl e ↦ let same : c ≡ d = ground arith in rw e (inl same)
  | inr e ↦ elim (Bool-cases (ltb c d)) [
    | inl s ↦ rw (e, s) (inl refl)
    | inr s ↦ rw (e, s) (inr (insert_id-Occurs c ds))
  ]
]

insert_id-keeps : (a c : ℕ) (cs : List ℕ) → Occurs a cs → Occurs a (insert_id c cs)
unfolding insert_id
insert_id-keeps a c [] h = absurd h
insert_id-keeps a c (d ∷ ds) h = elim (Bool-cases (c == d)) [
  | inl e ↦ rw e h
  | inr e ↦ elim (Bool-cases (ltb c d)) [
    | inl s ↦ rw (e, s) (inr h)
    | inr s ↦ elim h [
      | inl same ↦ rw (e, s) (inl same)
      | inr later ↦ rw (e, s) (inr (insert_id-keeps a c ds later))
    ]
  ]
]

pub client_ids-IsIncreasing : (trace : List TraceRow) → IsIncreasing (client_ids trace)
unfolding client_ids
client_ids-IsIncreasing [] = tt
client_ids-IsIncreasing (op ∷ ops) =
    insert_id-IsIncreasing op.client (client_ids ops) (client_ids-IsIncreasing ops)

pub client_ids-All :
    (trace : List TraceRow) → All (λ (op : TraceRow). Occurs op.client (client_ids trace)) trace
unfolding client_ids
client_ids-All [] = tt
client_ids-All (op ∷ ops) = (
  insert_id-Occurs op.client (client_ids ops),
  All-keeps op.client (client_ids ops) ops (client_ids-All ops),
)
  where
    All-keeps :
        (c : ℕ) (cs : List ℕ) (rows : List TraceRow)
        → All (λ (op : TraceRow). Occurs op.client cs) rows
        → All (λ (op : TraceRow). Occurs op.client (insert_id c cs)) rows
    All-keeps c cs [] h = tt
    All-keeps c cs (op ∷ ops) h = (insert_id-keeps op.client c cs h.0, All-keeps c cs ops h.1)
