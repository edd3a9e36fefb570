-- ===== src/Analyze/SelfCheck/Columns.antt =====
-- The tests of `self_check`, one by one.
use cuda_schedule_project.Prelude.{
  ℕ, ◌-◌, ◌≡◌, ◌≢◌, refl, ◌↔◌, Bool, true, false, inl, inr, Bool-cases, Option-cases, Option, none,
  some, List, [], ◌∷◌, ◌++◌, select, All, length, length-select-le, arith, ◌==◌,
}
use cuda_schedule_project.Prelude.Int.{ℤ, pos, ◌+ℤ◌, ◌-ℤ◌, ◌≤ℤ◌, ◌<ℤ◌, ltb_ℤ, int_laws}
use cuda_schedule_project.Analyze.Records.{RuntimeRecord}
use cuda_schedule_project.Analyze.Trace.{TraceRow, RunData}
use cuda_schedule_project.Analyze.SelfCheck.{
  Problem, exceeds, minus, at_least, is_matched, report, has_drop, is_member, by_client,
}

module _ {ℓ} {A : Type ℓ} where
  select-none :
      (p : A → Bool) (xs : List A) → (length (select p xs) ≡ 0) ↔ All (λ x. p x ≡ false) xs
  select-none p [] = (λ h. tt, λ h. refl)
  select-none p (x ∷ xs) = elim (Bool-cases (p x)) [
    | inl e ↦ rw e (λ h. absurd (omega arith), λ h. cc (h.0))
    | inr e ↦ rw e (λ h. (refl, (select-none p xs).0 h), λ h. (select-none p xs).1 h.1)
  ]

  pub select-All :
      (p : A → Bool) (xs : List A)
      → (length xs - length (select p xs) ≡ 0) ↔ All (λ x. p x ≡ true) xs
  select-All p [] = (λ h. tt, λ h. refl)
  select-All p (x ∷ xs) = elim (Bool-cases (p x)) [
    | inl e ↦ rw e (
      λ h. (refl, (select-All p xs).0 (omega arith)),
      λ h. omega (arith, (select-All p xs).1 h.1),
    )
    | inr e ↦ rw e (λ h. absurd (omega (arith, length-select-le p xs)), λ h. cc (h.0))
  ]

  pub All-select {κ} :
      (P : A → Type κ) (q : A → Bool) (xs : List A)
      → ((x : A) → q x ≡ false → P x)
      → All P (select q xs) ↔ All P xs
  All-select P q [] f = (λ h. tt, λ h. tt)
  All-select P q (x ∷ xs) f = elim (Bool-cases (q x)) [
    | inl e ↦
        rw e (λ h. (h.0, (All-select P q xs f).0 h.1), λ h. (h.0, (All-select P q xs f).1 h.1))
    | inr e ↦ rw e (λ h. (f x e, (All-select P q xs f).0 h), λ h. (All-select P q xs f).1 h.1)
  ]

  pub All-iff {κ} : (P Q : A → Type κ) (xs : List A) → ((x : A) → P x ↔ Q x) → All P xs ↔ All Q xs
  All-iff P Q [] f = (λ h. tt, λ h. tt)
  All-iff P Q (x ∷ xs) f =
      (λ h. ((f x).0 h.0, (All-iff P Q xs f).0 h.1), λ h. ((f x).1 h.0, (All-iff P Q xs f).1 h.1))

pub report-nil : (problem : ℕ → Problem) (n : ℕ) → (report problem n ≡ []) ↔ (n ≡ 0)
report-nil problem n = elim (Bool-cases (n == 0)) [
  | inl e ↦ rw e (λ h. ground arith, λ h. refl)
  | inr e ↦ rw e (λ h. cc, λ h. ground arith)
]

pub append-nil_iff : (xs ys : List Problem) → (xs ++ ys ≡ []) ↔ ((xs ≡ []) × (ys ≡ []))
append-nil_iff [] ys = (λ h. (refl, h), λ h. h.1)
append-nil_iff (x ∷ xs) ys = (λ h. cc, λ h. cc (h.0))

-- Each start is at most the next.
abbrev pub Rising : List ℤ → Type 0
Rising [] = Unit
Rising (a ∷ []) = Unit
Rising (a ∷ b ∷ rest) = (a ≤ℤ b) × Rising (b ∷ rest)

pub has_drop_iff : (xs : List ℤ) → (has_drop xs ≡ false) ↔ Rising xs
unfolding has_drop
has_drop_iff [] = (λ h. tt, λ h. refl)
has_drop_iff (a ∷ []) = (λ h. tt, λ h. refl)
has_drop_iff (a ∷ b ∷ rest) = elim (Bool-cases (ltb_ℤ b a)) [
  | inl e ↦ rw e (λ h. cc, λ h. let lt : b <ℤ a = ground arith in absurd (omega (arith, lt, h.0)))
  | inr e ↦
      rw e
        (λ h. (ground arith, (has_drop_iff (b ∷ rest)).0 h), λ h. (has_drop_iff (b ∷ rest)).1 h.1)
]

-- `a ≤ b + slack` where both are there.
abbrev pub NoLater : ℤ → Option ℤ → Option ℤ → Type 0
NoLater slack none b = Unit
NoLater slack (some a) none = Unit
NoLater slack (some a) (some b) = a ≤ℤ b +ℤ slack

-- `a < b` where both are there.
abbrev pub Before : Option ℤ → Option ℤ → Type 0
Before none b = Unit
Before (some a) none = Unit
Before (some a) (some b) = a <ℤ b

-- No thread of the list made the launch.
abbrev pub NotBy : List ℕ → Option RuntimeRecord → Type 0
NotBy tids none = Unit
NotBy tids (some r) = All (λ t. r.thread_id ≢ t) tids

ltb-false : (b a : ℤ) → a ≤ℤ b → ltb_ℤ b a ≡ false
ltb-false b a h = ground arith

le_of_ltb-false : (b a : ℤ) → ltb_ℤ b a ≡ false → a ≤ℤ b
le_of_ltb-false b a h = ground arith

pub exceeds_iff : (a b : Option ℤ) → (exceeds a b ≡ false) ↔ NoLater (pos 0) a b
exceeds_iff none b = (λ h. tt, λ h. refl)
exceeds_iff (some a) none = (λ h. tt, λ h. refl)
exceeds_iff (some a) (some b) =
    (λ h. let l = le_of_ltb-false b a h in omega int_laws, λ h. ltb-false b a (omega int_laws))

pub exceeds-minus_iff : (a b : Option ℤ) (t : ℤ) → (exceeds (minus a t) b ≡ false) ↔ NoLater t a b
exceeds-minus_iff none b t = (λ h. tt, λ h. refl)
exceeds-minus_iff (some a) none t = (λ h. tt, λ h. refl)
exceeds-minus_iff (some a) (some b) t = (
  λ h. let l = le_of_ltb-false b (a -ℤ t) h in omega int_laws,
  λ h. ltb-false b (a -ℤ t) (omega int_laws),
)

pub at_least_iff : (a b : Option ℤ) → (at_least a b ≡ false) ↔ Before a b
at_least_iff none b = (λ h. tt, λ h. refl)
at_least_iff (some a) none = (λ h. tt, λ h. refl)
at_least_iff (some a) (some b) = (λ h. ground arith, λ h. ground arith)

is_member_iff : (tid : ℕ) (tids : List ℕ) → (is_member tid tids ≡ false) ↔ All (λ t. tid ≢ t) tids
is_member_iff tid [] = (λ h. tt, λ h. refl)
is_member_iff tid (t ∷ tids) = elim (Bool-cases (tid == t)) [
  | inl e ↦ let same : tid ≡ t = ground arith in rw e (λ h. cc, λ h. absurd (h.0 same))
  | inr e ↦
      let other : tid ≢ t = ground arith in
      rw e (λ h. (other, (is_member_iff tid tids).0 h), λ h. (is_member_iff tid tids).1 h.1)
]

pub by_client_iff :
    (md : RunData) (o : Option RuntimeRecord) → (by_client md o ≡ false) ↔ NotBy md.client_tids o
by_client_iff md none = (λ h. tt, λ h. refl)
by_client_iff md (some r) = is_member_iff r.thread_id md.client_tids

pub is_matched_iff : (r : TraceRow) → (is_matched r ≡ true) ↔ (r.t_gpu_start_ns ≢ none)
is_matched_iff r = elim (Option-cases r.t_gpu_start_ns) [
  | inl e ↦ rw e (λ h. cc, λ h. absurd (h refl))
  | inr (t, e) ↦ rw e (λ h. λ n. cc, λ h. refl)
]

-- A report of the rows that pass a test is empty just if every row of the table meets `P`.
pub report_iff {ℓ} :
    {A : Type ℓ} (problem : ℕ → Problem) (p : A → Bool) (P : A → Type 0) (xs : List A)
    → ((x : A) → (p x ≡ false) ↔ P x)
    → (report problem (length (select p xs)) ≡ []) ↔ All P xs
report_iff problem p P xs f =
    let r = report-nil problem (length (select p xs)) in
    let n = select-none p xs in
    let i = All-iff (λ x. p x ≡ false) P xs f in (λ h. i.0 (n.0 (r.0 h)), λ h. r.1 (n.1 (i.1 h)))

pub unmatched : (r : TraceRow) → is_matched r ≡ false → r.t_gpu_start_ns ≡ none
unmatched r h = elim (Option-cases r.t_gpu_start_ns) [
  | inl e ↦ e
  | inr (t, e) ↦ let found : is_matched r ≡ true = rw e refl in cc
]

pub NoLater-none : (t : ℤ) (a b : Option ℤ) → b ≡ none → NoLater t a b
NoLater-none t none b e = tt
NoLater-none t (some a) none e = tt
NoLater-none t (some a) (some b) e = cc

pub Before-none : (a b : Option ℤ) → a ≡ none → Before a b
Before-none none b e = tt
Before-none (some a) b e = cc
