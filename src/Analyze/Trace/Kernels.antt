-- ===== src/Analyze/Trace/Kernels.antt =====
-- The rows of the colocated trace that stand for kernels, and the kernels that they stand for.
use cuda_schedule_project.Prelude.{
  ◌≤◌, ◌≡◌, refl, ap, ◌∙◌, ◌⊎◌, inl, inr, true, false, some, List, [], ◌∷◌, map, length, All,
  Bool-cases, ltb, arith,
}
use cuda_schedule_project.Prelude.Int.{ℤ, pos, ◌-ℤ◌, ◌≤ℤ◌, ltb_ℤ}
use cuda_schedule_project.Analyze.Records.{KernelRecord}
use cuda_schedule_project.Analyze.Kinds.{kernel_class}
use cuda_schedule_project.Analyze.Clock.{Clock, to_mono, int_ns}
use cuda_schedule_project.Analyze.Join.Calls.{Call}
use cuda_schedule_project.Analyze.Trace.{
  TraceRow, duration, longest, earliest_start, latest_end, kernel_row,
}
use cuda_schedule_project.Analyze.Trace.Gather.{call_row}

abbrev pub IsIn : {A : Type 0} → A → List A → Type 0
IsIn a [] = ⊥
IsIn a (x ∷ xs) = (a ≡ x) ⊎ IsIn a xs

abbrev pub own : Call → List KernelRecord
own call = call.main ∷ call.partners

-- The row tells the call: the operation; the number of its kernels; the first start and the last end
-- among them, on the host's clock in whole ns; and the name, the id and the stream of a longest one.
pub record Tells (c : Clock) (call : Call) (row : TraceRow) : Type 0 where
  pub operation :
      (row.client ≡ call.op.client) × (row.op_id ≡ call.op.op_id) × (row.kind ≡ call.op.kind)
  pub number : row.n_kernels ≡ length (own call)
  pub intercepted : row.t_intercept_ns ≡ some (pos call.op.t_intercept_ns)
  pub issued : row.t_issue_ns ≡ some (pos call.op.t_issue_ns)
  pub started :
      (k : KernelRecord) × IsIn k (own call)
      × All (λ (q : KernelRecord). k.start_ns ≤ q.start_ns) (own call)
      × (row.t_gpu_start_ns ≡ some (int_ns c (to_mono c k.start_ns)))
  pub ended :
      (k : KernelRecord) × IsIn k (own call)
      × All (λ (q : KernelRecord). q.end_ns ≤ k.end_ns) (own call)
      × (row.t_gpu_end_ns ≡ some (int_ns c (to_mono c k.end_ns)))
  pub named :
      (k : KernelRecord) × IsIn k (own call)
      × All
          (λ (q : KernelRecord).
            (pos q.end_ns -ℤ pos q.start_ns) ≤ℤ (pos k.end_ns -ℤ pos k.start_ns))
          (own call)
      × (row.raw_name ≡ k.name)
      × (row.name ≡ kernel_class k.name)
      × (row.correlation ≡ k.correlation)
      × (row.gpu_stream ≡ some k.stream)

-- The rows tell the calls, one each.
abbrev pub TellAll : Clock → List Call → List TraceRow → Type 0
TellAll c [] [] = Unit
TellAll c [] (row ∷ rows) = ⊥
TellAll c (call ∷ calls) [] = ⊥
TellAll c (call ∷ calls) (row ∷ rows) = Tells c call row × TellAll c calls rows

-- A best one of some kernels.
record Best (le : KernelRecord → KernelRecord → Type 0) (g : KernelRecord) (ks : List KernelRecord)
    (best : KernelRecord) : Type 0 where
  best_in : IsIn best (g ∷ ks)
  best_le : All (le best) (g ∷ ks)

-- A walk that keeps the better of two.
Best-step :
    (le : KernelRecord → KernelRecord → Type 0) (g k : KernelRecord) (ks : List KernelRecord)
    (best : KernelRecord)
    → ((a b c : KernelRecord) → le a b → le b c → le a c)
    → (h : KernelRecord) → (h ≡ g) ⊎ (h ≡ k)
    → le h g
    → le h k
    → Best le h ks best
    → Best le g (k ∷ ks) best
Best-step le g k ks best trans h which hg hk b = record {
  best_in = elim b.best_in [
    | inl e ↦ elim which [ inl f ↦ inl (e ∙ f) | inr f ↦ inr (inl (e ∙ f)) ]
    | inr i ↦ inr (inr i)
  ];
  best_le = let (bh, rest) = b.best_le in (trans best h g bh hg, (trans best h k bh hk, rest));
}

abbrev StartsFirst : KernelRecord → KernelRecord → Type 0
StartsFirst k q = k.start_ns ≤ q.start_ns

abbrev EndsLast : KernelRecord → KernelRecord → Type 0
EndsLast k q = q.end_ns ≤ k.end_ns

abbrev IsLonger : KernelRecord → KernelRecord → Type 0
IsLonger k q = duration q ≤ℤ duration k

earliest_start_lem :
    (g : KernelRecord) (ks : List KernelRecord)
    → (b : KernelRecord) × Best StartsFirst g ks b × (earliest_start g.start_ns ks ≡ b.start_ns)
unfolding earliest_start
earliest_start_lem g [] = (g, record { best_in = inl refl; best_le = (omega arith, tt) }, refl)
earliest_start_lem g (k ∷ ks) = elim (Bool-cases (ltb k.start_ns g.start_ns)) [
  | inl e ↦
      let (b, v, f) = earliest_start_lem k ks in
      let le : k.start_ns ≤ g.start_ns = ground arith in
      (
        b,
        Best-step StartsFirst g k ks b (λ a b c h h'. omega arith) k (inr refl) le (omega arith) v,
        rw e f,
      )
  | inr e ↦
      let (b, v, f) = earliest_start_lem g ks in
      let le : g.start_ns ≤ k.start_ns = ground arith in
      (
        b,
        Best-step StartsFirst g k ks b (λ a b c h h'. omega arith) g (inl refl) (omega arith) le v,
        rw e f,
      )
]

latest_end_lem :
    (g : KernelRecord) (ks : List KernelRecord)
    → (b : KernelRecord) × Best EndsLast g ks b × (latest_end g.end_ns ks ≡ b.end_ns)
unfolding latest_end
latest_end_lem g [] = (g, record { best_in = inl refl; best_le = (omega arith, tt) }, refl)
latest_end_lem g (k ∷ ks) = elim (Bool-cases (ltb g.end_ns k.end_ns)) [
  | inl e ↦
      let (b, v, f) = latest_end_lem k ks in
      let le : g.end_ns ≤ k.end_ns = ground arith in
      (
        b,
        Best-step EndsLast g k ks b (λ a b c h h'. omega arith) k (inr refl) le (omega arith) v,
        rw e f,
      )
  | inr e ↦
      let (b, v, f) = latest_end_lem g ks in
      let le : k.end_ns ≤ g.end_ns = ground arith in
      (
        b,
        Best-step EndsLast g k ks b (λ a b c h h'. omega arith) g (inl refl) (omega arith) le v,
        rw e f,
      )
]

trans_ℤ : (a b c : ℤ) → a ≤ℤ b → b ≤ℤ c → a ≤ℤ c
trans_ℤ a b c h h' = omega arith

ltb_ℤ-cases : (a b : ℤ) → ((ltb_ℤ a b ≡ true) × (a ≤ℤ b)) ⊎ ((ltb_ℤ a b ≡ false) × (b ≤ℤ a))
ltb_ℤ-cases a b = ground arith

refl_ℤ : (a : ℤ) → a ≤ℤ a
refl_ℤ a = omega arith

longest_lem :
    (g : KernelRecord) (ks : List KernelRecord)
    → (b : KernelRecord) × Best IsLonger g ks b × (longest g ks ≡ b)
unfolding longest
longest_lem g [] = (g, record { best_in = inl refl; best_le = (refl_ℤ (duration g), tt) }, refl)
longest_lem g (k ∷ ks) =
    let trans : (a b c : KernelRecord) → IsLonger a b → IsLonger b c → IsLonger a c =
      λ a b c h h'. trans_ℤ (duration c) (duration b) (duration a) h' h in
    elim (ltb_ℤ-cases (duration g) (duration k)) [
      | inl (e, le) ↦
          let (b, v, f) = longest_lem k ks in
          (b, Best-step IsLonger g k ks b trans k (inr refl) le (refl_ℤ (duration k)) v, rw e f)
      | inr (e, le) ↦
          let (b, v, f) = longest_lem g ks in
          (b, Best-step IsLonger g k ks b trans g (inl refl) (refl_ℤ (duration g)) le v, rw e f)
    ]

call_row-Tells : (c : Clock) (call : Call) → Tells c call (call_row c call)
unfolding kernel_row
call_row-Tells c call =
    let (s, s_best, s_eq) = earliest_start_lem call.main call.partners in
    let (t, t_best, t_eq) = latest_end_lem call.main call.partners in
    let (l, l_best, l_eq) = longest_lem call.main call.partners in
    record {
      operation = (refl, refl, refl);
      number = refl;
      intercepted = refl;
      issued = refl;
      started = (s, s_best.best_in, s_best.best_le, ap (λ x. some (int_ns c (to_mono c x))) s_eq);
      ended = (t, t_best.best_in, t_best.best_le, ap (λ x. some (int_ns c (to_mono c x))) t_eq);
      named = (
        l,
        l_best.best_in,
        l_best.best_le,
        ap (λ (k : KernelRecord). k.name) l_eq,
        ap (λ (k : KernelRecord). kernel_class k.name) l_eq,
        ap (λ (k : KernelRecord). k.correlation) l_eq,
        ap (λ (k : KernelRecord). some k.stream) l_eq,
      );
    }

pub call_rows-TellAll : (c : Clock) (calls : List Call) → TellAll c calls (map (call_row c) calls)
call_rows-TellAll c [] = tt
call_rows-TellAll c (call ∷ calls) = (call_row-Tells c call, call_rows-TellAll c calls)
