-- ===== src/Analyze/Join/Sound.antt =====
-- A join that returns has found calls that account for every row and every kernel.
use native.Mathlib.Nat.{add-zero, zero-add, suc-add, add-suc}
use cuda_schedule_project.Prelude.Outcome.{◌>>=◌, raises, returns}
use cuda_schedule_project.Prelude.{
  ℕ, zero, suc, ◌+◌, ◌≡◌, refl, ap, true, inl, inr, Option, List, [], ◌∷◌, ◌++◌, All, concat,
  length, length-append, arith, Bool-cases,
}
use cuda_schedule_project.Prelude.Int.{ℤ}
use cuda_schedule_project.Analyze.Records.{IssueRow, KernelRecord}
use cuda_schedule_project.Analyze.Kinds.{is_launch, is_partner}
use cuda_schedule_project.Analyze.Clock.{Clock}
use cuda_schedule_project.Analyze.Join.{
  Joined, check_anchor, take_partners, assign_from, assign_kernels,
}
use cuda_schedule_project.Analyze.Join.Calls.{Call, IsCall, rows, kernels, range_from, places}

pub >>=-eq-returns {ℓ κ} :
    {A : Type ℓ} {B : Type κ} (m : Joined A) (f : A → Joined B) {b : B}
    → (m >>= f) ≡ returns b
    → (a : A) × (m ≡ returns a) × (f a ≡ returns b)
>>=-eq-returns (returns a) f h = (a, refl, h)
>>=-eq-returns (raises e) f h = cc

module _ (c : Clock) where
  record Taken (ki : ℕ) (ks : List KernelRecord) : Type 0 where
    partners : List KernelRecord
    rest : List KernelRecord
    split : ks ≡ partners ++ rest
    all_partners : All (λ k. is_partner k ≡ true) partners
    result : take_partners c ki ks ≡ (range_from ki (length partners), ki + length partners, rest)

  take_partners_lem : (ki : ℕ) (ks : List KernelRecord) → Taken ki ks
  unfolding take_partners
  take_partners_lem ki [] = record {
    partners = [];
    rest = [];
    split = refl;
    all_partners = tt;
    result = ground arith;
  }
  take_partners_lem ki (k ∷ ks) = elim (Bool-cases (is_partner k)) [
    | inl e ↦
        let t = take_partners_lem (suc ki) ks in
        record {
          partners = k ∷ t.partners;
          rest = t.rest;
          split = ap (◌∷◌ k) t.split;
          all_partners = (e, t.all_partners);
          result = rw (e, t.result) (ground arith);
        }
    | inr e ↦ record {
      partners = [];
      rest = k ∷ ks;
      split = refl;
      all_partners = tt;
      result = rw e (ground arith);
    }
  ]

  module _ (rt_start : ℕ → Option ℕ) where
    record Found (ki : ℕ) (ops : List IssueRow) (kern : List KernelRecord) (out : List (List ℕ))
        : Type 0 where
      calls : List Call
      are_calls : All IsCall calls
      rows_eq : rows calls ≡ ops
      kernels_eq : kernels calls ≡ kern
      out_eq : out ≡ places ki calls

    Found-nil : (ki : ℕ) (out : List (List ℕ)) → out ≡ [] → Found ki [] [] out
    Found-nil ki out e = record {
      calls = [];
      are_calls = tt;
      rows_eq = refl;
      kernels_eq = refl;
      out_eq = e;
    }

    Found-cons :
        (ki : ℕ) (call : Call) (ops : List IssueRow) (rest : List KernelRecord)
        (more : List (List ℕ)) {out : List (List ℕ)}
        → IsCall call
        → Found (suc ki + length call.partners) ops rest more
        → Path
            (Joined (List (List ℕ)))
            (returns ((ki ∷ range_from (suc ki) (length call.partners)) ∷ more))
            (returns out)
        → Found ki (call.op ∷ ops) (call.main ∷ (call.partners ++ rest)) out
    Found-cons ki call ops rest more is_call f e = record {
      calls = call ∷ f.calls;
      are_calls = (is_call, f.are_calls);
      rows_eq = ap (◌∷◌ call.op) f.rows_eq;
      kernels_eq = ap (λ (ks : List KernelRecord). call.main ∷ (call.partners ++ ks)) f.kernels_eq;
      out_eq = cc (f.out_eq);
    }

    assign_from-Found :
        (ki : ℕ) (off : ℤ) (ops : List IssueRow) (kern : List KernelRecord) (out : List (List ℕ))
        → assign_from c rt_start ki off ops kern ≡ returns out
        → Found ki ops kern out
    unfolding assign_from
    assign_from-Found ki off [] [] out h = Found-nil ki out (cc)
    assign_from-Found ki off [] (k ∷ ks) out h = cc
    assign_from-Found ki off (op ∷ ops) [] out h = cc
    assign_from-Found ki off (op ∷ ops) (k ∷ ks) out h = elim (Bool-cases (is_partner k)) [
      | inl e ↦ cc (rw e at h)
      | inr e ↦
          let (off', _, h1) =
            >>=-eq-returns (check_anchor c op off (rt_start k.correlation)) _ (rw e at h) in
          elim (Bool-cases (is_launch op.kind)) [
            | inl l ↦
                let (more, h2, h3) =
                  >>=-eq-returns (assign_from c rt_start (suc ki) off' ops ks) _ (rw l at h1) in
                let call : Call = record { op = op; main = k; partners = [] } in
                let is_call : IsCall call = record { main_plain = e; partners_fit = rw l refl } in
                Found-cons ki call ops ks more is_call
                  (rw add-zero (assign_from-Found (suc ki) off' ops ks more h2)) h3
            | inr l ↦
                let t = take_partners_lem (suc ki) ks in
                let (more, h2, h3) =
                  >>=-eq-returns
                    (assign_from c rt_start (suc ki + length t.partners) off' ops t.rest) _
                    (rw (l, t.result) at h1) in
                let call : Call = record { op = op; main = k; partners = t.partners } in
                let is_call : IsCall call = record {
                  main_plain = e;
                  partners_fit = rw l t.all_partners;
                } in
                rw t.split (
                  Found-cons ki call ops t.rest more is_call
                    (assign_from-Found (suc ki + length t.partners) off' ops t.rest more h2) h3)
          ]
    ]

    -- When the join returns, its lists are the places of the kernels of some calls, in launch
    -- order: one call for each row, in the rows' order, with each kernel record in one of them. A
    -- call's first kernel is no cuBLAS partner, all behind it are, and a plain launch has only one.
    pub assign_kernels-calls :
        (ops : List IssueRow) (kern : List KernelRecord) (off0 : ℤ) (out : List (List ℕ))
        → assign_kernels c rt_start ops kern off0 ≡ returns out
        → (calls : List Call) × All IsCall calls
          × (rows calls ≡ ops)
          × (kernels calls ≡ kern)
          × (out ≡ places 0 calls)
    unfolding assign_kernels
    assign_kernels-calls ops kern off0 out h =
        let f = assign_from-Found 0 off0 ops kern out h in
        (f.calls, f.are_calls, f.rows_eq, f.kernels_eq, f.out_eq)

range_from-append : (ki m n : ℕ) → range_from ki m ++ range_from (ki + m) n ≡ range_from ki (m + n)
range_from-append ki zero n = rw (add-zero, zero-add)
range_from-append ki (suc m) n =
    rw (suc-add m n) (ap (◌∷◌ ki) (rw (add-suc, ← suc-add ki m) (range_from-append (suc ki) m n)))

length-places : (ki : ℕ) (calls : List Call) → length (places ki calls) ≡ length (rows calls)
length-places ki [] = refl
length-places ki (call ∷ calls) = ap suc (length-places (suc ki + length call.partners) calls)

concat-places :
    (ki : ℕ) (calls : List Call) → concat (places ki calls) ≡ range_from ki (length (kernels calls))
concat-places ki [] = refl
concat-places ki (call ∷ calls) = ap (◌∷◌ ki) (
    rw (
      concat-places (suc ki + length call.partners) calls,
      range_from-append,
      length-append call.partners (kernels calls),
    ))

-- When the join returns there is a list of indices for each row, and the lists in order hold
-- every index of the kernel records once, in ascending order.
pub assign_kernels-partition :
    (c : Clock) (rt_start : ℕ → Option ℕ) (ops : List IssueRow) (kern : List KernelRecord)
    (off0 : ℤ) (out : List (List ℕ))
    → assign_kernels c rt_start ops kern off0 ≡ returns out
    → (length out ≡ length ops) × (concat out ≡ range_from 0 (length kern))
assign_kernels-partition c rt_start ops kern off0 out h =
    let (calls, _, rows_eq, kernels_eq, out_eq) =
      assign_kernels-calls c rt_start ops kern off0 out h in
    rw (out_eq, ← rows_eq, ← kernels_eq) (length-places 0 calls, concat-places 0 calls)
