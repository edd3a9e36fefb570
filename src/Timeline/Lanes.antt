-- ===== src/Timeline/Lanes.antt =====
-- Each row that the plot shows is in one lane, and the others are in none.
use mathlib.Core.List.{Perm}
use mathlib.Core.List.Perm
use mathlib.Core.List as List
use cuda_schedule_project.Prelude.{
  ℕ, ◌<◌, ◌≡◌, refl, sym, subst, inl, inr, Bool, true, false, ◌&&◌, ◌||◌, Bool-cases, List, [], ◌∷◌,
  ◌++◌, select, All, ◌==◌, arith, if◌then◌else◌,
}
use cuda_schedule_project.Analyze.Records.{OpKind, kernel_launch}
use cuda_schedule_project.Analyze.Kinds.{in_memcpy_kinds, is_launch}
use cuda_schedule_project.Analyze.Trace.{TraceRow}
use cuda_schedule_project.Analyze.SelfCheck.{client_ids}
use cuda_schedule_project.Timeline.Clients.{
  IsIncreasing, Occurs, client_ids-IsIncreasing, client_ids-All,
}
use cuda_schedule_project.Timeline.{Lane, launches, memcpys, lanes_of, lanes}

-- A row of the kinds that the plot shows.
abbrev pub is_shown : TraceRow → Bool
is_shown op = is_launch op.kind || in_memcpy_kinds op.kind

abbrev pub rows_of : List Lane → List TraceRow
rows_of [] = []
rows_of (lane ∷ lanes) = lane.rows ++ rows_of lanes

-- The row in front of others, if the test holds.
abbrev pub add_if : Bool → TraceRow → List TraceRow → List TraceRow
add_if true op rows = op ∷ rows
add_if false op rows = rows

not_both : (kind : OpKind) → is_launch kind ≡ true → in_memcpy_kinds kind ≡ true → ⊥
not_both kernel_launch l m = cc
not_both _ l m = cc

-- A row added to one of two lists in a row, or to neither.
add_once :
    (a b : Bool) (op : TraceRow) (xs ys rest : List TraceRow)
    → (a ≡ true → b ≡ true → ⊥)
    → Perm (add_if a op xs ++ (add_if b op ys ++ rest)) (add_if (a || b) op (xs ++ (ys ++ rest)))
add_once true true op xs ys rest h = absurd (h refl refl)
add_once true false op xs ys rest h = Perm.rfl
add_once false true op xs ys rest h = List.perm_middle xs (ys ++ rest)
add_once false false op xs ys rest h = Perm.rfl

add_behind :
    (a : Bool) (op : TraceRow) (xs ys : List TraceRow)
    → Perm (xs ++ add_if a op ys) (add_if a op (xs ++ ys))
add_behind true op xs ys = List.perm_middle xs ys
add_behind false op xs ys = Perm.rfl

add_both :
    (a : Bool) (op : TraceRow) {xs ys : List TraceRow}
    → Perm xs ys
    → Perm (add_if a op xs) (if a then op ∷ ys else ys)
add_both true op p = Perm.cons op p
add_both false op p = p

module _ (op : TraceRow) (ops : List TraceRow) where
  launches-cons :
      (c : ℕ)
      → launches c (op ∷ ops) ≡ add_if (op.client == c && is_launch op.kind) op (launches c ops)
  unfolding launches
  launches-cons c = elim (Bool-cases (op.client == c && is_launch op.kind)) [
    | inl e ↦ rw e refl
    | inr e ↦ rw e refl
  ]

  memcpys-cons :
      (c : ℕ)
      → memcpys c (op ∷ ops) ≡ add_if (op.client == c && in_memcpy_kinds op.kind) op (memcpys c ops)
  unfolding memcpys
  memcpys-cons c = elim (Bool-cases (op.client == c && in_memcpy_kinds op.kind)) [
    | inl e ↦ rw e refl
    | inr e ↦ rw e refl
  ]

  lanes_of-other :
      (cs : List ℕ)
      → All (λ d. op.client < d) cs
      → rows_of (lanes_of (op ∷ ops) cs) ≡ rows_of (lanes_of ops cs)
  unfolding lanes_of
  lanes_of-other [] h = refl
  lanes_of-other (c ∷ cs) h =
      let e : (op.client == c) ≡ false = ground (arith, h.0) in
      rw (launches-cons c, memcpys-cons c, e, lanes_of-other cs h.1) refl

  lanes_of-cons :
      (cs : List ℕ)
      → IsIncreasing cs
      → Occurs op.client cs
      → Perm
          (rows_of (lanes_of (op ∷ ops) cs))
          (add_if (is_shown op) op (rows_of (lanes_of ops cs)))
  unfolding lanes_of
  lanes_of-cons [] increasing occurs = absurd occurs
  lanes_of-cons (c ∷ cs) increasing (inl same) =
      let e : (op.client == c) ≡ true = ground (arith, same) in
      let above : All (λ d. op.client < d) cs =
        subst (λ a. All (λ d. a < d) cs) (sym same) increasing.0 in
      rw (launches-cons c, memcpys-cons c, e, lanes_of-other cs above)
        (add_once (is_launch op.kind) (in_memcpy_kinds op.kind) op (launches c ops) (memcpys c ops)
          (rows_of (lanes_of ops cs)) (not_both op.kind))
  lanes_of-cons (c ∷ cs) increasing (inr later) =
      let e : (op.client == c) ≡ false = later_other c cs increasing.0 later in
      let rest = lanes_of-cons cs increasing.1 later in
      let xs = launches c ops in
      let ys = memcpys c ops in
      let behind = Perm.append_left xs (Perm.append_left ys rest) in
      let outer =
        Perm.append_left xs (add_behind (is_shown op) op ys (rows_of (lanes_of ops cs))) in
      let whole = add_behind (is_shown op) op xs (ys ++ rows_of (lanes_of ops cs)) in
      rw (launches-cons c, memcpys-cons c, e) (Perm.trans behind (Perm.trans outer whole))
    where
      later_other :
          (c : ℕ) (cs : List ℕ)
          → All (λ d. c < d) cs
          → Occurs op.client cs
          → (op.client == c) ≡ false
      later_other c [] h k = absurd k
      later_other c (d ∷ ds) h (inl same) = ground (arith, h.0, same)
      later_other c (d ∷ ds) h (inr k) = later_other c ds h.1 k

no_rows : (cs : List ℕ) → rows_of (lanes_of [] cs) ≡ []
unfolding lanes_of launches memcpys
no_rows [] = refl
no_rows (c ∷ cs) = no_rows cs

shown_of :
    (cs : List ℕ)
    → IsIncreasing cs
    → (rows : List TraceRow) → All (λ (op : TraceRow). Occurs op.client cs) rows
    → Perm (rows_of (lanes_of rows cs)) (select is_shown rows)
shown_of cs increasing [] h = rw (no_rows cs) Perm.rfl
shown_of cs increasing (op ∷ ops) h =
    Perm.trans (lanes_of-cons op ops cs increasing h.0)
      (add_both (is_shown op) op (shown_of cs increasing ops h.1))

-- The rows of the lanes, one lane after the other, are the rows of the trace that are of a shown kind,
-- in another order: each launch and each memcpy is in one lane, once, and a row of another kind, as that
-- of a cuBLAS call, is in none.
pub lanes-rows : (trace : List TraceRow) → Perm (rows_of (lanes trace)) (select is_shown trace)
unfolding lanes
lanes-rows trace =
    shown_of (client_ids trace) (client_ids-IsIncreasing trace) trace (client_ids-All trace)
