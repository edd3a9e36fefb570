-- ===== src/Analyze/Concurrency/Bounds.antt =====
-- The reported overlap is part of each client's busy time, and both are part of the union.
use cuda_schedule_project.Prelude.{
  ℕ, ◌≤◌, ◌≡◌, Bool, true, false, ◌&&◌, inl, inr, Bool-cases, List, [], ◌∷◌, All, ◌==◌, arith,
}
use cuda_schedule_project.Prelude.Int.{ℤ, pos, ◌+ℤ◌, ◌≤ℤ◌, int_laws}
use cuda_schedule_project.Analyze.Trace.{TraceRow}
use cuda_schedule_project.Analyze.SelfCheck.{client_ids}
use cuda_schedule_project.Analyze.Intervals.{covered}
use cuda_schedule_project.Analyze.Intervals.Ticks.{bit, ticks-le}
use cuda_schedule_project.Analyze.Intervals.Merged.{IsWithin}
use cuda_schedule_project.Analyze.Intervals.Overlap.{both}
use cuda_schedule_project.Analyze.Intervals.Busy.{busy_intervals-ticks, overlap_ns-busy_intervals}
use cuda_schedule_project.Analyze.Concurrency.{
  Concurrency, Report, shown, matched_kernels, client_spans, two_clients, report_of, concurrency,
}

bit_left : (p q : Bool) → bit (p && q) ≤ bit p
bit_left true true = omega arith
bit_left true false = omega arith
bit_left false q = omega arith

bit_right : (p q : Bool) → bit (p && q) ≤ bit q
bit_right true q = omega arith
bit_right false true = omega arith
bit_right false false = omega arith

-- The overlap, the busy times and the union are in order.
abbrev pub IsOrdered : Concurrency → Type 0
IsOrdered c =
    (pos 0 ≤ℤ c.overlap)
    × (c.overlap ≤ℤ c.busy_0)
    × (c.overlap ≤ℤ c.busy_1)
    × (c.busy_0 ≤ℤ c.union)
    × (c.busy_1 ≤ℤ c.union)

module _ (lo : ℤ) (n : ℕ) where
  two_clients-IsOrdered :
      (kern : List TraceRow)
      → All (IsWithin lo (lo +ℤ pos n)) (client_spans 0 kern)
      → All (IsWithin lo (lo +ℤ pos n)) (client_spans 1 kern)
      → IsOrdered (two_clients kern)
  unfolding two_clients
  two_clients-IsOrdered kern wa wb =
      let a = client_spans 0 kern in
      let b = client_spans 1 kern in
      let ea = busy_intervals-ticks lo n a wa in
      let eb = busy_intervals-ticks lo n b wb in
      let eo = overlap_ns-busy_intervals lo n a b wa wb in
      let la = ticks-le (both a b) (covered a) lo n (λ t. bit_left (covered a t) (covered b t)) in
      let lb = ticks-le (both a b) (covered b) lo n (λ t. bit_right (covered a t) (covered b t)) in
      rw (ea, eb, eo)
        (
          omega int_laws,
          omega (int_laws, la),
          omega (int_laws, lb),
          omega (int_laws, lb),
          omega (int_laws, la),
        )

  report_of-shown :
      (ids : List ℕ) (kern : List TraceRow) (c : Concurrency)
      → report_of ids kern ≡ shown c
      → c ≡ two_clients kern
  report_of-shown [] kern c h = cc
  report_of-shown (a ∷ []) kern c h = cc
  report_of-shown (a ∷ b ∷ []) kern c h = elim (Bool-cases (a == 0 && b == 1)) [
    | inl e ↦ let f : shown (two_clients kern) ≡ shown c = rw e at h in cc
    | inr e ↦ let f : Report.key_error ≡ shown c = rw e at h in cc
  ]
  report_of-shown (a ∷ b ∷ d ∷ ids) kern c h = cc

  -- If the kernels of the clients 0 and 1 lie in a window and end no earlier than they start, and
  -- the concurrency is reported, then the overlap is not negative, it is at most each client's busy
  -- time, and each of these is at most the union, so that the percentages are between 0 and 100.
  pub concurrency-IsOrdered :
      (trace : List TraceRow) (c : Concurrency)
      → All (IsWithin lo (lo +ℤ pos n)) (client_spans 0 (matched_kernels trace))
      → All (IsWithin lo (lo +ℤ pos n)) (client_spans 1 (matched_kernels trace))
      → concurrency trace ≡ shown c
      → IsOrdered c
  unfolding concurrency
  concurrency-IsOrdered trace c wa wb h =
      let e = report_of-shown (client_ids (matched_kernels trace)) (matched_kernels trace) c h in
      rw e (two_clients-IsOrdered (matched_kernels trace) wa wb)
