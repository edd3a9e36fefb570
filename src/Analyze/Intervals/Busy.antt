-- ===== src/Analyze/Intervals/Busy.antt =====
-- `busy_intervals` against the set of nanoseconds in which some activity runs.
use cuda_schedule_project.Prelude.{
  ℕ, ◌+◌, Bool, true, false, ◌&&◌, ◌||◌, ◌≡◌, ◌∙◌, sym, ap, ap₂, List, All, arith,
}
use cuda_schedule_project.Prelude.Int.{ℤ, pos, ◌+ℤ◌, ◌-ℤ◌, int_laws}
use cuda_schedule_project.Analyze.Intervals.{Span, covered, busy_intervals, overlap_ns}
use cuda_schedule_project.Analyze.Intervals.Ticks.{bit, ticks, ticks_balance, ticks-ext}
use cuda_schedule_project.Analyze.Intervals.Merged.{
  IsWithin, IsSeparated, covered-merge_spans, merge_spans-IsSeparated, merge_spans-IsWithin,
}
use cuda_schedule_project.Analyze.Intervals.Overlap.{both, ticks-covered, overlap_ns-ticks}

-- The merged list covers the nanoseconds that the activities cover, and no others, and each of its
-- spans ends before the next ones start.
pub busy_intervals-covered :
    (spans : List Span)
    → ((t : ℤ) → covered (busy_intervals spans).1 t ≡ covered spans t)
      × IsSeparated (busy_intervals spans).1
unfolding busy_intervals
busy_intervals-covered spans = (λ t. covered-merge_spans t spans, merge_spans-IsSeparated spans)

module _ (lo : ℤ) (n : ℕ) where
  -- For activities that lie in the window of `n` ns from `lo` and end no earlier than they start,
  -- the busy time is the number of nanoseconds of the window in which some activity runs.
  pub busy_intervals-ticks :
      (spans : List Span)
      → All (IsWithin lo (lo +ℤ pos n)) spans
      → (busy_intervals spans).0 ≡ pos (ticks (covered spans) lo n)
  unfolding busy_intervals
  busy_intervals-ticks spans w =
      sym (
        ticks-covered lo n (busy_intervals spans).1 (merge_spans-IsSeparated spans)
          (merge_spans-IsWithin lo (lo +ℤ pos n) spans w))
      ∙ ap pos (ticks-ext _ _ lo n (λ t. covered-merge_spans t spans))

  -- For the activities of two clients, each of which lies in the window of `n` ns from `lo` and ends
  -- no earlier than it starts, the overlap of the clients' merged lists is the number of nanoseconds
  -- in which both run.
  pub overlap_ns-busy_intervals :
      (a b : List Span)
      → All (IsWithin lo (lo +ℤ pos n)) a
      → All (IsWithin lo (lo +ℤ pos n)) b
      → overlap_ns (busy_intervals a).1 (busy_intervals b).1 ≡ pos (ticks (both a b) lo n)
  unfolding busy_intervals
  overlap_ns-busy_intervals a b wa wb =
      overlap_ns-ticks lo n (busy_intervals a).1 (busy_intervals b).1 (merge_spans-IsSeparated a)
        (merge_spans-IsSeparated b) (merge_spans-IsWithin lo (lo +ℤ pos n) a wa)
        (merge_spans-IsWithin lo (lo +ℤ pos n) b wb)
      ∙ ap pos
          (ticks-ext _ _ lo n (λ t. ap₂ ◌&&◌ (covered-merge_spans t a) (covered-merge_spans t b)))

  -- For such activities of two clients, each in the window of `n` ns from `lo` and with an end no
  -- earlier than its start, `busy[0] + busy[1] - ov` is the number of nanoseconds of the window in
  -- which at least one of the two clients runs.
  pub busy_union :
      (a b : List Span)
      → All (IsWithin lo (lo +ℤ pos n)) a
      → All (IsWithin lo (lo +ℤ pos n)) b
      → (busy_intervals a).0
          +ℤ (busy_intervals b).0
          -ℤ overlap_ns (busy_intervals a).1 (busy_intervals b).1
        ≡ pos (ticks (λ t. covered a t || covered b t) lo n)
  busy_union a b wa wb =
      rw (busy_intervals-ticks a wa, busy_intervals-ticks b wb, overlap_ns-busy_intervals a b wa wb)
        (omega (
          int_laws,
          ticks_balance (covered a) (covered b) (λ t. covered a t || covered b t) (both a b) lo n
              (λ t. inclusion (covered a t) (covered b t)),
        ))
    where
      inclusion : (p q : Bool) → bit p + bit q ≡ bit (p || q) + bit (p && q)
      inclusion true true = omega arith
      inclusion true false = omega arith
      inclusion false true = omega arith
      inclusion false false = omega arith
