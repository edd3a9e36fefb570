-- ===== src/Analyze/Intervals/Examples.antt =====
-- Two clients' activities, what the program computes on them, and the theorems there.
use cuda_schedule_project.Prelude.{◌||◌, ◌≡◌, refl, List, [], ◌∷◌, arith}
use cuda_schedule_project.Prelude.Int.{ℤ, pos, ◌+ℤ◌, ◌-ℤ◌, max_ℤ, min_ℤ}
use cuda_schedule_project.Analyze.Intervals.{Span, covered, busy_intervals, overlap_ns}
use cuda_schedule_project.Analyze.Intervals.Ticks.{ticks}
use cuda_schedule_project.Analyze.Intervals.Merged.{IsSeparated}
use cuda_schedule_project.Analyze.Intervals.Busy.{busy_intervals-covered, busy_union}

abbrev span : ℤ → ℤ → Span
span s e = record { start = s; stop = e }

abbrev first_client : List Span
first_client = span (pos 5) (pos 9) ∷ span (pos 1) (pos 3) ∷ span (pos 2) (pos 4) ∷ []

abbrev second_client : List Span
second_client = span (pos 3) (pos 6) ∷ span (pos 6) (pos 7) ∷ []

busy_first : busy_intervals first_client ≡ (pos 7, span (pos 1) (pos 4) ∷ span (pos 5) (pos 9) ∷ [])
unfolding busy_intervals max_ℤ ◌+ℤ◌ ◌-ℤ◌
busy_first = refl

overlap_clients :
    overlap_ns (busy_intervals first_client).1 (busy_intervals second_client).1 ≡ pos 3
unfolding busy_intervals overlap_ns max_ℤ min_ℤ ◌+ℤ◌ ◌-ℤ◌
overlap_clients = refl

busy_intervals-covered_example :
    ((t : ℤ) → covered (busy_intervals first_client).1 t ≡ covered first_client t)
    × IsSeparated (busy_intervals first_client).1
busy_intervals-covered_example = busy_intervals-covered first_client

busy_union_example :
    (busy_intervals first_client).0
      +ℤ (busy_intervals second_client).0
      -ℤ overlap_ns (busy_intervals first_client).1 (busy_intervals second_client).1
    ≡ pos (ticks (λ t. covered first_client t || covered second_client t) (pos 0) 10)
unfolding ◌+ℤ◌
busy_union_example = busy_union (pos 0) 10 first_client second_client (omega arith) (omega arith)
