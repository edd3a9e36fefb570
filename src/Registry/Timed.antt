-- ===== src/Registry/Timed.antt =====
-- What the script reports of a workload.
use cuda_schedule_project.Prelude.{
  ℕ, ◌<◌, ◌≤◌, ◌≡◌, refl, ap, ◌∙◌, Bool, true, Option, some, List, [], ◌∷◌, length, arith,
}
use cuda_schedule_project.Prelude.Int.{pos}
use cuda_schedule_project.Prelude.Outcome.{Outcome, returns}
use cuda_schedule_project.Workload.{Workload, calibrate, drain}
use cuda_schedule_project.Workload.Slots.{IsPipelined}
use cuda_schedule_project.Workload.Pipeline.{calibrate-IsPipelined}
use cuda_schedule_project.Analyze.Pandas.{IsAscending, stable_sort, stable_sort-IsAscending}
use cuda_schedule_project.Timeline.Curves.{length-sorted, All-ge}
use cuda_schedule_project.Demo.{or_zero, checked, timed}
use cuda_schedule_project.Demo.Body.{timed_laws, checked_iters, checked-IsPipelined}
use cuda_schedule_project.Demo.Summary.{IsSorted, percentiles_le}
use cuda_schedule_project.Registry.Script.{ScriptError, Timing, passes, script}

ascending-IsSorted : (xs : List ℕ) → IsAscending (λ t. pos t) xs → IsSorted xs
ascending-IsSorted [] h = tt
ascending-IsSorted (x ∷ xs) h = (All-ge x xs h.0, ascending-IsSorted xs h.1)

module _ (gpu lap : ℕ → ℕ) where
  -- From a well-formed pipeline, if the workload has one iteration or more, forced or calibrated, and its
  -- check passes where it is asked for, then the script returns: it has one latency for each iteration,
  -- a median that is at most the 95th percentile, and nothing in flight at the end.
  pub script-returns :
      (target elapsed n : ℕ) (check : Option (ℕ × Bool)) (w : Workload)
      → IsPipelined w
      → (calibrate gpu target elapsed w).iters ≡ some n
      → 0 < n
      → passes (checked gpu lap check (calibrate gpu target elapsed w)).1 ≡ true
      → (t : Timing) × Path
          (Outcome ScriptError Timing)
          (script gpu lap target elapsed check w)
          (returns t)
        × (length t.lat ≡ n)
        × (t.percentiles.0 ≤ t.percentiles.1)
        × (t.final.stream.pending ≡ [])
  unfolding script drain
  script-returns target elapsed n check w v e h ok =
      let start = calibrate gpu target elapsed w in
      let tested = (checked gpu lap check start).0 in
      let count : or_zero tested.iters ≡ n = ap or_zero (checked_iters gpu lap check start ∙ e) in
      let ready =
        checked-IsPipelined gpu lap check start (calibrate-IsPipelined gpu target elapsed w v) in
      let laws = timed_laws gpu lap 0 (or_zero tested.iters) tested ready in
      let (last, lat) = timed gpu lap 0 (or_zero tested.iters) tested in
      let sorted = stable_sort (λ t. pos t) lat in
      let some_lat : 0 < length sorted = omega (arith, h, count, laws.lat_len, length-sorted lat) in
      let (a, b, p, le) =
        percentiles_le {E = Unit {0}} sorted some_lat
          (ascending-IsSorted sorted (stable_sort-IsAscending (λ t. pos t) lat)) in
      (
        record { lat = lat; percentiles = (a, b); final = drain last },
        rw (ok, p) refl,
        laws.lat_len ∙ count,
        le,
        refl,
      )
