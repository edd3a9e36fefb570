-- ===== src/Demo/Body.antt =====
-- What a client's body does to its pipeline.
use cuda_schedule_project.Prelude.{
  ℕ, zero, suc, ◌+◌, ◌≡◌, refl, ap, ◌∙◌, inl, inr, Bool, Bool-cases, Option, none, some, List, [],
  ◌∷◌, length, leb, arith,
}
use cuda_schedule_project.Workload.{
  Workload, depth, wait_oldest, admit, launch_iter, record_event, run_iter, run_iter_sync,
  run_iters, drain, measure, unless_forced, calibrate, calibrated_iters,
}
use cuda_schedule_project.Workload.Slots.{IsPipelined}
use cuda_schedule_project.Workload.Pipeline.{
  run_iter-IsPipelined, run_iter_sync-IsPipelined, run_iters-IsPipelined, drain-IsPipelined,
  launched-run_iter, calibrate-IsPipelined,
}
use cuda_schedule_project.Demo.{warmup, or_zero, run_checks, checked, timed, client_body}

wait_oldest_iters : (events : List ℕ) (w : Workload) → (wait_oldest events w).iters ≡ w.iters
unfolding wait_oldest
wait_oldest_iters [] w = refl
wait_oldest_iters (e ∷ events) w = refl

admit_iters : (w : Workload) → (admit w).iters ≡ w.iters
unfolding admit
admit_iters w = elim (Bool-cases (leb depth (length w.events))) [
  | inl e ↦ rw e (wait_oldest_iters w.events w)
  | inr e ↦ rw e refl
]

unless_forced-iters :
    (forced : Option ℕ) (w m : Workload)
    → w.iters ≡ forced
    → (k : ℕ) → m.iters ≡ some k
    → (n : ℕ) × ((unless_forced forced w m).iters ≡ some n)
unless_forced-iters none w m h k h' = (k, h')
unless_forced-iters (some n) w m h k h' = (n, h)

module _ (gpu lap : ℕ → ℕ) where
  run_iter_iters : (w : Workload) → (run_iter gpu w).0.iters ≡ w.iters
  unfolding run_iter record_event launch_iter
  run_iter_iters w = admit_iters w

  run_iters_iters : (n : ℕ) (w : Workload) → (run_iters gpu n w).iters ≡ w.iters
  unfolding run_iters
  run_iters_iters zero w = refl
  run_iters_iters (suc n) w = run_iters_iters n (run_iter gpu w).0 ∙ run_iter_iters w

  run_checks_iters : (n : ℕ) (w : Workload) → (run_checks gpu lap n w).iters ≡ w.iters
  unfolding run_checks run_iter_sync
  run_checks_iters zero w = refl
  run_checks_iters (suc n) w = run_checks_iters n (run_iter_sync gpu w).0

  run_checks-IsPipelined :
      (n : ℕ) (w : Workload) → IsPipelined w → IsPipelined (run_checks gpu lap n w)
  unfolding run_checks
  run_checks-IsPipelined zero w v = v
  run_checks-IsPipelined (suc n) w v =
      run_checks-IsPipelined n (run_iter_sync gpu w).0 (run_iter_sync-IsPipelined gpu w v).0

  pub checked_iters :
      (check : Option (ℕ × Bool)) (w : Workload) → (checked gpu lap check w).0.iters ≡ w.iters
  checked_iters none w = refl
  checked_iters (some (calls, verdict)) w = run_checks_iters calls w

  pub checked-IsPipelined :
      (check : Option (ℕ × Bool)) (w : Workload)
      → IsPipelined w
      → IsPipelined (checked gpu lap check w).0
  checked-IsPipelined none w v = v
  checked-IsPipelined (some (calls, verdict)) w v = run_checks-IsPipelined calls w v

  pub record LoopLaws (i n : ℕ) (w : Workload) : Type 0 where
    pub lat_len : length (timed gpu lap i n w).1 ≡ n
    pub launched_eq : (timed gpu lap i n w).0.stream.launched ≡ w.stream.launched + n
    pub pipelined : IsPipelined (timed gpu lap i n w).0

  pub timed_laws : (i n : ℕ) (w : Workload) → IsPipelined w → LoopLaws i n w
  unfolding timed
  timed_laws i zero w v = record { lat_len = refl; launched_eq = omega arith; pipelined = v }
  timed_laws i (suc n) w v =
      let t = timed_laws (suc i) n (run_iter gpu w).0 (run_iter-IsPipelined gpu w v).0 in
      record {
        lat_len = ap suc t.lat_len;
        launched_eq = omega (arith, t.launched_eq, launched-run_iter gpu w);
        pipelined = t.pipelined;
      }

  pub calibrate-some :
      (target elapsed : ℕ) (w : Workload)
      → (n : ℕ) × ((calibrate gpu target elapsed w).iters ≡ some n)
  unfolding calibrate measure
  calibrate-some target elapsed w =
      unless_forced-iters w.iters w (measure gpu target elapsed w) refl
        (calibrated_iters target elapsed) refl

  -- From a well-formed pipeline a client's body calibrates to some number of iterations and times
  -- that many, one latency each. It crosses the barrier and ends with nothing in flight, and all
  -- launches between the two are those of the timed iterations.
  pub client_body_lem :
      (target elapsed : ℕ) (check : Option (ℕ × Bool)) (w : Workload)
      → IsPipelined w
      → (n : ℕ) × ((client_body gpu lap target elapsed check w).iters ≡ some n)
        × (length (client_body gpu lap target elapsed check w).lat ≡ n)
        × ((client_body gpu lap target elapsed check w).barrier.stream.pending ≡ [])
        × ((client_body gpu lap target elapsed check w).final.stream.pending ≡ [])
        × ((client_body gpu lap target elapsed check w).final.stream.launched
            ≡ (client_body gpu lap target elapsed check w).barrier.stream.launched + n)
        × IsPipelined (client_body gpu lap target elapsed check w).final
  unfolding client_body drain
  client_body_lem target elapsed check w v =
      let (n, e) = calibrate-some target elapsed w in
      let start = calibrate gpu target elapsed w in
      let tested = (checked gpu lap check start).0 in
      let at_barrier = drain (run_iters gpu warmup tested) in
      let iters : at_barrier.iters ≡ some n =
        run_iters_iters warmup tested ∙ checked_iters check start ∙ e in
      let count : or_zero at_barrier.iters ≡ n = ap or_zero iters in
      let tested_ok =
        checked-IsPipelined check start (calibrate-IsPipelined gpu target elapsed w v) in
      let ready =
        drain-IsPipelined gpu (run_iters gpu warmup tested)
          (run_iters-IsPipelined gpu warmup tested tested_ok) in
      let t = timed_laws 0 (or_zero at_barrier.iters) at_barrier ready in
      (
        n,
        iters,
        t.lat_len ∙ count,
        refl,
        refl,
        omega (arith, t.launched_eq, count),
        drain-IsPipelined gpu _ t.pipelined,
      )
