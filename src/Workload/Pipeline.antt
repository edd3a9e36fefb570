-- ===== src/Workload/Pipeline.antt =====
-- What the pipeline promises: at most two iterations in flight, and none of them in the buffer that
-- the next one writes.
use cuda_schedule_project.Prelude.{
  ℕ, zero, suc, ◌+◌, ◌≤◌, ◌≡◌, ◌⊎◌, inl, inr, refl, Option, Option-cases, none, some, [], ◌∷◌,
  length, arith,
}
use cuda_schedule_project.Workload.{
  calibrated_iters, calibrate_probes, measure, unless_forced, Workload, depth, admit, drain,
  run_iter, run_iter_sync, run_iters, calibrate,
}
use cuda_schedule_project.Workload.Calibrate.{calibrated_iters-bounds}
use cuda_schedule_project.Workload.Slots.{
  IsPipelined, admit-IsAdmitted, launch_parts, SlotFree, slot_free, in_flight_le,
}

unless_forced-none : (o : Option ℕ) (w m : Workload) → o ≡ none → unless_forced o w m ≡ m
unless_forced-none none w m e = refl
unless_forced-none (some n) w m e = cc

unless_forced-some : (o : Option ℕ) (w m : Workload) {n : ℕ} → o ≡ some n → unless_forced o w m ≡ w
unless_forced-some none w m e = cc
unless_forced-some (some n) w m e = refl

module _ (gpu : ℕ → ℕ) where
  -- From a well-formed pipeline `run_iter` leaves a well-formed one, in which at most two
  -- iterations are in flight. When it launches, no iteration in flight uses the result buffer that
  -- the new one writes, and that buffer is what it returns.
  pub run_iter-IsPipelined :
      (w : Workload)
      → IsPipelined w
      → IsPipelined (run_iter gpu w).0
        × (length (run_iter gpu w).0.stream.pending ≤ depth)
        × SlotFree (run_iter gpu w).1 (admit w).stream.pending
  unfolding run_iter
  run_iter-IsPipelined w v =
      let a = admit-IsAdmitted w v in
      let w' = admit w in
      let p =
        launch_parts (gpu (suc w'.stream.launched)) w'.iters w'.events w'.slot w'.stream.launched
          w'.stream.pending a in
      (p, in_flight_le p, slot_free w'.slot w'.stream.pending a.slot_lt a.slots_fit a.pending_le)

  -- `drain` leaves a well-formed pipeline with nothing in flight.
  pub drain-IsPipelined : (w : Workload) → IsPipelined w → IsPipelined (drain w)
  unfolding drain
  drain-IsPipelined w v = ground (arith, v.slot_lt)

  -- From a well-formed pipeline `run_iter_sync` leaves a well-formed one with nothing in flight. It
  -- launches when nothing is in flight, and launches once.
  pub run_iter_sync-IsPipelined :
      (w : Workload)
      → IsPipelined w
      → IsPipelined (run_iter_sync gpu w).0
        × ((run_iter_sync gpu w).0.stream.pending ≡ [])
        × ((run_iter_sync gpu w).0.stream.launched ≡ w.stream.launched + 1)
        × ((run_iter_sync gpu w).1 ≡ w.slot)
  unfolding run_iter_sync
  run_iter_sync-IsPipelined w v = (ground (arith, v.slot_lt), refl, omega arith, refl)

  pub run_iters-IsPipelined :
      (n : ℕ) (w : Workload) → IsPipelined w → IsPipelined (run_iters gpu n w)
  unfolding run_iters
  run_iters-IsPipelined zero w v = v
  run_iters-IsPipelined (suc n) w v =
      run_iters-IsPipelined n (run_iter gpu w).0 (run_iter-IsPipelined w v).0

  pub launched-run_iter :
      (w : Workload) → (run_iter gpu w).0.stream.launched ≡ w.stream.launched + 1
  unfolding run_iter
  launched-run_iter w =
      elim w.events as (λ es. (run_iter gpu w).0.stream.launched ≡ w.stream.launched + 1) [
        | [] ↦ ground arith
        | _ ∷ _ ↦ ground arith
      ]

  pub launched-run_iters :
      (n : ℕ) (w : Workload) → (run_iters gpu n w).stream.launched ≡ w.stream.launched + n
  unfolding run_iters
  launched-run_iters zero w = omega arith
  launched-run_iters (suc n) w =
      omega (arith, launched-run_iters n (run_iter gpu w).0, launched-run_iter w)

  measure_lem :
      (target elapsed : ℕ) (w : Workload)
      → IsPipelined w
      → IsPipelined (measure gpu target elapsed w)
        × ((measure gpu target elapsed w).stream.pending ≡ [])
        × ((measure gpu target elapsed w).stream.launched
            ≡ w.stream.launched + depth + calibrate_probes)
  unfolding measure drain
  measure_lem target elapsed w v =
      let filled = run_iters gpu depth w in
      let probed =
        run_iters-IsPipelined calibrate_probes filled (run_iters-IsPipelined depth w v) in
      (
        ground (arith, probed.slot_lt),
        refl,
        omega (arith, launched-run_iters calibrate_probes filled, launched-run_iters depth w),
      )

  measure_iters :
      (target elapsed : ℕ) (w : Workload)
      → (measure gpu target elapsed w).iters ≡ some (calibrated_iters target elapsed)
  unfolding measure
  measure_iters target elapsed w = refl

  -- A workload whose iterations are forced is left as it is by `calibrate`. For another, from a
  -- well-formed pipeline, it launches `DEPTH + CALIBRATE_PROBES` iterations, leaves nothing in
  -- flight, and sets between 3 and 5000 iterations.
  pub calibrate_cases :
      (target elapsed : ℕ) (w : Workload)
      → IsPipelined w
      → ((forced : ℕ) × (w.iters ≡ some forced) × (calibrate gpu target elapsed w ≡ w))
        ⊎ ((n : ℕ) × ((calibrate gpu target elapsed w).iters ≡ some n)
            × (3 ≤ n)
            × (n ≤ 5000)
            × IsPipelined (calibrate gpu target elapsed w)
            × ((calibrate gpu target elapsed w).stream.pending ≡ [])
            × ((calibrate gpu target elapsed w).stream.launched
                ≡ w.stream.launched + depth + calibrate_probes))
  unfolding calibrate
  calibrate_cases target elapsed w v = elim (Option-cases w.iters) [
    | inl free ↦
        let e : calibrate gpu target elapsed w ≡ measure gpu target elapsed w =
          unless_forced-none w.iters w (measure gpu target elapsed w) free in
        let m = measure_lem target elapsed w v in
        let bounds = calibrated_iters-bounds target elapsed in
        rw e (
          inr (
            calibrated_iters target elapsed,
            measure_iters _ _ _,
            bounds.0,
            bounds.1,
            m.0,
            m.1,
            m.2,
          ))
    | inr (forced, e) ↦
        inl (forced, e, unless_forced-some w.iters w (measure gpu target elapsed w) e)
  ]

  pub calibrate-IsPipelined :
      (target elapsed : ℕ) (w : Workload)
      → IsPipelined w
      → IsPipelined (calibrate gpu target elapsed w)
  calibrate-IsPipelined target elapsed w v = elim (calibrate_cases target elapsed w v) [
    | inl (forced, _, e) ↦ rw e v
    | inr (n, _, _, _, p, _, _) ↦ p
  ]
