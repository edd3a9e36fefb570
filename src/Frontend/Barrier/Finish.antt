-- ===== src/Frontend/Barrier/Finish.antt =====
-- Threads that start at a barrier all end, if an exception aborts the barrier.
use native.Mathlib.Decide.{dec_lt}
use cuda_schedule_project.Prelude.{
  ℕ, suc, ◌+◌, ◌<◌, ◌≡◌, refl, ap, ◌⊎◌, inl, inr, true, none, some, List, [], ◌∷◌, ◌++◌, arith,
  ◌==◌, if◌then◌else◌,
}
use cuda_schedule_project.Prelude.Outcome.{Outcome}
use cuda_schedule_project.Frontend.Barrier.{
  Barrier, filling, draining, broken, Event, arrive, wake, end, Client, starting, waiting, running,
  refused, ended, Threads, is_waiting, tally, after, turn, Step, step_of, Reach,
}
use cuda_schedule_project.Frontend.Barrier.Progress.{Fits, Reach-Fits, steps_left, Step-steps_left}
use cuda_schedule_project.Frontend.Barrier.Tally.{is_starting, is_running, is_refused, is_ended}

broken_meets : {s n : ℕ} → (s ≡ 0) ⊎ (n ≡ 0) → 0 < n → s ≡ 0
broken_meets (inl h) called = h
broken_meets (inr h) called = absurd (omega (arith, h, called))

module _ {E A : Type 0} (parties : ℕ) where
  -- A thread that is counted, with the threads before and after it.
  record Place (f : Client E A → ℕ) (cs : List (Client E A)) : Type 0 where
    before : List (Client E A)
    at : Client E A
    behind : List (Client E A)
    counted : 0 < f at
    split : before ++ at ∷ behind ≡ cs

  Place-cons :
      {f : Client E A → ℕ} {cs : List (Client E A)} (c : Client E A) → Place f cs → Place f (c ∷ cs)
  Place-cons c p = record {
    before = c ∷ p.before;
    at = p.at;
    behind = p.behind;
    counted = p.counted;
    split = ap (◌∷◌ c) p.split;
  }

  Place-tally : (f : Client E A → ℕ) (cs : List (Client E A)) → 0 < tally f cs → Place f cs
  Place-tally f [] h = absurd (omega (arith, h))
  Place-tally f (c ∷ cs) h = elim (dec_lt 0 (f c)) [
    | yes p ↦ record { before = []; at = c; behind = cs; counted = p; split = refl }
    | no p ↦ Place-cons c (Place-tally f cs (omega (arith, h, p)))
  ]

  -- A step at a place is a step of the threads.
  abbrev pub Next : Barrier → List (Client E A) → Type 0
  Next b cs = (t : Threads E A) × Step true parties (record { barrier = b; clients = cs }) t

  step_at :
      {f : Client E A → ℕ} {cs : List (Client E A)} (event : Event E A) (b b' : Barrier)
      (c' : Client E A) (p : Place f cs)
      → turn true parties event b (tally is_waiting p.before + tally is_waiting p.behind) p.at
        ≡ some (b', c')
      → Next b cs
  step_at event b b' c' p e = rw (← p.split) (
    record { barrier = b'; clients = p.before ++ c' ∷ p.behind },
    step_of event p.before p.behind p.at c' e,
  )

  arrive-filling :
      (others : ℕ) (c : Client E A)
      → 0 < is_starting c
      → turn true parties arrive filling others c
        ≡ some ((if suc others == parties then draining else filling), waiting)
  unfolding turn
  arrive-filling others starting h = refl
  arrive-filling others waiting h = absurd (omega (arith, h))
  arrive-filling others running h = absurd (omega (arith, h))
  arrive-filling others (refused x) h = absurd (omega (arith, h))
  arrive-filling others (ended x) h = absurd (omega (arith, h))

  arrive-broken :
      (others : ℕ) (c : Client E A)
      → 0 < is_starting c
      → turn true parties arrive broken others c ≡ some (broken, refused none)
  unfolding turn
  arrive-broken others starting h = refl
  arrive-broken others waiting h = absurd (omega (arith, h))
  arrive-broken others running h = absurd (omega (arith, h))
  arrive-broken others (refused x) h = absurd (omega (arith, h))
  arrive-broken others (ended x) h = absurd (omega (arith, h))

  wake-draining :
      (others : ℕ) (c : Client E A)
      → 0 < is_waiting c
      → turn true parties wake draining others c ≡ some (draining, running)
  unfolding turn
  wake-draining others starting h = absurd (omega (arith, h))
  wake-draining others waiting h = refl
  wake-draining others running h = absurd (omega (arith, h))
  wake-draining others (refused x) h = absurd (omega (arith, h))
  wake-draining others (ended x) h = absurd (omega (arith, h))

  wake-broken :
      (others : ℕ) (c : Client E A)
      → 0 < is_waiting c
      → turn true parties wake broken others c ≡ some (broken, refused none)
  unfolding turn
  wake-broken others starting h = absurd (omega (arith, h))
  wake-broken others waiting h = refl
  wake-broken others running h = absurd (omega (arith, h))
  wake-broken others (refused x) h = absurd (omega (arith, h))
  wake-broken others (ended x) h = absurd (omega (arith, h))

  end-running :
      (o : Outcome E A) (b : Barrier) (others : ℕ) (c : Client E A)
      → 0 < is_running c
      → turn true parties (end o) b others c ≡ some (after true o b, ended o)
  unfolding turn
  end-running o b others starting h = absurd (omega (arith, h))
  end-running o b others waiting h = absurd (omega (arith, h))
  end-running o b others running h = refl
  end-running o b others (refused x) h = absurd (omega (arith, h))
  end-running o b others (ended x) h = absurd (omega (arith, h))

  abbrev pub HasEnded : List (Client E A) → Type 0
  HasEnded cs = tally is_refused cs + tally is_ended cs ≡ parties

  module _ (o : Outcome E A) where
    arrive_or_end :
        (b : Barrier) (cs : List (Client E A))
        → Fits parties (record { barrier = b; clients = cs })
        → HasEnded cs ⊎ Next b cs
    arrive_or_end filling cs v =
        let p = Place-tally is_starting cs (v.fits.0) in
        inr (step_at arrive filling _ waiting p (arrive-filling _ p.at p.counted))
    arrive_or_end draining cs v = elim (dec_lt 0 (tally is_waiting cs)) [
      | yes h ↦
          let p = Place-tally is_waiting cs h in
          inr (step_at wake draining draining running p (wake-draining _ p.at p.counted))
      | no none_waits ↦ elim (dec_lt 0 (tally is_running cs)) [
        | yes h ↦
            let p = Place-tally is_running cs h in
            inr (step_at (end o) draining _ (ended o) p (end-running o draining _ p.at p.counted))
        | no none_runs ↦ inl (omega (arith, v.counted, v.fits, none_waits, none_runs))
      ]
    ]
    arrive_or_end broken cs v = elim (dec_lt 0 (tally is_starting cs)) [
      | yes h ↦
          let p = Place-tally is_starting cs h in
          inr (step_at arrive broken broken (refused none) p (arrive-broken _ p.at p.counted))
      | no none_starts ↦ elim (dec_lt 0 (tally is_waiting cs)) [
        | yes h ↦
            let p = Place-tally is_waiting cs h in
            inr (step_at wake broken broken (refused none) p (wake-broken _ p.at p.counted))
        | no none_waits ↦ elim (dec_lt 0 (tally is_running cs)) [
          | yes h ↦
              let p = Place-tally is_running cs h in
              inr (step_at (end o) broken _ (ended o) p (end-running o broken _ p.at p.counted))
          | no none_runs ↦ inl (omega (arith, v.counted, none_starts, none_waits, none_runs))
        ]
      ]
    ]

  meets :
      (b : Barrier) (cs : List (Client E A))
      → Fits parties (record { barrier = b; clients = cs })
      → 0 < tally is_running cs + tally is_ended cs
      → tally is_starting cs ≡ 0
  meets filling cs v called = let (_, r, _, e) = v.fits in absurd (omega (arith, r, e, called))
  meets draining cs v called = v.fits
  meets broken cs v called = broken_meets v.fits called

  -- Threads that meet at a barrier which an exception aborts, one or more of them, are never stuck:
  -- in whatever order they have run, either all have ended or some thread can take a step, where
  -- `o` is what a client's function would end with. Each step leaves fewer steps to be taken.
  pub Reach-finishes :
      (o : Outcome E A) (t : Threads E A)
      → 0 < parties
      → Reach true parties t
      → (HasEnded t.clients ⊎ Next t.barrier t.clients)
        × ((t' : Threads E A)
            → Step true parties t t'
            → tally steps_left t'.clients < tally steps_left t.clients)
  Reach-finishes o t some_party reach = (
    arrive_or_end o t.barrier t.clients (Reach-Fits parties some_party reach),
    λ t' step. Step-steps_left true parties step,
  )

  -- Of threads that meet at a barrier which an exception aborts, one or more of them, none calls its
  -- client's function before all have come to the barrier or failed.
  pub Reach-meets :
      (t : Threads E A)
      → 0 < parties
      → Reach true parties t
      → 0 < tally is_running t.clients + tally is_ended t.clients
      → tally is_starting t.clients ≡ 0
  Reach-meets t some_party reach called =
      meets t.barrier t.clients (Reach-Fits parties some_party reach) called
