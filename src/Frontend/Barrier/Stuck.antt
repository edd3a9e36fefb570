-- ===== src/Frontend/Barrier/Stuck.antt =====
-- Threads at a barrier that no exception aborts: one that fails before it leaves the others waiting.
use cuda_schedule_project.Prelude.{
  ℕ, suc, ◌+◌, ◌<◌, ◌≡◌, refl, sym, subst, inl, inr, false, Bool-cases, some, List, arith, ◌==◌,
}
use cuda_schedule_project.Prelude.Outcome.{raises, returns}
use cuda_schedule_project.Frontend.Barrier.{
  Barrier, filling, draining, broken, Client, starting, waiting, running, refused, ended, Threads,
  is_waiting, tally, turn, Step, step_of, start, Reach, started, next,
}
use cuda_schedule_project.Frontend.Barrier.Turns.{
  Turn, fails, comes, too_late, passes, driven_off, ends, turn-Turn,
}
use cuda_schedule_project.Frontend.Barrier.Tally.{
  is_starting, is_running, is_refused, is_ended, tally-append, tally-replicate_zero,
  tally-replicate_one,
}

-- Where the threads can be if an exception leaves the barrier alone.
abbrev pub StallsCounts : Barrier → ℕ → ℕ → ℕ → ℕ → ℕ → Type 0
StallsCounts filling s w r f e = (r ≡ 0) × (e ≡ 0)
StallsCounts draining s w r f e = s + f ≡ 0
StallsCounts broken s w r f e = ⊥

StallsCounts-eq :
    (b : Barrier) {s s' w w' r r' f f' e e' : ℕ}
    → s ≡ s'
    → w ≡ w'
    → r ≡ r'
    → f ≡ f'
    → e ≡ e'
    → StallsCounts b s w r f e
    → StallsCounts b s' w' r' f' e'
StallsCounts-eq b hs hw hr hf he h = rw (← hs, ← hw, ← hr, ← hf, ← he) h

module _ {E A : Type 0} (parties : ℕ) where
  Turn-StallsCounts :
      {b : Barrier} (s w r f e : ℕ) {c : Client E A} {b' : Barrier} {c' : Client E A}
      → Turn false parties b w c b' c'
      → (s + is_starting c)
          + (w + is_waiting c)
          + (r + is_running c)
          + (f + is_refused c)
          + (e + is_ended c)
        ≡ parties
      → StallsCounts b
          (s + is_starting c)
          (w + is_waiting c)
          (r + is_running c)
          (f + is_refused c)
          (e + is_ended c)
      → StallsCounts b'
          (s + is_starting c')
          (w + is_waiting c')
          (r + is_running c')
          (f + is_refused c')
          (e + is_ended c')
  Turn-StallsCounts s w r f e (fails x filling others) all (h1, h2) =
      (omega (arith, h1), omega (arith, h2))
  Turn-StallsCounts s w r f e (fails x draining others) all h = absurd (omega (arith, h))
  Turn-StallsCounts s w r f e (fails x broken others) all h = absurd h
  Turn-StallsCounts s w r f e (comes others) all (h1, h2) = elim (Bool-cases (suc w == parties)) [
    | inl t ↦ rw t (ground arith)
    | inr t ↦ rw t (ground arith, ground arith)
  ]
  Turn-StallsCounts s w r f e (too_late others) all h = absurd h
  Turn-StallsCounts s w r f e (passes others) all h = omega (arith, h)
  Turn-StallsCounts s w r f e (driven_off others) all h = absurd h
  Turn-StallsCounts s w r f e (ends (returns a) filling others) all (h1, h2) = absurd (omega arith)
  Turn-StallsCounts s w r f e (ends (returns a) draining others) all h = omega (arith, h)
  Turn-StallsCounts s w r f e (ends (returns a) broken others) all h = absurd h
  Turn-StallsCounts s w r f e (ends (raises x) filling others) all (h1, h2) = absurd (omega arith)
  Turn-StallsCounts s w r f e (ends (raises x) draining others) all h = omega (arith, h)
  Turn-StallsCounts s w r f e (ends (raises x) broken others) all h = absurd h

  pub record Stalls (t : Threads E A) : Type 0 where
    pub counted :
        tally is_starting t.clients
          + tally is_waiting t.clients
          + tally is_running t.clients
          + tally is_refused t.clients
          + tally is_ended t.clients
        ≡ parties
    pub fits :
        StallsCounts t.barrier
          (tally is_starting t.clients)
          (tally is_waiting t.clients)
          (tally is_running t.clients)
          (tally is_refused t.clients)
          (tally is_ended t.clients)

  one_place :
      (c : Client E A) → is_starting c + is_waiting c + is_running c + is_refused c + is_ended c ≡ 1
  one_place starting = refl
  one_place waiting = refl
  one_place running = refl
  one_place (refused o) = refl
  one_place (ended o) = refl

  Step-Stalls : {t t' : Threads E A} → Step false parties t t' → Stalls t → Stalls t'
  Step-Stalls (step_of event ls rs {b} {b'} c c' e) v =
      let s = tally-append is_starting ls rs in
      let w = tally-append is_waiting ls rs in
      let r = tally-append is_running ls rs in
      let f = tally-append is_refused ls rs in
      let e' = tally-append is_ended ls rs in
      let one = one_place c in
      let one' = one_place c' in
      let all = v.counted in
      let turned = turn-Turn false parties event b b' _ c c' e in
      record {
        counted =
            omega (arith, s c, w c, r c, f c, e' c, s c', w c', r c', f c', e' c', one, one', all);
        fits =
            StallsCounts-eq b' (sym (s c')) (sym (w c')) (sym (r c')) (sym (f c')) (sym (e' c')) (
              Turn-StallsCounts _ _ _ _ _ turned (omega (arith, s c, w c, r c, f c, e' c, all))
                (StallsCounts-eq b (s c) (w c) (r c) (f c) (e' c) v.fits));
      }

  start-Stalls : Stalls (start false parties)
  start-Stalls =
      let s = tally-replicate_one {E = E} {A = A} is_starting parties starting refl in
      let w = tally-replicate_zero {E = E} {A = A} is_waiting parties starting refl in
      let r = tally-replicate_zero {E = E} {A = A} is_running parties starting refl in
      let f = tally-replicate_zero {E = E} {A = A} is_refused parties starting refl in
      let e = tally-replicate_zero {E = E} {A = A} is_ended parties starting refl in
      record { counted = omega (arith, s, w, r, f, e); fits = (r, e) }

  pub Reach-Stalls : {t : Threads E A} → Reach false parties t → Stalls t
  Reach-Stalls started = start-Stalls
  Reach-Stalls (next reach step) = Step-Stalls step (Reach-Stalls reach)

  Turn-filling :
      {others : ℕ} {c : Client E A} {b' : Barrier} {c' : Client E A}
      → Turn false parties filling others c b' c'
      → 0 < is_starting c + is_running c
  Turn-filling (fails e b others) = omega arith
  Turn-filling (comes others) = omega arith
  Turn-filling (ends o b others) = omega arith

  Step-filling :
      {t t' : Threads E A}
      → Step false parties t t'
      → t.barrier ≡ filling
      → 0 < tally is_starting t.clients + tally is_running t.clients
  Step-filling (step_of event ls rs {b} {b'} c c' e) h =
      let turned = turn-Turn false parties event filling b' _ c c' (
        subst
          (λ x.
            turn false parties event x (tally is_waiting ls + tally is_waiting rs) c
            ≡ some (b', c'))
          h e) in
      omega (
        arith,
        tally-append is_starting ls rs c,
        tally-append is_running ls rs c,
        Turn-filling turned,
      )

  still_filling :
      (b : Barrier) (cs : List (Client E A))
      → Stalls (record { barrier = b; clients = cs })
      → 0 < tally is_refused cs
      → (b ≡ filling) × (tally is_running cs ≡ 0) × (tally is_ended cs ≡ 0)
  still_filling filling cs v h = (refl, v.fits.0, v.fits.1)
  still_filling draining cs v h = absurd (omega (arith, v.fits, h))
  still_filling broken cs v h = absurd v.fits

  -- If an exception leaves the barrier alone, and some thread failed before the barrier, then no
  -- thread has called its client's function, and as soon as none is on its way to the barrier there
  -- is no further step: those that wait there wait for ever.
  pub Reach-stuck :
      (t : Threads E A)
      → Reach false parties t
      → 0 < tally is_refused t.clients
      → (tally is_running t.clients + tally is_ended t.clients ≡ 0)
        × (tally is_starting t.clients ≡ 0 → (t' : Threads E A) → Step false parties t t' → ⊥)
  Reach-stuck t reach failed =
      let (b, r, e) = still_filling t.barrier t.clients (Reach-Stalls reach) failed in
      (
        omega (arith, r, e),
        λ none_starts t' step. omega (arith, r, none_starts, Step-filling step b),
      )
