-- ===== src/Frontend/Barrier/Progress.antt =====
-- The threads of an aborted or passed barrier all end, and none calls its client's function early.
use cuda_schedule_project.Prelude.{
  ℕ, suc, ◌+◌, ◌<◌, ◌≡◌, refl, sym, ◌⊎◌, inl, inr, Bool, true, Bool-cases, arith, ◌==◌,
}
use cuda_schedule_project.Prelude.Outcome.{raises, returns}
use cuda_schedule_project.Frontend.Barrier.{
  Barrier, filling, draining, broken, Client, starting, waiting, running, refused, ended, Threads,
  is_waiting, tally, Step, step_of, start, Reach, started, next,
}
use cuda_schedule_project.Frontend.Barrier.Turns.{
  Turn, fails, comes, too_late, passes, driven_off, ends, turn-Turn,
}
use cuda_schedule_project.Frontend.Barrier.Tally.{
  is_starting, is_running, is_refused, is_ended, tally-append, tally-replicate_zero,
  tally-replicate_one,
}

module _ {E A : Type 0} where
  -- How many steps a thread still has at most.
  abbrev pub steps_left : Client E A → ℕ
  steps_left starting = 3
  steps_left waiting = 2
  steps_left running = 1
  steps_left (refused o) = 0
  steps_left (ended o) = 0

  module _ (aborts : Bool) (parties : ℕ) where
    Turn-steps_left :
        {b : Barrier} {others : ℕ} {c : Client E A} {b' : Barrier} {c' : Client E A}
        → Turn aborts parties b others c b' c'
        → steps_left c' < steps_left c
    Turn-steps_left (fails e b others) = omega arith
    Turn-steps_left (comes others) = omega arith
    Turn-steps_left (too_late others) = omega arith
    Turn-steps_left (passes others) = omega arith
    Turn-steps_left (driven_off others) = omega arith
    Turn-steps_left (ends o b others) = omega arith

    -- Each step of a thread takes one of the steps that are left.
    pub Step-steps_left :
        {s s' : Threads E A}
        → Step aborts parties s s'
        → tally steps_left s'.clients < tally steps_left s.clients
    Step-steps_left (step_of event ls rs {b} {b'} c c' e) =
        let p = tally-append steps_left ls rs c in
        let p' = tally-append steps_left ls rs c' in
        let t = Turn-steps_left (turn-Turn aborts parties event b b' _ c c' e) in
        omega (arith, p, p', t)

-- Where the threads can be, from the numbers of them that are starting, wait, run, are refused and
-- have ended, if an exception aborts the barrier.
abbrev pub FitsCounts : Barrier → ℕ → ℕ → ℕ → ℕ → ℕ → Type 0
FitsCounts filling s w r f e = (0 < s) × (r ≡ 0) × (f ≡ 0) × (e ≡ 0)
FitsCounts draining s w r f e = s ≡ 0
FitsCounts broken s w r f e = (s ≡ 0) ⊎ (r + e ≡ 0)

FitsCounts-eq :
    (b : Barrier) {s s' w w' r r' f f' e e' : ℕ}
    → s ≡ s'
    → w ≡ w'
    → r ≡ r'
    → f ≡ f'
    → e ≡ e'
    → FitsCounts b s w r f e
    → FitsCounts b s' w' r' f' e'
FitsCounts-eq b hs hw hr hf he h = rw (← hs, ← hw, ← hr, ← hf, ← he) h

module _ {E A : Type 0} (parties : ℕ) where
  Turn-FitsCounts :
      {b : Barrier} (s w r f e : ℕ) {c : Client E A} {b' : Barrier} {c' : Client E A}
      → Turn true parties b w c b' c'
      → (s + is_starting c)
          + (w + is_waiting c)
          + (r + is_running c)
          + (f + is_refused c)
          + (e + is_ended c)
        ≡ parties
      → FitsCounts b
          (s + is_starting c)
          (w + is_waiting c)
          (r + is_running c)
          (f + is_refused c)
          (e + is_ended c)
      → FitsCounts b'
          (s + is_starting c')
          (w + is_waiting c')
          (r + is_running c')
          (f + is_refused c')
          (e + is_ended c')
  Turn-FitsCounts s w r f e (fails x filling others) all h = inr (omega (arith, h))
  Turn-FitsCounts s w r f e (fails x draining others) all h = omega (arith, h)
  Turn-FitsCounts s w r f e (fails x broken others) all (inl h) = omega (arith, h)
  Turn-FitsCounts s w r f e (fails x broken others) all (inr h) = inr (omega (arith, h))
  Turn-FitsCounts s w r f e (comes others) all (h1, h2, h3, h4) =
      elim (Bool-cases (suc w == parties)) [
        | inl t ↦ rw t (ground arith)
        | inr t ↦ rw t (ground arith, ground arith, ground arith, ground arith)
      ]
  Turn-FitsCounts s w r f e (too_late others) all (inl h) = omega (arith, h)
  Turn-FitsCounts s w r f e (too_late others) all (inr h) = inr (omega (arith, h))
  Turn-FitsCounts s w r f e (passes others) all h = omega (arith, h)
  Turn-FitsCounts s w r f e (driven_off others) all (inl h) = inl (omega (arith, h))
  Turn-FitsCounts s w r f e (driven_off others) all (inr h) = inr (omega (arith, h))
  Turn-FitsCounts s w r f e (ends (returns a) filling others) all (h1, h2, h3, h4) =
      absurd (omega arith)
  Turn-FitsCounts s w r f e (ends (returns a) draining others) all h = omega (arith, h)
  Turn-FitsCounts s w r f e (ends (returns a) broken others) all (inl h) = inl (omega (arith, h))
  Turn-FitsCounts s w r f e (ends (returns a) broken others) all (inr h) = absurd (omega (arith, h))
  Turn-FitsCounts s w r f e (ends (raises x) filling others) all (h1, h2, h3, h4) =
      absurd (omega arith)
  Turn-FitsCounts s w r f e (ends (raises x) draining others) all h = inl (omega (arith, h))
  Turn-FitsCounts s w r f e (ends (raises x) broken others) all (inl h) = inl (omega (arith, h))
  Turn-FitsCounts s w r f e (ends (raises x) broken others) all (inr h) = absurd (omega (arith, h))

  pub record Fits (t : Threads E A) : Type 0 where
    pub counted :
        tally is_starting t.clients
          + tally is_waiting t.clients
          + tally is_running t.clients
          + tally is_refused t.clients
          + tally is_ended t.clients
        ≡ parties
    pub fits :
        FitsCounts t.barrier
          (tally is_starting t.clients)
          (tally is_waiting t.clients)
          (tally is_running t.clients)
          (tally is_refused t.clients)
          (tally is_ended t.clients)

  one_place :
      (c : Client E A) → is_starting c + is_waiting c + is_running c + is_refused c + is_ended c ≡ 1
  one_place starting = refl
  one_place waiting = refl
  one_place running = refl
  one_place (refused o) = refl
  one_place (ended o) = refl

  Step-Fits : {t t' : Threads E A} → Step true parties t t' → Fits t → Fits t'
  Step-Fits (step_of event ls rs {b} {b'} c c' e) v =
      let s = tally-append is_starting ls rs in
      let w = tally-append is_waiting ls rs in
      let r = tally-append is_running ls rs in
      let f = tally-append is_refused ls rs in
      let e' = tally-append is_ended ls rs in
      let one = one_place c in
      let one' = one_place c' in
      let all = v.counted in
      let turned = turn-Turn true parties event b b' _ c c' e in
      record {
        counted =
            omega (arith, s c, w c, r c, f c, e' c, s c', w c', r c', f c', e' c', one, one', all);
        fits = FitsCounts-eq b' (sym (s c')) (sym (w c')) (sym (r c')) (sym (f c')) (sym (e' c')) (
            Turn-FitsCounts _ _ _ _ _ turned (omega (arith, s c, w c, r c, f c, e' c, all))
              (FitsCounts-eq b (s c) (w c) (r c) (f c) (e' c) v.fits));
      }

  start-Fits : 0 < parties → Fits (start true parties)
  start-Fits some_party =
      let s = tally-replicate_one {E = E} {A = A} is_starting parties starting refl in
      let w = tally-replicate_zero {E = E} {A = A} is_waiting parties starting refl in
      let r = tally-replicate_zero {E = E} {A = A} is_running parties starting refl in
      let f = tally-replicate_zero {E = E} {A = A} is_refused parties starting refl in
      let e = tally-replicate_zero {E = E} {A = A} is_ended parties starting refl in
      record {
        counted = omega (arith, s, w, r, f, e);
        fits = (omega (arith, s, some_party), r, f, e);
      }

  pub Reach-Fits : {t : Threads E A} → 0 < parties → Reach true parties t → Fits t
  Reach-Fits some_party started = start-Fits some_party
  Reach-Fits some_party (next reach step) = Step-Fits step (Reach-Fits some_party reach)
