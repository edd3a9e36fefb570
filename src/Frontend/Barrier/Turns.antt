-- ===== src/Frontend/Barrier/Turns.antt =====
-- The steps of one thread, case by case.
use cuda_schedule_project.Prelude.{ℕ, suc, ◌≡◌, Bool, Option, none, some, ◌==◌, if◌then◌else◌}
use cuda_schedule_project.Prelude.Outcome.{Outcome}
use cuda_schedule_project.Frontend.Barrier.{
  Barrier, filling, draining, broken, Event, fail, arrive, wake, end, Client, starting, waiting,
  running, refused, ended, handle, after, turn,
}

some-pair :
    {A B : Type 0} {a a' : A} {b b' : B}
    → Path (Option (A × B)) (some (a, b)) (some (a', b'))
    → (a' ≡ a) × (b' ≡ b)
some-pair h = (cc, cc)

module _ {E A : Type 0} where
  module _ (aborts : Bool) (parties : ℕ) where
    -- The barrier and the thread before a step, with the number of others that wait, and after it.
    pub data Turn : Barrier → ℕ → Client E A → Barrier → Client E A → Type 0 where
      fails :
          (e : E) (b : Barrier) (others : ℕ)
          → Turn b others starting (handle aborts b) (refused (some e))
      comes :
          (others : ℕ)
          → Turn filling others starting
              (if suc others == parties then draining else filling)
              waiting
      too_late : (others : ℕ) → Turn broken others starting (handle aborts broken) (refused none)
      passes : (others : ℕ) → Turn draining others waiting draining running
      driven_off : (others : ℕ) → Turn broken others waiting (handle aborts broken) (refused none)
      ends :
          (o : Outcome E A) (b : Barrier) (others : ℕ)
          → Turn b others running (after aborts o b) (ended o)

    pub turn-Turn :
        (event : Event E A) (b b' : Barrier) (others : ℕ) (c c' : Client E A)
        → turn aborts parties event b others c ≡ some (b', c')
        → Turn b others c b' c'
    unfolding turn
    turn-Turn (fail e) b b' others starting c' h =
        let (p, q) = some-pair h in rw (p, q) (fails e b others)
    turn-Turn (fail e) b b' others waiting c' h = cc
    turn-Turn (fail e) b b' others running c' h = cc
    turn-Turn (fail e) b b' others (refused x) c' h = cc
    turn-Turn (fail e) b b' others (ended x) c' h = cc
    turn-Turn arrive filling b' others starting c' h =
        let (p, q) = some-pair h in rw (p, q) (comes others)
    turn-Turn arrive draining b' others starting c' h = cc
    turn-Turn arrive broken b' others starting c' h =
        let (p, q) = some-pair h in rw (p, q) (too_late others)
    turn-Turn arrive filling b' others waiting c' h = cc
    turn-Turn arrive draining b' others waiting c' h = cc
    turn-Turn arrive broken b' others waiting c' h = cc
    turn-Turn arrive filling b' others running c' h = cc
    turn-Turn arrive draining b' others running c' h = cc
    turn-Turn arrive broken b' others running c' h = cc
    turn-Turn arrive filling b' others (refused x) c' h = cc
    turn-Turn arrive draining b' others (refused x) c' h = cc
    turn-Turn arrive broken b' others (refused x) c' h = cc
    turn-Turn arrive filling b' others (ended x) c' h = cc
    turn-Turn arrive draining b' others (ended x) c' h = cc
    turn-Turn arrive broken b' others (ended x) c' h = cc
    turn-Turn wake filling b' others starting c' h = cc
    turn-Turn wake draining b' others starting c' h = cc
    turn-Turn wake broken b' others starting c' h = cc
    turn-Turn wake filling b' others waiting c' h = cc
    turn-Turn wake draining b' others waiting c' h =
        let (p, q) = some-pair h in rw (p, q) (passes others)
    turn-Turn wake broken b' others waiting c' h =
        let (p, q) = some-pair h in rw (p, q) (driven_off others)
    turn-Turn wake filling b' others running c' h = cc
    turn-Turn wake draining b' others running c' h = cc
    turn-Turn wake broken b' others running c' h = cc
    turn-Turn wake filling b' others (refused x) c' h = cc
    turn-Turn wake draining b' others (refused x) c' h = cc
    turn-Turn wake broken b' others (refused x) c' h = cc
    turn-Turn wake filling b' others (ended x) c' h = cc
    turn-Turn wake draining b' others (ended x) c' h = cc
    turn-Turn wake broken b' others (ended x) c' h = cc
    turn-Turn (end o) b b' others starting c' h = cc
    turn-Turn (end o) b b' others waiting c' h = cc
    turn-Turn (end o) b b' others running c' h =
        let (p, q) = some-pair h in rw (p, q) (ends o b others)
    turn-Turn (end o) b b' others (refused x) c' h = cc
    turn-Turn (end o) b b' others (ended x) c' h = cc
