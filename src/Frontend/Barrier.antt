-- ===== src/Frontend/Barrier.antt =====
-- The threads that meet at a `threading.Barrier`: the clients of `Colocator.launch` at the start
-- barrier, and those of `run_streams` and `run_colocated` at the barrier of `client_body`. Each
-- thread comes to a barrier once, so the return of a passed barrier to its first state is left out.
-- The last thread to come leaves without a wait in the library; here it wakes as the others do,
-- which allows every order of the library and some more.
pub mod Tally
pub mod Turns
pub mod Progress
pub mod Finish
pub mod Stuck
pub mod Examples
use cuda_schedule_project.Prelude.{
  ℕ, suc, ◌+◌, ◌≡◌, Bool, true, false, Option, none, some, List, [], ◌∷◌, ◌++◌, replicate, ◌==◌,
  if◌then◌else◌,
}
use cuda_schedule_project.Prelude.Outcome.{Outcome, raises, returns}

-- `threading.Barrier`: it waits for its parties, lets them through, or is broken.
pub data Barrier : Type 0 where
  filling draining broken : Barrier

-- `threading.Barrier.abort`
abbrev pub abort : Barrier → Barrier
abort b = broken

-- What the handler of a thread's exception does: that of `Colocator.launch` aborts its start barrier
-- and that of `run_streams` the barrier of `client_body`. No handler knows the one that
-- `run_colocated` of run_demo.py makes for `client_body`, so nothing aborts that.
abbrev pub handle : Bool → Barrier → Barrier
handle aborts b = if aborts then abort b else b

module _ (E A : Type 0) where
  -- What a thread does next: it fails before the barrier, comes to it, wakes up there, or ends its
  -- call of the client's function.
  pub data Event : Type 0 where
    fail : E → Event
    arrive wake : Event
    end : Outcome E A → Event

  -- `refused` is a thread that raised an exception before it called the client's function:
  -- `none` is the barrier's BrokenBarrierError.
  pub data Client : Type 0 where
    starting waiting running : Client
    refused : Option E → Client
    ended : Outcome E A → Client

  pub record Threads : Type 0 where
    pub barrier : Barrier
    pub clients : List Client

module _ {E A : Type 0} where
  -- 1 for a thread that waits at the barrier.
  abbrev pub is_waiting : Client E A → ℕ
  is_waiting waiting = 1
  is_waiting _ = 0

  abbrev pub tally : (Client E A → ℕ) → List (Client E A) → ℕ
  tally f [] = 0
  tally f (c ∷ cs) = f c + tally f cs

  abbrev pub after : Bool → Outcome E A → Barrier → Barrier
  after aborts (raises e) b = handle aborts b
  after aborts (returns a) b = b

  -- Whether the handler of a thread's exception aborts this barrier, and the parties.
  module _ (aborts : Bool) (parties : ℕ) where
    -- One thread's next step, while `others` of the other threads wait: the barrier and the
    -- thread after it, or `none` if the thread cannot take this step now.
    unfoldable pub turn : Event E A → Barrier → ℕ → Client E A → Option (Barrier × Client E A)
    turn (fail e) b others starting = some (handle aborts b, refused (some e))
    turn arrive filling others starting =
        some ((if suc others == parties then draining else filling), waiting)
    turn arrive draining others starting = none
    turn arrive broken others starting = some (handle aborts broken, refused none)
    turn wake filling others waiting = none
    turn wake draining others waiting = some (draining, running)
    turn wake broken others waiting = some (handle aborts broken, refused none)
    turn (end o) b others running = some (after aborts o b, ended o)
    turn _ _ _ _ = none

    -- A step of some thread, in any order of the threads.
    pub data Step : Threads E A → Threads E A → Type 0 where
      step_of :
          (event : Event E A) (ls rs : List (Client E A)) {b b' : Barrier} (c c' : Client E A)
          → turn event b (tally is_waiting ls + tally is_waiting rs) c ≡ some (b', c')
          → Step
              (record { barrier = b; clients = ls ++ c ∷ rs })
              (record { barrier = b'; clients = ls ++ c' ∷ rs })

    abbrev pub start : Threads E A
    start = record { barrier = filling; clients = replicate parties starting }

    -- What the threads reach from the start.
    pub data Reach : Threads E A → Type 0 where
      started : Reach start
      next : {s s' : Threads E A} → Reach s → Step s s' → Reach s'
