-- ===== src/Frontend/Barrier/Examples.antt =====
-- Two threads at a barrier that an exception aborts, and at one that it leaves alone.
use cuda_schedule_project.Prelude.{
  ℕ, ◌+◌, ◌<◌, ◌≡◌, refl, ◌⊎◌, true, false, some, List, [], ◌∷◌, arith,
}
use cuda_schedule_project.Prelude.Outcome.{returns}
use cuda_schedule_project.Frontend.Barrier.{
  Barrier, filling, draining, fail, arrive, wake, Client, starting, waiting, running, refused,
  Threads, tally, turn, Step, step_of, Reach, started, next,
}
use cuda_schedule_project.Frontend.Barrier.Tally.{is_starting, is_running, is_ended}
use cuda_schedule_project.Frontend.Barrier.Progress.{steps_left}
use cuda_schedule_project.Frontend.Barrier.Finish.{HasEnded, Next, Reach-finishes, Reach-meets}
use cuda_schedule_project.Frontend.Barrier.Stuck.{Reach-stuck}

abbrev at : Barrier → List (Client ℕ ℕ) → Threads ℕ ℕ
at b cs = record { barrier = b; clients = cs }

-- Both come to the barrier, and the first calls its function.
abbrev first_runs : Threads ℕ ℕ
first_runs = at draining (running ∷ waiting ∷ [])

first_runs-Reach : Reach true 2 first_runs
unfolding turn
first_runs-Reach =
    next
      (next (next started (step_of arrive [] (starting ∷ []) starting waiting refl))
        (step_of arrive (waiting ∷ []) [] starting waiting refl))
      (step_of wake [] (waiting ∷ []) waiting running refl)

Reach-finishes_example :
    (HasEnded 2 first_runs.clients ⊎ Next 2 draining first_runs.clients)
    × ((t' : Threads ℕ ℕ)
        → Step true 2 first_runs t'
        → tally steps_left t'.clients < tally steps_left first_runs.clients)
Reach-finishes_example = Reach-finishes 2 (returns 0) first_runs (omega arith) first_runs-Reach

Reach-meets_example : tally is_starting first_runs.clients ≡ 0
Reach-meets_example = Reach-meets 2 first_runs (omega arith) first_runs-Reach (omega arith)

-- The first thread fails in its setup and does not abort the barrier; the second waits.
abbrev second_waits : Threads ℕ ℕ
second_waits = at filling (refused (some 7) ∷ waiting ∷ [])

second_waits-Reach : Reach false 2 second_waits
unfolding turn
second_waits-Reach =
    next (next started (step_of (fail 7) [] (starting ∷ []) starting (refused (some 7)) refl))
      (step_of arrive (refused (some 7) ∷ []) [] starting waiting refl)

Reach-stuck_example :
    (tally is_running second_waits.clients + tally is_ended second_waits.clients ≡ 0)
    × (tally is_starting second_waits.clients ≡ 0
        → (t' : Threads ℕ ℕ) → Step false 2 second_waits t'
        → ⊥)
Reach-stuck_example = Reach-stuck 2 second_waits second_waits-Reach (omega arith)
