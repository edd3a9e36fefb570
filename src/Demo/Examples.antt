-- ===== src/Demo/Examples.antt =====
-- A body of two forced iterations, and runs of the modes.
use cuda_schedule_project.Prelude.{
  ℕ, ◌+◌, ◌≡◌, refl, String, Bool, true, false, none, some, List, [], ◌∷◌, length,
}
use cuda_schedule_project.Prelude.Int.{pos}
use cuda_schedule_project.Prelude.Outcome.{Outcome, raises, returns}
use cuda_schedule_project.Workload.{new_workload, run_iters, run_iter_sync, drain, calibrate}
use cuda_schedule_project.Workload.Slots.{IsPipelined, new_workload-IsPipelined}
use cuda_schedule_project.Frontend.Barrier.{Client, ended}
use cuda_schedule_project.Demo.{
  refused_run, Colocatable, run_checks, timed, client_body, run_colocated,
}
use cuda_schedule_project.Demo.Body.{client_body_lem}

abbrev slow : ℕ → ℕ
slow n = 0

abbrev lap : ℕ → ℕ
lap i = 10 + i

two_laps : (client_body slow lap 500 1 (some (2, true)) (new_workload (some 2))).lat ≡ 10 ∷ 11 ∷ []
unfolding client_body run_checks timed run_iters run_iter_sync drain new_workload calibrate
two_laps = refl

client_body_lem_example :
    (n : ℕ) × ((client_body slow lap 500 1 (some (2, true)) (new_workload (some 2))).iters ≡ some n)
    × (length (client_body slow lap 500 1 (some (2, true)) (new_workload (some 2))).lat ≡ n)
    × ((client_body slow lap 500 1 (some (2, true)) (new_workload (some 2))).barrier.stream.pending
        ≡ [])
    × ((client_body slow lap 500 1 (some (2, true)) (new_workload (some 2))).final.stream.pending
        ≡ [])
    × ((client_body slow lap 500 1 (some (2, true)) (new_workload (some 2))).final.stream.launched
        ≡ (client_body slow lap 500 1
            (some (2, true))
            (new_workload (some 2))).barrier.stream.launched
          + n)
    × IsPipelined (client_body slow lap 500 1 (some (2, true)) (new_workload (some 2))).final
client_body_lem_example =
    client_body_lem slow lap 500 1 (some (2, true)) (new_workload (some 2))
      (new_workload-IsPipelined (some 2))

abbrev client : String → Bool → Colocatable
client name colocatable = record { name = name; colocatable = colocatable }

abbrev two_clients : List Colocatable
two_clients = client "fma" true ∷ client "dram" true ∷ []

abbrev threads : List (Client ℕ ℕ)
threads = ended (returns 5) ∷ ended (returns 6) ∷ []

hidden_is_refused :
    run_colocated true
      (pos 0)
      (pos 14)
      (client "hidden" false ∷ client "dram" true ∷ [])
      none
      threads
      ((10, 10) ∷ (4, 4) ∷ [])
    ≡ raises (refused_run ("hidden" ∷ []))
unfolding run_colocated
hidden_is_refused = refl
