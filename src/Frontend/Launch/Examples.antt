-- ===== src/Frontend/Launch/Examples.antt =====
-- Runs of `launch` with two clients, and the environment of a process that is executed again.
use cuda_schedule_project.Prelude.{ℕ, ◌≡◌, refl, ◌↔◌, true, some, List, [], ◌∷◌, map, All}
use cuda_schedule_project.Prelude.Int.{ℤ, pos, negsuc}
use cuda_schedule_project.Prelude.Outcome.{Outcome, raises, returns}
use cuda_schedule_project.Prelude.Text.{codes}
use cuda_schedule_project.Prelude.Dict.{Text, Dict}
use cuda_schedule_project.Frontend.Barrier.{Client, refused, ended}
use cuda_schedule_project.Frontend.Env.{ld_preload}
use cuda_schedule_project.Frontend.Launch.{
  FrontendError, client_error, not_issued, wrong_priorities, setup_failed, new_colocator, prepare,
  check_errors, account, launch,
}
use cuda_schedule_project.Frontend.Launch.Returns.{
  all_returned, numbered, launch-returns, launch-raises,
}

abbrev both : List (Client ℕ ℕ)
both = ended (returns 5) ∷ ended (returns 6) ∷ []

abbrev counts : List (ℕ × ℕ)
counts = (10, 10) ∷ (4, 4) ∷ []

lost_operation : launch both ((10, 10) ∷ (4, 3) ∷ []) ≡ raises (not_issued 1 4 3)
unfolding launch check_errors account
lost_operation = refl

launch-returns_example :
    (launch both counts ≡ returns (some 5 ∷ some 6 ∷ [], (0, 10, 10) ∷ (1, 4, 4) ∷ [])) ↔ (
      (rs : List ℕ) × (both ≡ all_returned rs)
      × (some 5 ∷ some 6 ∷ [] ≡ map some rs)
      × ((0, 10, 10) ∷ (1, 4, 4) ∷ [] ≡ numbered 0 counts)
      × All (λ (c : ℕ × ℕ). c.0 ≡ c.1) counts)
launch-returns_example =
    launch-returns both counts (some 5 ∷ some 6 ∷ []) ((0, 10, 10) ∷ (1, 4, 4) ∷ []) (tt, (tt, tt))

abbrev two_failed : List (Client ℕ ℕ)
two_failed = ended (returns 5) ∷ refused (some 7) ∷ ended (raises 8) ∷ []

-- No priorities and an empty list of them stand for zeros; too few are refused.
default_priorities :
    Path
      (Outcome (FrontendError ℕ) (List ℤ))
      (new_colocator true 2 (some []))
      (returns (pos 0 ∷ pos 0 ∷ []))
unfolding new_colocator
default_priorities = refl

few_priorities :
    Path
      (Outcome (FrontendError ℕ) (List ℤ))
      (new_colocator true 2 (some (pos 1 ∷ [])))
      (raises wrong_priorities)
unfolding new_colocator
few_priorities = refl

failed_setup :
    Path (Outcome (FrontendError ℕ) (Unit {0})) (prepare 2 2 (negsuc 0)) (raises setup_failed)
unfolding prepare
failed_setup = refl

launch-raises_example : launch two_failed counts ≡ raises (client_error (some 7))
launch-raises_example =
    launch-raises (5 ∷ []) (refused (some 7)) (ended (raises 8) ∷ []) counts (some 7) refl

abbrev libcol : Text
libcol = codes "libcolocator.so"

abbrev plain_env : Dict Text
plain_env = (codes "HOME", codes "/root") ∷ (ld_preload, codes "a.so") ∷ []
