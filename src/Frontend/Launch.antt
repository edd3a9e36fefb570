-- ===== src/Frontend/Launch.antt =====
-- `Colocator.__init__`, `launch` and `dump_issue_log`.
pub mod Returns
pub mod Examples
use cuda_schedule_project.Prelude.{
  ℕ, suc, Bool, true, false, Option, none, some, List, [], ◌∷◌, map, length, replicate, ltb, ◌==◌,
  if◌then◌else◌,
}
use cuda_schedule_project.Prelude.Int.{ℤ, pos, ltb_ℤ}
use cuda_schedule_project.Prelude.Outcome.{Outcome, raises, returns, ◌>>=◌}
use cuda_schedule_project.Frontend.Barrier.{Client, starting, waiting, running, refused, ended}

pub data FrontendError (E : Type 0) : Type 0 where
  -- the assertions
  not_managed wrong_priorities wrong_callables : FrontendError E
  setup_failed dump_failed : FrontendError E
  -- an exception of a client's thread; `none` is the barrier's
  client_error : Option E → FrontendError E
  not_issued : (client submitted issued : ℕ) → FrontendError E

-- `priorities or [0] * num_clients`
abbrev pub or_zeros : ℕ → Option (List ℤ) → List ℤ
or_zeros num_clients none = replicate num_clients (pos 0)
or_zeros num_clients (some []) = replicate num_clients (pos 0)
or_zeros num_clients (some (p ∷ ps)) = p ∷ ps

module _ {E : Type 0} where
  -- `__init__`: the priorities of the clients.
  unfoldable pub new_colocator :
      (managed : Bool) → ℕ → Option (List ℤ) → Outcome (FrontendError E) (List ℤ)
  new_colocator managed num_clients priorities =
      if managed
      then (if length (or_zeros num_clients priorities) == num_clients
          then returns (or_zeros num_clients priorities)
          else raises wrong_priorities)
      else raises not_managed

  -- `launch` before the threads start. `setup` is what `col_setup` returns.
  unfoldable pub prepare :
      (num_clients callables : ℕ) (setup : ℤ) → Outcome (FrontendError E) (Unit {0})
  prepare num_clients callables (pos n) =
      if callables == num_clients
      then (if n == 0 then returns tt else raises setup_failed)
      else raises wrong_callables
  prepare num_clients callables _ =
      if callables == num_clients then raises setup_failed else raises wrong_callables

  unfoldable pub dump_issue_log : ℤ → Outcome (FrontendError E) ℤ
  dump_issue_log n = if ltb_ℤ n (pos 0) then raises dump_failed else returns n

module _ {E : Type 0} where
  abbrev pub raise_or :
      Option (Option E)
      → Outcome (FrontendError E) (Unit {0})
      → Outcome (FrontendError E) (Unit {0})
  raise_or none later = later
  raise_or (some e) later = raises (client_error e)

module _ {E A : Type 0} where
  -- `results[i]` and `errors[i]` after the thread.
  abbrev pub result_of : Client E A → Option A
  result_of (ended (returns a)) = some a
  result_of _ = none

  abbrev pub error_of : Client E A → Option (Option E)
  error_of (ended (raises e)) = some (some e)
  error_of (refused e) = some e
  error_of _ = none

  -- `for e in errors: if e is not None: raise e`
  unfoldable pub check_errors : List (Client E A) → Outcome (FrontendError E) (Unit {0})
  check_errors [] = returns tt
  check_errors (c ∷ cs) = raise_or (error_of c) (check_errors cs)

module _ {E : Type 0} where
  -- The accounting from client `i` on, over the submitted and the issued operations of each.
  unfoldable pub account : ℕ → List (ℕ × ℕ) → Outcome (FrontendError E) (List (ℕ × ℕ × ℕ))
  account i [] = returns []
  account i ((submitted, issued) ∷ counts) =
      let rest = account (suc i) counts in
      if submitted == issued
      then (do stats ← rest; returns ((i, submitted, issued) ∷ stats))
      else raises (not_issued i submitted issued)

module _ {E A : Type 0} where
  -- `launch` from the joins of the threads on: the results of the clients and the stats.
  unfoldable pub launch :
      List (Client E A)
      → List (ℕ × ℕ)
      → Outcome (FrontendError E) (List (Option A) × List (ℕ × ℕ × ℕ))
  launch clients counts = do
    _ ← check_errors clients
    stats ← account 0 counts
    returns (map result_of clients, stats)
