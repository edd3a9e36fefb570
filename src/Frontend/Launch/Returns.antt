-- ===== src/Frontend/Launch/Returns.antt =====
-- When `launch` returns, and what it raises.
use cuda_schedule_project.Prelude.{
  ℕ, suc, ◌≡◌, refl, ap, ◌∙◌, ◌↔◌, true, inl, inr, Bool-cases, Option, some, List, [], ◌∷◌, ◌++◌,
  map, All, ◌==◌, arith,
}
use cuda_schedule_project.Prelude.Outcome.{Outcome, raises, returns, bind-returns}
use cuda_schedule_project.Frontend.Barrier.{Client, starting, waiting, running, refused, ended}
use cuda_schedule_project.Frontend.Launch.{
  FrontendError, client_error, not_issued, result_of, error_of, check_errors, account, launch,
}

abbrev pub numbered : ℕ → List (ℕ × ℕ) → List (ℕ × ℕ × ℕ)
numbered i [] = []
numbered i ((submitted, issued) ∷ counts) = (i, submitted, issued) ∷ numbered (suc i) counts

module _ {E A : Type 0} where
  -- A thread that `join` has waited for.
  abbrev pub HasFinished : Client E A → Type 0
  HasFinished (refused e) = Unit
  HasFinished (ended o) = Unit
  HasFinished _ = ⊥

  -- The threads of clients whose functions returned these results.
  abbrev pub all_returned : List A → List (Client E A)
  all_returned = map (λ r. ended (returns r))

  check_errors-all_returned : (rs : List A) → check_errors (all_returned rs) ≡ returns tt
  unfolding check_errors
  check_errors-all_returned [] = refl
  check_errors-all_returned (r ∷ rs) = check_errors-all_returned rs

  check_errors-raises :
      (rs : List A) (c : Client E A) (later : List (Client E A)) (e : Option E)
      → error_of c ≡ some e
      → check_errors (all_returned rs ++ c ∷ later) ≡ raises (client_error e)
  unfolding check_errors
  check_errors-raises [] c later e h = rw h refl
  check_errors-raises (r ∷ rs) c later e h = check_errors-raises rs c later e h

  check_errors-returns :
      (cs : List (Client E A))
      → All HasFinished cs
      → check_errors cs ≡ returns tt
      → (rs : List A) × (cs ≡ all_returned rs)
  unfolding check_errors
  check_errors-returns [] h e = ([], refl)
  check_errors-returns (starting ∷ cs) h e = absurd (h.0)
  check_errors-returns (waiting ∷ cs) h e = absurd (h.0)
  check_errors-returns (running ∷ cs) h e = absurd (h.0)
  check_errors-returns (refused x ∷ cs) h e = cc
  check_errors-returns (ended (raises x) ∷ cs) h e = cc
  check_errors-returns (ended (returns r) ∷ cs) h e =
      let (rs, same) = check_errors-returns cs h.1 e in (r ∷ rs, ap (◌∷◌ (ended (returns r))) same)

results-all_returned :
    (E : Type 0) {A : Type 0} (rs : List A)
    → map (result_of {E = E} {A = A}) (all_returned rs) ≡ map some rs
results-all_returned E [] = refl
results-all_returned E (r ∷ rs) = ap (◌∷◌ (some r)) (results-all_returned E rs)

module _ {E : Type 0} where
  account-equal :
      (i : ℕ) (counts : List (ℕ × ℕ))
      → All (λ (c : ℕ × ℕ). c.0 ≡ c.1) counts
      → Path
          (Outcome (FrontendError E) (List (ℕ × ℕ × ℕ)))
          (account i counts)
          (returns (numbered i counts))
  unfolding account
  account-equal i [] h = refl
  account-equal i ((s, n) ∷ counts) h =
      let e : (s == n) ≡ true = ground arith in rw (e, account-equal (suc i) counts h.1) refl

  account-returns :
      (i : ℕ) (counts : List (ℕ × ℕ)) (stats : List (ℕ × ℕ × ℕ))
      → Path (Outcome (FrontendError E) (List (ℕ × ℕ × ℕ))) (account i counts) (returns stats)
      → All (λ (c : ℕ × ℕ). c.0 ≡ c.1) counts
  unfolding account
  account-returns i [] stats h = tt
  account-returns i ((s, n) ∷ counts) stats h = elim (Bool-cases (s == n)) [
    | inl e ↦
        let same : s ≡ n = ground arith in
        let (rest, e', _) = bind-returns (account (suc i) counts) _ stats (rw e at h) in
        (same, account-returns (suc i) counts rest e')
    | inr e ↦
        let f : Path (Outcome (FrontendError E) (List (ℕ × ℕ × ℕ))) (raises (not_issued i s n))
            (returns stats) =
          rw e at h in
        cc
  ]

module _ {E A : Type 0} where
  -- When the threads have finished, `launch` returns just if every client's function returned and
  -- each client's submitted operations were all issued. It returns what the functions returned, in
  -- the order of the clients, and the numbers of operations of each client.
  pub launch-returns :
      (clients : List (Client E A)) (counts : List (ℕ × ℕ)) (out : List (Option A))
      (stats : List (ℕ × ℕ × ℕ))
      → All HasFinished clients
      → (launch clients counts ≡ returns (out, stats)) ↔ (
          (rs : List A) × (clients ≡ all_returned rs)
          × (out ≡ map some rs)
          × (stats ≡ numbered 0 counts)
          × All (λ (c : ℕ × ℕ). c.0 ≡ c.1) counts)
  unfolding launch
  launch-returns clients counts out stats finished = (
    λ h.
        let (u, e1, h1) = bind-returns (check_errors clients) _ (out, stats) h in
        let (stats', e2, h2) = bind-returns (account 0 counts) _ (out, stats) h1 in
        let (rs, same) = check_errors-returns clients finished e1 in
        let equal = account-returns 0 counts stats' e2 in
        let numbers = account-equal {E = E} 0 counts equal in
        let outs : out ≡ map result_of clients = cc in
        let seen : stats' ≡ numbered 0 counts = cc in
        let kept : stats ≡ stats' = cc in
        (rs, same, outs ∙ ap (map result_of) same ∙ results-all_returned E rs, kept ∙ seen, equal),
    λ (rs, same, outs, numbers, equal).
        rw
          (
            same,
            check_errors-all_returned {E = E} rs,
            account-equal {E = E} 0 counts equal,
            results-all_returned E rs,
            outs,
            numbers,
          )
          refl,
  )

  -- `launch` raises the exception of the first client, by its number, that has one, whatever the
  -- later clients and the accounting are.
  pub launch-raises :
      (rs : List A) (c : Client E A) (later : List (Client E A)) (counts : List (ℕ × ℕ))
      (e : Option E)
      → error_of c ≡ some e
      → launch (all_returned rs ++ c ∷ later) counts ≡ raises (client_error e)
  unfolding launch
  launch-raises rs c later counts e h = rw (check_errors-raises rs c later e h) refl
