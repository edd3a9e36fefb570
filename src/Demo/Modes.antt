-- ===== src/Demo/Modes.antt =====
-- What `make_clients` and `run_colocated` return.
use cuda_schedule_project.Prelude.{
  ℕ, zero, suc, ◌≤◌, ◌≡◌, refl, ap, ◌⊎◌, inl, inr, Option, none, some, List, [], ◌∷◌, map, All,
  length, replicate, arith,
}
use cuda_schedule_project.Prelude.Dict.{Text, Dict, get}
use cuda_schedule_project.Prelude.Outcome.{Outcome, returns}
use cuda_schedule_project.Demo.{DemoError, spread, client_iters, zip_clients, make_clients}

-- No parts, one part, or a part for each of the clients.
abbrev pub IsEnough : ℕ → Option (List ℕ) → Type 0
IsEnough n none = Unit
IsEnough n (some parts) = (length parts ≡ 1) ⊎ (n ≤ length parts)

length-replicate : (n : ℕ) (o : Option ℕ) → length (replicate n o) ≡ n
length-replicate zero o = refl
length-replicate (suc n) o = ap suc (length-replicate n o)

module _ {E : Type 0} where
  spread-returns :
      (n : ℕ) (parts : List ℕ)
      → n ≤ length parts
      → (iters : List (Option ℕ)) × Path
          (Outcome (DemoError E) (List (Option ℕ)))
          (spread n parts)
          (returns iters)
        × (length iters ≡ n)
  unfolding spread
  spread-returns zero parts h = ([], refl, refl)
  spread-returns (suc n) [] h = absurd (omega (arith, h))
  spread-returns (suc n) (p ∷ parts) h =
      let (iters, e, l) = spread-returns n parts (omega (arith, h)) in
      (some p ∷ iters, rw e refl, ap suc l)

  -- With no `--iters`, one number, or at least as many numbers as clients, each of the `n` clients
  -- gets its iterations.
  pub client_iters-returns :
      (n : ℕ) (parts : Option (List ℕ))
      → IsEnough n parts
      → (iters : List (Option ℕ)) × Path
          (Outcome (DemoError E) (List (Option ℕ)))
          (client_iters n parts)
          (returns iters)
        × (length iters ≡ n)
  unfolding client_iters
  client_iters-returns n none h = (replicate n none, refl, length-replicate n none)
  client_iters-returns n (some []) (inl h) = absurd (omega (arith, h))
  client_iters-returns n (some []) (inr h) = spread-returns n [] h
  client_iters-returns n (some (p ∷ [])) h =
      (replicate n (some p), refl, length-replicate n (some p))
  client_iters-returns n (some (p ∷ q ∷ parts)) (inl h) = absurd (omega (arith, h))
  client_iters-returns n (some (p ∷ q ∷ parts)) (inr h) = spread-returns n (p ∷ q ∷ parts) h

module _ {E W : Type 0} where
  zip_clients-returns :
      (registry : Dict W) (names : List Text) (iters : List (Option ℕ))
      → length iters ≡ length names
      → All (λ (n : Text). (class : W) × (get n registry ≡ some class)) names
      → (clients : List (W × Option ℕ)) × Path
          (Outcome (DemoError E) (List (W × Option ℕ)))
          (zip_clients registry names iters)
          (returns clients)
        × (map (λ (c : W × Option ℕ). some c.0) clients ≡ map (λ n. get n registry) names)
  unfolding zip_clients
  zip_clients-returns registry [] iters l h = ([], refl, refl)
  zip_clients-returns registry (n ∷ names) [] l h = absurd (omega (arith, l))
  zip_clients-returns registry (n ∷ names) (it ∷ iters) l ((class, e), h) =
      let (clients, e', same) = zip_clients-returns registry names iters (omega (arith, l)) h in
      ((class, it) ∷ clients, rw (e, e') refl, rw (e, same) refl)

  -- If each name is that of a registered workload, and the iterations are not given, one number, or at
  -- least as many numbers as names, then `make_clients` returns a client for each name, in order, of
  -- the class that is registered under it.
  pub make_clients-returns :
      (registry : Dict W) (names : List Text) (parts : Option (List ℕ))
      → IsEnough (length names) parts
      → All (λ (n : Text). (class : W) × (get n registry ≡ some class)) names
      → (clients : List (W × Option ℕ)) × Path
          (Outcome (DemoError E) (List (W × Option ℕ)))
          (make_clients registry names parts)
          (returns clients)
        × (map (λ (c : W × Option ℕ). some c.0) clients ≡ map (λ n. get n registry) names)
  unfolding make_clients
  make_clients-returns registry names parts enough h =
      let (iters, e, l) = client_iters-returns {E = E} (length names) parts enough in
      let (clients, e', same) = zip_clients-returns registry names iters l h in
      (clients, rw (e, e') refl, same)
