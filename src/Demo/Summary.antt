-- ===== src/Demo/Summary.antt =====
-- The percentiles of the summary.
use cuda_schedule_project.Prelude.{
  ℕ, zero, suc, ◌-◌, ◌*◌, ◌/◌, ◌<◌, ◌≤◌, ◌≡◌, refl, some, List, [], ◌∷◌, All, length, get_elem?,
  arith,
}
use Prim.Native.Nat.{min}
use cuda_schedule_project.Prelude.Outcome.{Outcome, returns}
use cuda_schedule_project.Demo.{DemoError, percentiles}

-- Each latency is at most those behind it.
abbrev pub IsSorted : List ℕ → Type 0
IsSorted [] = Unit
IsSorted (x ∷ xs) = All (λ y. x ≤ y) xs × IsSorted xs

All-get_elem? :
    (P : ℕ → Type 0) (xs : List ℕ) (i : ℕ)
    → i < length xs
    → All P xs
    → (x : ℕ) × (get_elem? xs i ≡ some x) × P x
All-get_elem? P [] i h all = absurd (omega (arith, h))
All-get_elem? P (x ∷ xs) zero h all = (x, refl, all.0)
All-get_elem? P (x ∷ xs) (suc i) h all = All-get_elem? P xs i (omega (arith, h)) all.1

get_elem?-IsSorted :
    (xs : List ℕ) (i j : ℕ)
    → i ≤ j
    → j < length xs
    → IsSorted xs
    → (a b : ℕ) × (get_elem? xs i ≡ some a) × (get_elem? xs j ≡ some b) × (a ≤ b)
get_elem?-IsSorted [] i j h l s = absurd (omega (arith, l))
get_elem?-IsSorted (x ∷ xs) zero zero h l s = (x, x, refl, refl, omega arith)
get_elem?-IsSorted (x ∷ xs) zero (suc j) h l s =
    let (b, e, le) = All-get_elem? (λ y. x ≤ y) xs j (omega (arith, l)) s.0 in (x, b, refl, e, le)
get_elem?-IsSorted (x ∷ xs) (suc i) zero h l s = absurd (omega (arith, h))
get_elem?-IsSorted (x ∷ xs) (suc i) (suc j) h l s =
    get_elem?-IsSorted xs i j (omega (arith, h)) (omega (arith, l)) s.1

places_le : (n : ℕ) → 0 < n → n / 2 ≤ min (n - 1) (n * 95 / 100)
places_le n h = ground arith

place_lt : (n m : ℕ) → 0 < n → min (n - 1) m < n
place_lt n m h = ground arith

module _ {E : Type 0} where
  -- Of sorted latencies, one or more, both percentiles are found, and the 50th is at most the 95th.
  pub percentiles_le :
      (lat : List ℕ)
      → 0 < length lat
      → IsSorted lat
      → (p50 p95 : ℕ) × Path (Outcome (DemoError E) (ℕ × ℕ)) (percentiles lat) (returns (p50, p95))
        × (p50 ≤ p95)
  unfolding percentiles
  percentiles_le lat h s =
      let n = length lat in
      let (a, b, e, e', le) =
        get_elem?-IsSorted lat (n / 2) (min (n - 1) (n * 95 / 100)) (places_le n h)
          (place_lt n (n * 95 / 100) h) s in
      (a, b, rw (e, e') refl, le)
