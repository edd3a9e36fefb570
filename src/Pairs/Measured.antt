-- ===== src/Pairs/Measured.antt =====
-- The iterations of names that the baseline has measured.
use cuda_schedule_project.Prelude.{
  ℕ, ◌≤◌, ◌<◌, ◌≡◌, refl, inl, inr, Bool-cases, some, List, [], ◌∷◌, map, All, All-append, arith,
  lt→ltb,
}
use Prim.Native.Nat.{min, max}
use cuda_schedule_project.Prelude.Outcome.{Outcome, returns}
use cuda_schedule_project.Prelude.Text.{same_text, same_text_refl}
use cuda_schedule_project.Prelude.Dict.{Text, Dict, get}
use cuda_schedule_project.Workload.{round_div}
use cuda_schedule_project.Pairs.{PairsError, iterations, combinations}
use cuda_schedule_project.Pairs.Main.{twice_median, iters_of}

-- Each name has latencies in the baseline, the median of which is not 0.
abbrev pub IsMeasured : Dict (List ℕ) → List Text → Type 0
IsMeasured solo names =
    All
      (λ (n : Text).
        (lat : List ℕ) × (twice : ℕ) × (get n solo ≡ some lat)
        × (twice_median lat ≡ some twice)
        × (0 < twice))
      names

-- The iterations of a name.
abbrev pub HasIters : Dict ℕ → Text → Type 0
HasIters iters n = (k : ℕ) × (get n iters ≡ some k) × (3 ≤ k) × (k ≤ 5000)

iterations-bounds :
    (twice : ℕ) → 0 < twice → (k : ℕ) × (iterations twice ≡ some k) × (3 ≤ k) × (k ≤ 5000)
unfolding iterations
iterations-bounds twice h =
    let e = lt→ltb 0 twice h in
    let k = max 3 (min 5000 (round_div 1_000_000_000 twice)) in
    (k, rw e refl, ground arith, ground arith)

put_front-HasIters :
    (iters : Dict ℕ) (n m : Text) (k : ℕ)
    → 3 ≤ k
    → k ≤ 5000
    → HasIters iters m
    → HasIters ((n, k) ∷ iters) m
unfolding get
put_front-HasIters iters n m k lo hi h = elim (Bool-cases (same_text n m)) [
  | inl e ↦ (k, rw e refl, lo, hi)
  | inr e ↦ (h.0, rw e h.1, h.2, h.3)
]

All-HasIters :
    (iters : Dict ℕ) (n : Text) (k : ℕ) (names : List Text)
    → 3 ≤ k
    → k ≤ 5000
    → All (HasIters iters) names
    → All (HasIters ((n, k) ∷ iters)) names
All-HasIters iters n k [] lo hi h = tt
All-HasIters iters n k (m ∷ names) lo hi h =
    (put_front-HasIters iters n m k lo hi h.0, All-HasIters iters n k names lo hi h.1)

here-HasIters : (iters : Dict ℕ) (n : Text) (k : ℕ) → 3 ≤ k → k ≤ 5000 → HasIters ((n, k) ∷ iters) n
unfolding get
here-HasIters iters n k lo hi = (k, rw (same_text_refl n) refl, lo, hi)

pub iters_of-returns :
    (solo : Dict (List ℕ)) (names : List Text)
    → IsMeasured solo names
    → (iters : Dict ℕ) × Path (Outcome PairsError (Dict ℕ)) (iters_of names solo) (returns iters)
      × All (HasIters iters) names
unfolding iters_of
iters_of-returns solo [] h = ([], refl, tt)
iters_of-returns solo (n ∷ names) ((lat, twice, e, m, p), h) =
    let (k, c, lo, hi) = iterations-bounds twice p in
    let (iters, r, all) = iters_of-returns solo names h in
    (
      (n, k) ∷ iters,
      rw (e, m, c, r) refl,
      (here-HasIters iters n k lo hi, All-HasIters iters n k names lo hi all),
    )

-- Both names of each pair of the names have what each name has.
module _ (P : Text → Type 0) where
  All-paired :
      (a : Text) (names : List Text)
      → P a
      → All P names
      → All (λ (p : Text × Text). P p.0 × P p.1) (map (λ b. (a, b)) names)
  All-paired a [] h k = tt
  All-paired a (b ∷ names) h k = ((h, k.0), All-paired a names h k.1)

  pub All-combinations :
      (names : List Text)
      → All P names
      → All (λ (p : Text × Text). P p.0 × P p.1) (combinations names)
  unfolding combinations
  All-combinations [] h = tt
  All-combinations (a ∷ names) h = (
    (h.0, h.0),
    All-append (λ (p : Text × Text). P p.0 × P p.1) (map (λ b. (a, b)) names) (combinations names)
        (All-paired a names h.0 h.1) (All-combinations names h.1),
  )
