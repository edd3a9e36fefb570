-- ===== src/Timeline/Curves.antt =====
-- The curve of a client's latencies is their distribution.
use cuda_schedule_project.Prelude.{
  ℕ, suc, ◌+◌, ◌≤◌, ◌<◌, ◌≡◌, refl, sym, ap, subst, ◌∙◌, inl, inr, Bool, true, false, Bool-cases,
  List, [], ◌∷◌, ◌++◌, map, select, All, length, length-append, append_assoc, ltb, leb, arith,
}
use cuda_schedule_project.Prelude.Int.{pos, leb_ℤ, ◌≤ℤ◌}
use cuda_schedule_project.Analyze.Join.Calls.{range_from}
use cuda_schedule_project.Analyze.Pandas.{
  IsAscending, insert_row, stable_sort, stable_sort-IsAscending,
}
use cuda_schedule_project.Timeline.{points, curve}

-- The number of the elements with the property.
abbrev pub count : (ℕ → Bool) → List ℕ → ℕ
count p xs = length (select p xs)

module _ (p : ℕ → Bool) where
  count-cons :
      (x : ℕ) (xs ys : List ℕ) → count p xs ≡ count p ys → count p (x ∷ xs) ≡ count p (x ∷ ys)
  count-cons x xs ys h = elim (Bool-cases (p x)) [ inl e ↦ rw e (ap suc h) | inr e ↦ rw e h ]

  count-swap : (x y : ℕ) (xs : List ℕ) → count p (x ∷ y ∷ xs) ≡ count p (y ∷ x ∷ xs)
  count-swap x y xs = elim (Bool-cases (p x)) [
    | inl e ↦ elim (Bool-cases (p y)) [ inl f ↦ rw (e, f) refl | inr f ↦ rw (e, f) refl ]
    | inr e ↦ elim (Bool-cases (p y)) [ inl f ↦ rw (e, f) refl | inr f ↦ rw (e, f) refl ]
  ]

  count-insert_row :
      (x : ℕ) (xs : List ℕ) → count p (insert_row (λ t. pos t) x xs) ≡ count p (x ∷ xs)
  unfolding insert_row
  count-insert_row x [] = refl
  count-insert_row x (y ∷ ys) = elim (Bool-cases (leb_ℤ (pos x) (pos y))) [
    | inl e ↦ rw e refl
    | inr e ↦ rw e (
        count-cons y (insert_row (λ t. pos t) x ys) (x ∷ ys) (count-insert_row x ys)
        ∙ count-swap y x ys)
  ]

  count-stable_sort : (xs : List ℕ) → count p (stable_sort (λ t. pos t) xs) ≡ count p xs
  unfolding stable_sort
  count-stable_sort [] = refl
  count-stable_sort (x ∷ xs) =
      count-insert_row x (stable_sort (λ t. pos t) xs)
      ∙ count-cons x (stable_sort (λ t. pos t) xs) xs (count-stable_sort xs)

  count-append : (xs ys : List ℕ) → count p (xs ++ ys) ≡ count p xs + count p ys
  count-append [] ys = omega arith
  count-append (x ∷ xs) ys = elim (Bool-cases (p x)) [
    | inl e ↦ rw e (omega (arith, count-append xs ys))
    | inr e ↦ rw e (count-append xs ys)
  ]

  count-le : (xs : List ℕ) → count p xs ≤ length xs
  count-le [] = omega arith
  count-le (x ∷ xs) = ground (arith, count-le xs)

count-ltb : (x : ℕ) (xs : List ℕ) → All (λ y. x ≤ y) xs → count (λ y. ltb y x) xs ≡ 0
count-ltb x [] h = refl
count-ltb x (y ∷ ys) h = let e : ltb y x ≡ false = ground (arith, h.0) in rw e (count-ltb x ys h.1)

count-leb : (x : ℕ) (xs : List ℕ) → All (λ y. y ≤ x) xs → count (λ y. leb y x) xs ≡ length xs
count-leb x [] h = refl
count-leb x (y ∷ ys) h =
    let e : leb y x ≡ true = ground (arith, h.0) in rw e (ap suc (count-leb x ys h.1))

-- Fewer than `k` of the latencies are shorter than `x`, and at least `k` are no longer.
abbrev pub IsRank : List ℕ → ℕ × ℕ → Type 0
IsRank lat (x, k) = (count (λ y. ltb y x) lat < k) × (k ≤ count (λ y. leb y x) lat)

pub All-ge : (x : ℕ) (xs : List ℕ) → All (λ y. pos x ≤ℤ pos y) xs → All (λ y. x ≤ y) xs
All-ge x [] h = tt
All-ge x (y ∷ ys) h = (omega (arith, h.0), All-ge x ys h.1)

-- Each of `before` is at most each of the list.
abbrev IsBelow : List ℕ → List ℕ → Type 0
IsBelow before xs = All (λ (x : ℕ). All (λ y. y ≤ x) before) xs

All-snoc : (P : ℕ → Type 0) (xs : List ℕ) (x : ℕ) → All P xs → P x → All P (xs ++ x ∷ [])
All-snoc P [] x h k = (k, tt)
All-snoc P (y ∷ ys) x h k = (h.0, All-snoc P ys x h.1 k)

IsBelow-snoc :
    (before xs : List ℕ) (x : ℕ)
    → IsBelow before xs
    → All (λ y. x ≤ y) xs
    → IsBelow (before ++ x ∷ []) xs
IsBelow-snoc before [] x h k = tt
IsBelow-snoc before (y ∷ ys) x h k =
    (All-snoc (λ z. z ≤ y) before x h.0 k.0, IsBelow-snoc before ys x h.1 k.1)

rank_lt :
    (before : List ℕ) (x : ℕ) (xs : List ℕ)
    → All (λ y. x ≤ y) xs
    → count (λ y. ltb y x) (before ++ x ∷ xs) < suc (length before)
rank_lt before x xs above =
    let e = count-append (λ y. ltb y x) before (x ∷ xs) in
    let z = count-ltb x (x ∷ xs) (omega arith, above) in
    omega (arith, e, z, count-le (λ y. ltb y x) before)

rank_le :
    (before : List ℕ) (x : ℕ) (xs : List ℕ)
    → All (λ y. y ≤ x) before
    → suc (length before) ≤ count (λ y. leb y x) (before ++ x ∷ xs)
rank_le before x xs below =
    let e = count-append (λ y. leb y x) before (x ∷ xs) in
    let f : leb x x ≡ true = ground arith in
    let one : count (λ y. leb y x) (x ∷ xs) ≡ suc (count (λ y. leb y x) xs) = rw f refl in
    omega (arith, e, one, count-leb x before below)

points-IsRank :
    (before xs : List ℕ)
    → IsBelow before xs
    → IsAscending (λ t. pos t) xs
    → All (IsRank (before ++ xs)) (points (suc (length before)) xs)
unfolding points
points-IsRank before [] below sorted = tt
points-IsRank before (x ∷ xs) below sorted =
    let above = All-ge x xs sorted.0 in
    let rest =
      points-IsRank (before ++ x ∷ []) xs (IsBelow-snoc before xs x below.1 above) sorted.1 in
    let n : length (before ++ x ∷ []) ≡ suc (length before) =
      length-append before (x ∷ []) ∙ omega arith in
    let e : (before ++ x ∷ []) ++ xs ≡ before ++ x ∷ xs = append_assoc before (x ∷ []) xs in
    (
      (rank_lt before x xs above, rank_le before x xs below.0),
      subst (λ l. All (IsRank l) (points (suc (suc (length before))) xs)) e
          (subst (λ k. All (IsRank ((before ++ x ∷ []) ++ xs)) (points (suc k) xs)) n rest),
    )

points-numbers :
    (k : ℕ) (xs : List ℕ)
    → (map (λ (p : ℕ × ℕ). p.0) (points k xs) ≡ xs)
      × (map (λ (p : ℕ × ℕ). p.1) (points k xs) ≡ range_from k (length xs))
unfolding points
points-numbers k [] = (refl, refl)
points-numbers k (x ∷ xs) =
    let (e, f) = points-numbers (suc k) xs in (ap (λ l. x ∷ l) e, ap (λ l. k ∷ l) f)

IsRank-sorted :
    (lat : List ℕ) (ps : List (ℕ × ℕ))
    → All (IsRank (stable_sort (λ t. pos t) lat)) ps
    → All (IsRank lat) ps
IsRank-sorted lat [] h = tt
IsRank-sorted lat ((x, k) ∷ ps) h =
    let (lo, hi) = h.0 in
    (
      (
        omega (arith, lo, count-stable_sort (λ y. ltb y x) lat),
        omega (arith, hi, count-stable_sort (λ y. leb y x) lat),
      ),
      IsRank-sorted lat ps h.1,
    )

count-true : (xs : List ℕ) → count (λ y. true) xs ≡ length xs
count-true [] = refl
count-true (x ∷ xs) = ap suc (count-true xs)

pub length-sorted : (lat : List ℕ) → length (stable_sort (λ t. pos t) lat) ≡ length lat
length-sorted lat =
    sym (count-true (stable_sort (λ t. pos t) lat))
    ∙ count-stable_sort (λ y. true) lat
    ∙ count-true lat

nil-IsBelow : (xs : List ℕ) → IsBelow [] xs
nil-IsBelow [] = tt
nil-IsBelow (x ∷ xs) = (tt, nil-IsBelow xs)

-- A curve has the latencies in order, numbered from 1 on, and each number is one that its latency has
-- in the distribution: fewer than that many latencies are shorter, and at least as many are no longer.
-- The curve's height, the share of the number in all, thus ends at 1.
pub curve-IsRank :
    (lat : List ℕ)
    → (map (λ (p : ℕ × ℕ). p.0) (curve lat) ≡ stable_sort (λ t. pos t) lat)
      × (map (λ (p : ℕ × ℕ). p.1) (curve lat) ≡ range_from 1 (length lat))
      × All (IsRank lat) (curve lat)
unfolding curve
curve-IsRank lat =
    let sorted = stable_sort (λ t. pos t) lat in
    let (e, f) = points-numbers 1 sorted in
    let n : length sorted ≡ length lat = length-sorted lat in
    (
      e,
      subst (λ k. map (λ (p : ℕ × ℕ). p.1) (points 1 sorted) ≡ range_from 1 k) n f,
      IsRank-sorted lat (points 1 sorted)
          (points-IsRank [] sorted (nil-IsBelow sorted) (stable_sort-IsAscending (λ t. pos t) lat)),
    )
