-- ===== src/Analyze/Pandas.antt =====
-- What the analysis relies on of pandas, which is no part of the program: `sort_values`, whose order
-- of rows with equal keys pandas leaves open.
use mathlib.Core.List.{Perm}
use mathlib.Core.List.Perm
use cuda_schedule_project.Prelude.{inl, inr, List, [], ◌∷◌, All, arith, Bool-cases, if◌then◌else◌}
use cuda_schedule_project.Prelude.Int.{ℤ, ◌≤ℤ◌, leb_ℤ}

-- Each key is at most every later one.
abbrev pub IsAscending {ℓ} : {A : Type ℓ} → (A → ℤ) → List A → Type 0
IsAscending key [] = Unit
IsAscending key (x ∷ xs) = All (λ y. key x ≤ℤ key y) xs × IsAscending key xs

-- `df.sort_values(column)`, with the column's value in a row as the key.
pub record Sorting : Type 1 where
  pub sort_values : (A : Type 0) → (A → ℤ) → List A → List A
  pub sort_values-perm : (A : Type 0) (key : A → ℤ) (xs : List A) → Perm (sort_values A key xs) xs
  pub sort_values-IsAscending :
      (A : Type 0) (key : A → ℤ) (xs : List A) → IsAscending key (sort_values A key xs)

-- A stable sort is one.
module _ {A : Type 0} (key : A → ℤ) where
  unfoldable pub insert_row : A → List A → List A
  insert_row x [] = x ∷ []
  insert_row x (y ∷ ys) = if leb_ℤ (key x) (key y) then x ∷ y ∷ ys else y ∷ insert_row x ys

  unfoldable pub stable_sort : List A → List A
  unfolding insert_row
  stable_sort [] = []
  stable_sort (x ∷ xs) = insert_row x (stable_sort xs)

  insert_row-perm : (x : A) (xs : List A) → Perm (insert_row x xs) (x ∷ xs)
  unfolding insert_row
  insert_row-perm x [] = Perm.rfl
  insert_row-perm x (y ∷ ys) = elim (Bool-cases (leb_ℤ (key x) (key y))) [
    | inl e ↦ rw e Perm.rfl
    | inr e ↦ rw e (Perm.trans (Perm.cons y (insert_row-perm x ys)) (Perm.swap x y ys))
  ]

  pub stable_sort-perm : (xs : List A) → Perm (stable_sort xs) xs
  unfolding stable_sort
  stable_sort-perm [] = Perm.rfl
  stable_sort-perm (x ∷ xs) =
      Perm.trans (insert_row-perm x (stable_sort xs)) (Perm.cons x (stable_sort-perm xs))

  All-insert_row : (P : A → Type 0) (x : A) (xs : List A) → P x → All P xs → All P (insert_row x xs)
  unfolding insert_row
  All-insert_row P x [] h k = (h, tt)
  All-insert_row P x (y ∷ ys) h k = elim (Bool-cases (leb_ℤ (key x) (key y))) [
    | inl e ↦ rw e (h, k)
    | inr e ↦ rw e (k.0, All-insert_row P x ys h k.1)
  ]

  pub All-stable_sort : (P : A → Type 0) (xs : List A) → All P xs → All P (stable_sort xs)
  unfolding stable_sort
  All-stable_sort P [] h = tt
  All-stable_sort P (x ∷ xs) h = All-insert_row P x (stable_sort xs) h.0 (All-stable_sort P xs h.1)

  All-le : (a b : ℤ) (xs : List A) → a ≤ℤ b → All (λ y. b ≤ℤ key y) xs → All (λ y. a ≤ℤ key y) xs
  All-le a b [] h k = tt
  All-le a b (x ∷ xs) h k = (omega arith, All-le a b xs h k.1)

  insert_row-IsAscending :
      (x : A) (xs : List A) → IsAscending key xs → IsAscending key (insert_row x xs)
  unfolding insert_row
  insert_row-IsAscending x [] h = (tt, tt)
  insert_row-IsAscending x (y ∷ ys) h = elim (Bool-cases (leb_ℤ (key x) (key y))) [
    | inl e ↦
        let below : key x ≤ℤ key y = ground arith in
        rw e ((below, All-le (key x) (key y) ys below h.0), h)
    | inr e ↦
        let below : key y ≤ℤ key x = ground arith in
        rw e (All-insert_row (λ z. key y ≤ℤ key z) x ys below h.0, insert_row-IsAscending x ys h.1)
  ]

  pub stable_sort-IsAscending : (xs : List A) → IsAscending key (stable_sort xs)
  unfolding stable_sort
  stable_sort-IsAscending [] = tt
  stable_sort-IsAscending (x ∷ xs) =
      insert_row-IsAscending x (stable_sort xs) (stable_sort-IsAscending xs)

abbrev pub stable_sorting : Sorting
stable_sorting = record {
  sort_values = λ A key xs. stable_sort key xs;
  sort_values-perm = λ A key xs. stable_sort-perm key xs;
  sort_values-IsAscending = λ A key xs. stable_sort-IsAscending key xs;
}
