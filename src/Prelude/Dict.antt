-- ===== src/Prelude/Dict.antt =====
-- Python's dictionaries with texts as keys: the entries in the order of their insertion.
use mathlib.Core.Path.{◌≡◌, refl}
use mathlib.Core.Logic.{inl, inr}
use mathlib.Core.Bool.{false}
use mathlib.Core.Option.{Option, none, some}
use mathlib.Core.List.{List, [], ◌∷◌}
use Prim.Native.Nat.{ℕ}
use cuda_schedule_project.Prelude.Tests.{Bool-cases, if◌then◌else◌}
use cuda_schedule_project.Prelude.Text.{same_text, same_text_refl, same_text→≡}

abbrev pub Text : Type 0
Text = List ℕ

abbrev pub Dict {ℓ} : Type ℓ → Type ℓ
Dict V = List (Text × V)

module _ {ℓ} {V : Type ℓ} where
  -- `d.get(key)`
  unfoldable pub get : Text → Dict V → Option V
  get key [] = none
  get key ((k, v) ∷ d) = if same_text k key then some v else get key d

  -- `d[key] = value`
  unfoldable pub put : Text → V → Dict V → Dict V
  put key value [] = (key, value) ∷ []
  put key value ((k, v) ∷ d) =
      let rest = put key value d in if same_text k key then (k, value) ∷ d else (k, v) ∷ rest

  pub get-put : (key : Text) (value : V) (d : Dict V) → get key (put key value d) ≡ some value
  unfolding get put
  get-put key value [] = rw (same_text_refl key) refl
  get-put key value ((k, v) ∷ d) = elim (Bool-cases (same_text k key)) [
    | inl e ↦ rw (e, e) refl
    | inr e ↦ rw (e, e) (get-put key value d)
  ]

  pub get-put_other :
      (key other : Text) (value : V) (d : Dict V)
      → same_text key other ≡ false
      → get other (put key value d) ≡ get other d
  unfolding get put
  get-put_other key other value [] h = rw h refl
  get-put_other key other value ((k, v) ∷ d) h = elim (Bool-cases (same_text k key)) [
    | inl e ↦
        let same : k ≡ key = same_text→≡ k key e in
        let differs : same_text k other ≡ false = rw same h in rw (e, differs) refl
    | inr e ↦ elim (Bool-cases (same_text k other)) [
      | inl t ↦ rw (e, t) refl
      | inr t ↦ rw (e, t) (get-put_other key other value d h)
    ]
  ]
