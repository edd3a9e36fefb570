-- ===== src/Prelude/Text.antt =====
-- Texts as their code points, and the tests that the program makes on them.
use Prim.Native.Char.{code}
use Prim.Native.String.{String}
use Prim.Native.Nat.{ℕ, ◌+◌}
use mathlib.Core.Bool.{Bool, true, false, ◌&&◌, ◌||◌}
use mathlib.Core.List.{List, [], ◌∷◌, ◌++◌, map}
use mathlib.Core.Path.{◌≡◌, refl, ap₂, subst}
use mathlib.Core.Logic.{inl, inr}
use native.Mathlib.Omega.{arith}
use cuda_schedule_project.Prelude.Tests.{Bool-cases, leb, ◌==◌, if◌then◌else◌}

-- The code points of a text. `String` has its own `[]` and `∷`.
abbrev pub codes : String → List ℕ
codes String.[] = []
codes (String.◌∷◌ c s) = code c ∷ codes s

-- `text.startswith(prefix)`
unfoldable pub begins : List ℕ → List ℕ → Bool
begins [] text = true
begins (p ∷ prefix) [] = false
begins (p ∷ prefix) (c ∷ text) = p == c && begins prefix text

-- `tag in text`
unfoldable pub contains : List ℕ → List ℕ → Bool
unfolding begins
contains tag [] = begins tag []
contains tag (c ∷ text) = begins tag (c ∷ text) || contains tag text

-- `text.lower()`, on ASCII.
unfoldable pub lower : List ℕ → List ℕ
lower = map (λ c. if leb b'A' c && leb c b'Z' then c + 32 else c)

-- `text == other`
abbrev pub same_text : List ℕ → List ℕ → Bool
same_text [] [] = true
same_text [] (d ∷ ds) = false
same_text (c ∷ cs) [] = false
same_text (c ∷ cs) (d ∷ ds) = c == d && same_text cs ds

pub same_text_refl : (cs : List ℕ) → same_text cs cs ≡ true
same_text_refl [] = refl
same_text_refl (c ∷ cs) = let e : (c == c) ≡ true = ground arith in rw (e, same_text_refl cs) refl

pub same_text→≡ : (cs ds : List ℕ) → same_text cs ds ≡ true → cs ≡ ds
same_text→≡ [] [] h = refl
same_text→≡ [] (d ∷ ds) h = cc
same_text→≡ (c ∷ cs) [] h = cc
same_text→≡ (c ∷ cs) (d ∷ ds) h = elim (Bool-cases (c == d)) [
  | inl e ↦
      let p : c ≡ d = ground arith in
      ap₂ ◌∷◌ p (same_text→≡ cs ds (subst (λ b. b && same_text cs ds ≡ true) e h))
  | inr e ↦ let f : false ≡ true = subst (λ b. b && same_text cs ds ≡ true) e h in cc
]

pub begins-append : (prefix rest : List ℕ) → begins prefix (prefix ++ rest) ≡ true
unfolding begins
begins-append [] rest = refl
begins-append (p ∷ prefix) rest =
    let e : (p == p) ≡ true = ground arith in rw (e, begins-append prefix rest) refl

contains-begins : (tag text : List ℕ) → begins tag text ≡ true → contains tag text ≡ true
unfolding contains
contains-begins tag [] h = h
contains-begins tag (c ∷ text) h = rw h refl

pub contains-append : (tag rest : List ℕ) → contains tag (tag ++ rest) ≡ true
contains-append tag rest = contains-begins tag (tag ++ rest) (begins-append tag rest)
