-- ===== src/Prelude/Outcome.antt =====
-- What a Python call does: it returns a value or raises an error.

use mathlib.Core.Path.{refl}
use mathlib.Core.Logic.{◌⊎◌, inl, inr}

pub data Outcome {ℓ} (E : Type 0) (A : Type ℓ) : Type ℓ where
  raises : E → Outcome E A
  returns : A → Outcome E A

infixl 5 ◌>>=◌
abbrev pub ◌>>=◌ {ℓ κ} :
    {E : Type 0} {A : Type ℓ} {B : Type κ} → Outcome E A → (A → Outcome E B) → Outcome E B
raises e >>= next = raises e
returns a >>= next = next a

pub bind-returns {ℓ κ} :
    {E : Type 0} {A : Type ℓ} {B : Type κ} (m : Outcome E A) (f : A → Outcome E B) (b : B)
    → Path (Outcome E B) (m >>= f) (returns b)
    → (a : A) × Path (Outcome E A) m (returns a) × Path (Outcome E B) (f a) (returns b)
bind-returns (raises e) f b h = cc
bind-returns (returns a) f b h = (a, refl, h)

pub Outcome-cases {ℓ} :
    {E : Type 0} {A : Type ℓ} (m : Outcome E A)
    → ((e : E) × Path (Outcome E A) m (raises e)) ⊎ ((a : A) × Path (Outcome E A) m (returns a))
Outcome-cases (raises e) = inl (e, refl)
Outcome-cases (returns a) = inr (a, refl)
