-- ===== src/Frontend/Barrier/Tally.antt =====
-- The threads counted by where they are.
use cuda_schedule_project.Prelude.{
  ℕ, zero, suc, ◌+◌, ◌≡◌, refl, List, [], ◌∷◌, ◌++◌, replicate, arith,
}
use cuda_schedule_project.Frontend.Barrier.{Client, starting, running, refused, ended, tally}

module _ {E A : Type 0} where
  abbrev pub is_starting : Client E A → ℕ
  is_starting starting = 1
  is_starting _ = 0

  abbrev pub is_running : Client E A → ℕ
  is_running running = 1
  is_running _ = 0

  abbrev pub is_refused : Client E A → ℕ
  is_refused (refused o) = 1
  is_refused _ = 0

  abbrev pub is_ended : Client E A → ℕ
  is_ended (ended o) = 1
  is_ended _ = 0

  pub tally-append :
      (f : Client E A → ℕ) (ls rs : List (Client E A)) (c : Client E A)
      → tally f (ls ++ c ∷ rs) ≡ (tally f ls + tally f rs) + f c
  tally-append f [] rs c = omega arith
  tally-append f (l ∷ ls) rs c = omega (arith, tally-append f ls rs c)

  pub tally-replicate_zero :
      (f : Client E A → ℕ) (n : ℕ) (c : Client E A) → f c ≡ 0 → tally f (replicate n c) ≡ 0
  tally-replicate_zero f zero c e = refl
  tally-replicate_zero f (suc n) c e = omega (arith, e, tally-replicate_zero f n c e)

  pub tally-replicate_one :
      (f : Client E A → ℕ) (n : ℕ) (c : Client E A) → f c ≡ 1 → tally f (replicate n c) ≡ n
  tally-replicate_one f zero c e = refl
  tally-replicate_one f (suc n) c e = omega (arith, e, tally-replicate_one f n c e)
