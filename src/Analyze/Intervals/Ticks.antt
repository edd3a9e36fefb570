-- ===== src/Analyze/Intervals/Ticks.antt =====
-- Counting the nanoseconds of a window that pass a test.
use mathlib.Core.Path.{fun_ext}
use cuda_schedule_project.Prelude.{
  ℕ, zero, suc, ◌+◌, ◌≤◌, ◌≡◌, ap, Bool, false, arith, if◌then◌else◌,
}
use cuda_schedule_project.Prelude.Int.{ℤ, pos, ◌+ℤ◌, ◌-ℤ◌, ◌≤ℤ◌, +ℤ_parts, -ℤ_parts, int_laws}
use cuda_schedule_project.Analyze.Intervals.{Span, inside}

abbrev pub bit : Bool → ℕ
bit b = if b then 1 else 0

-- The number of `t` with `lo ≤ t < lo + n` that pass the test.
pub ticks : (ℤ → Bool) → ℤ → ℕ → ℕ
ticks p lo zero = 0
ticks p lo (suc n) = bit (p lo) + ticks p (lo +ℤ pos 1) n

module _ (p q : ℤ → Bool) where
  pub ticks-ext : (lo : ℤ) (n : ℕ) → ((t : ℤ) → p t ≡ q t) → ticks p lo n ≡ ticks q lo n
  ticks-ext lo n h = ap (λ (f : ℤ → Bool). ticks f lo n) (fun_ext h)

-- Tests that pass together as often as two others at every `t` do so over a window.
pub ticks_balance :
    (p q r u : ℤ → Bool) (lo : ℤ) (n : ℕ)
    → ((t : ℤ) → bit (p t) + bit (q t) ≡ bit (r t) + bit (u t))
    → ticks p lo n + ticks q lo n ≡ ticks r lo n + ticks u lo n
unfolding ticks
ticks_balance p q r u lo zero h = omega arith
ticks_balance p q r u lo (suc n) h = omega (arith, h lo, ticks_balance p q r u (lo +ℤ pos 1) n h)

-- A test that passes no more often at any `t` does not over a window.
pub ticks-le :
    (p q : ℤ → Bool) (lo : ℤ) (n : ℕ)
    → ((t : ℤ) → bit (p t) ≤ bit (q t))
    → ticks p lo n ≤ ticks q lo n
unfolding ticks
ticks-le p q lo zero h = omega arith
ticks-le p q lo (suc n) h = omega (arith, h lo, ticks-le p q (lo +ℤ pos 1) n h)

pub ticks-false : (lo : ℤ) (n : ℕ) → ticks (λ _. false) lo n ≡ 0
unfolding ticks
ticks-false lo zero = omega arith
ticks-false lo (suc n) = omega (arith, ticks-false (lo +ℤ pos 1) n)

ticks_past : (x : Span) (lo : ℤ) (n : ℕ) → x.stop ≤ℤ lo → ticks (λ t. inside t x) lo n ≡ 0
unfolding ticks
ticks_past x lo zero h = omega arith
ticks_past x lo (suc n) h = ground (arith, +ℤ_parts lo (pos 1), ticks_past x (lo +ℤ pos 1) n)

ticks_started :
    (x : Span) (lo : ℤ) (n : ℕ)
    → x.start ≤ℤ lo
    → lo ≤ℤ x.stop
    → x.stop ≤ℤ lo +ℤ pos n
    → pos (ticks (λ t. inside t x) lo n) ≡ x.stop -ℤ lo
unfolding ticks
ticks_started x lo zero h k l = omega int_laws
ticks_started x lo (suc n) h k l = ground (
  arith,
  +ℤ_parts lo (pos 1),
  +ℤ_parts lo (pos (suc n)),
  +ℤ_parts (lo +ℤ pos 1) (pos n),
  -ℤ_parts x.stop lo,
  -ℤ_parts x.stop (lo +ℤ pos 1),
  ticks_started x (lo +ℤ pos 1) n,
  ticks_past x (lo +ℤ pos 1) n,
)

-- A span that lies in the window holds `stop - start` of its nanoseconds.
pub ticks-inside :
    (x : Span) (lo : ℤ) (n : ℕ)
    → lo ≤ℤ x.start
    → x.start ≤ℤ x.stop
    → x.stop ≤ℤ lo +ℤ pos n
    → pos (ticks (λ t. inside t x) lo n) ≡ x.stop -ℤ x.start
unfolding ticks
ticks-inside x lo zero h k l = omega int_laws
ticks-inside x lo (suc n) h k l = ground (
  arith,
  +ℤ_parts lo (pos 1),
  +ℤ_parts lo (pos (suc n)),
  +ℤ_parts (lo +ℤ pos 1) (pos n),
  -ℤ_parts x.stop lo,
  -ℤ_parts x.stop x.start,
  -ℤ_parts x.stop (lo +ℤ pos 1),
  ticks-inside x (lo +ℤ pos 1) n,
  ticks_started x (lo +ℤ pos 1) n,
  ticks_past x (lo +ℤ pos 1) n,
)
