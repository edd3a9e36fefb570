-- ===== src/Workload/Calibrate.antt =====
-- The number of iterations that `calibrate` chooses.
use Prim.Native.Nat.{min, max}
use native.Mathlib.Decide.{dec_le}
use native.Mathlib.Nat.{div-add-mod, mod-lt, mul-le-mul_right}
use cuda_schedule_project.Prelude.{
  ℕ, suc, ◌+◌, ◌*◌, ◌/◌, ◌%◌, ◌≤◌, ◌<◌, ◌≡◌, arith, ltb, ◌==◌, Bool-cases, inl, inr,
}
use cuda_schedule_project.Workload.{round_div, calibrated_iters, calibrate_probes}

pub calibrated_iters-bounds :
    (target elapsed : ℕ)
    → (3 ≤ calibrated_iters target elapsed) × (calibrated_iters target elapsed ≤ 5000)
unfolding calibrated_iters
calibrated_iters-bounds target elapsed = omega arith

-- `round_div` is off by at most half the divisor.
round_div_near :
    (a b : ℕ)
    → 0 < b
    → (2 * a ≤ 2 * (round_div a b * b) + b) × (2 * (round_div a b * b) ≤ 2 * a + b)
unfolding round_div
round_div_near a b h =
    let e = div-add-mod a b in
    let r = mod-lt a h in
    elim (Bool-cases (ltb (2 * (a % b)) b)) [
      | inl low ↦
          let l : 2 * (a % b) < b = ground arith in
          rw low (omega (arith, e, l), omega (arith, e, l))
      | inr not_low ↦ elim (Bool-cases (ltb b (2 * (a % b)))) [
        | inl high ↦
            let l : b < 2 * (a % b) = ground arith in
            rw (not_low, high) (omega (arith, e, r, l), omega (arith, e, r, l))
        | inr not_high ↦
            let l : b ≡ 2 * (a % b) = ground arith in
            elim (Bool-cases (a / b % 2 == 0)) [
              | inl even ↦ rw (not_low, not_high, even) (omega (arith, e, l), omega (arith, e, l))
              | inr odd ↦ rw (not_low, not_high, odd) (omega (arith, e, l), omega (arith, e, l))
            ]
      ]
    ]

round_div-ge : (a b k : ℕ) → 0 < b → k * b ≤ a → k ≤ round_div a b
round_div-ge a b k h l = elim (dec_le k (round_div a b)) [
  | yes p ↦ p
  | no p ↦
      let q : suc (round_div a b) ≤ k = omega arith in
      absurd (omega (arith, round_div_near a b h, mul-le-mul_right b q))
]

round_div-le : (a b k : ℕ) → 0 < b → a ≤ k * b → round_div a b ≤ k
round_div-le a b k h l = elim (dec_le (round_div a b) k) [
  | yes p ↦ p
  | no p ↦
      let q : suc k ≤ round_div a b = omega arith in
      absurd (omega (arith, round_div_near a b h, mul-le-mul_right b q))
]

-- If the probes took at least 1 us each, and neither fewer than 3 nor more than 5000 of their mean
-- time fill the target, then the chosen iterations take the target time at that mean, up to half
-- an iteration. (Four iterations' time is `elapsed`, so all is counted four times.)
pub calibrated_iters_near :
    (target elapsed : ℕ)
    → 1000 * calibrate_probes ≤ elapsed
    → 3 * elapsed ≤ target * 1_000_000 * calibrate_probes
    → target * 1_000_000 * calibrate_probes ≤ 5000 * elapsed
    → (2 * (target * 1_000_000 * calibrate_probes)
        ≤ 2 * (calibrated_iters target elapsed * elapsed) + elapsed)
      × (2 * (calibrated_iters target elapsed * elapsed)
          ≤ 2 * (target * 1_000_000 * calibrate_probes) + elapsed)
unfolding calibrated_iters
calibrated_iters_near target elapsed h lo hi =
    let total = target * 1_000_000 * calibrate_probes in
    let m : max elapsed 4000 ≡ elapsed = omega arith in
    let pos_elapsed : 0 < elapsed = omega arith in
    let low = round_div-ge total elapsed 3 pos_elapsed lo in
    let high = round_div-le total elapsed 5000 pos_elapsed hi in
    let q : max 3 (min 5000 (round_div total elapsed)) ≡ round_div total elapsed =
      omega (arith, low, high) in
    rw (m, q) (round_div_near total elapsed pos_elapsed)
