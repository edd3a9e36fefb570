-- ===== src/Analyze/Join/Recover.antt =====
-- The join finds the calls that were made, if the clocks are as close as it assumes.
use cuda_schedule_project.Prelude.Outcome.{raises, returns}
use cuda_schedule_project.Prelude.{
  ℕ, suc, ◌+◌, ◌≡◌, refl, true, false, ◌&&◌, inl, inr, Option, none, some, List, [], ◌∷◌, ◌++◌, All,
  length, arith, Bool-cases, if◌then◌else◌,
}
use cuda_schedule_project.Prelude.Int.{ℤ, ◌+ℤ◌, ◌-ℤ◌, ◌≤ℤ◌, ◌<ℤ◌, ltb_ℤ, leb_ℤ, int_laws}
use cuda_schedule_project.Analyze.Records.{IssueRow, KernelRecord}
use cuda_schedule_project.Analyze.Kinds.{is_launch, is_partner}
use cuda_schedule_project.Analyze.Clock.{Clock, ticks_of}
use cuda_schedule_project.Analyze.Join.{
  Joined, slack, check_anchor, take_partners, assign_from, assign_kernels,
}
use cuda_schedule_project.Analyze.Join.Calls.{Call, IsCall, rows, kernels, range_from, places}

-- A result that is no error and has the property.
abbrev pub Returns {ℓ} : {A : Type ℓ} → (A → Type 0) → Joined A → Type 0
Returns P (returns a) = P a
Returns P (raises e) = ⊥

Returns-returns {ℓ} :
    {A : Type ℓ} (P : A → Type 0) (m : Joined A) → Returns P m → (a : A) × (m ≡ returns a) × P a
Returns-returns P (returns a) h = (a, refl, h)
Returns-returns P (raises e) h = absurd h

-- No partner comes next.
abbrev StartsPlain : List KernelRecord → Type 0
StartsPlain [] = Unit
StartsPlain (k ∷ ks) = is_partner k ≡ false

take_partners-append :
    (c : Clock) (ki : ℕ) (ps rest : List KernelRecord)
    → All (λ k. is_partner k ≡ true) ps
    → StartsPlain rest
    → take_partners c ki (ps ++ rest) ≡ (range_from ki (length ps), ki + length ps, rest)
unfolding take_partners
take_partners-append c ki [] [] h e = ground arith
take_partners-append c ki [] (k ∷ ks) h e = rw e (ground arith)
take_partners-append c ki (p ∷ ps) rest h e =
    rw (h.0, take_partners-append c (suc ki) ps rest h.1 e) (ground arith)

kernels-StartsPlain : (calls : List Call) → All IsCall calls → StartsPlain (kernels calls)
kernels-StartsPlain [] h = tt
kernels-StartsPlain (call ∷ calls) h = h.0.main_plain

no_misfit :
    (mapped lo hi : ℤ)
    → lo ≤ℤ mapped
    → mapped ≤ℤ hi
    → (leb_ℤ lo mapped && leb_ℤ mapped hi) ≡ false
    → ⊥
no_misfit mapped lo hi h k e = ground arith

-- What a row takes behind its first kernel.
row_takes :
    (c : Clock) (ki : ℕ) (call : Call) (rest : List KernelRecord)
    → IsCall call
    → StartsPlain rest
    → (if is_launch call.op.kind
        then ([], ki, call.partners ++ rest)
        else take_partners c ki (call.partners ++ rest))
      ≡ (range_from ki (length call.partners), ki + length call.partners, rest)
row_takes c ki call rest is plain = elim (Bool-cases (is_launch call.op.kind)) [
  | inl l ↦
      let none_left : call.partners ≡ [] = rw l at is.partners_fit in
      rw (l, none_left) (ground arith)
  | inr l ↦ rw l (take_partners-append c ki call.partners rest (rw l at is.partners_fit) plain)
]

module _ (c : Clock) (true_offset : ℤ) where
  -- Within 1 ms of the true offset of the clocks.
  abbrev pub IsNear : ℤ → Type 0
  IsNear off = (true_offset ≤ℤ off +ℤ slack c) × (off ≤ℤ true_offset +ℤ slack c)

  -- By the true offset, a host launch at `hs` lies between the row's issue and its return.
  abbrev pub InWindow : IssueRow → ℕ → Type 0
  InWindow op hs =
      (ticks_of c op.t_issue_ns ≤ℤ ticks_of c hs +ℤ true_offset)
      × (ticks_of c hs +ℤ true_offset ≤ℤ ticks_of c op.t_returned_ns)

  check_anchor-IsNear :
      (op : IssueRow) (off : ℤ) (anchor : Option ℕ)
      → IsNear off
      → ((hs : ℕ) → anchor ≡ some hs → InWindow op hs)
      → Returns IsNear (check_anchor c op off anchor)
  unfolding check_anchor
  check_anchor-IsNear op off none near w = near
  check_anchor-IsNear op off (some hs) near w =
      let mapped = ticks_of c hs +ℤ off in
      let issued = ticks_of c op.t_issue_ns in
      let returned = ticks_of c op.t_returned_ns in
      let window = w hs refl in
      elim (Bool-cases (is_launch op.kind)) [
        | inl l ↦ elim (Bool-cases (ltb_ℤ mapped issued)) [
          | inl early ↦
              let e : mapped <ℤ issued = ground arith in
              rw (l, early) (omega (int_laws, near, window, e))
          | inr not_early ↦ elim (Bool-cases (ltb_ℤ returned mapped)) [
            | inl late ↦
                let e : returned <ℤ mapped = ground arith in
                rw (l, not_early, late) (omega (int_laws, near, window, e))
            | inr not_late ↦ rw (l, not_early, not_late) near
          ]
        ]
        | inr l ↦
            elim (Bool-cases
              (leb_ℤ (issued -ℤ slack c) mapped && leb_ℤ mapped (returned +ℤ slack c))) [
                | inl fits ↦ rw (l, fits) near
                | inr misfit ↦ absurd (
                    no_misfit mapped (issued -ℤ slack c) (returned +ℤ slack c)
                      (omega (int_laws, near, window)) (omega (int_laws, near, window)) misfit)
              ]
      ]

  -- The kernels' host-launch anchors are in the windows of their rows.
  abbrev pub AnchorsFit : (ℕ → Option ℕ) → List Call → Type 0
  AnchorsFit rt_start calls =
      All
        (λ (call : Call). (hs : ℕ) → rt_start call.main.correlation ≡ some hs → InWindow call.op hs)
        calls

  module _ (rt_start : ℕ → Option ℕ) where
    assign_from-places :
        (ki : ℕ) (off : ℤ) (calls : List Call)
        → All IsCall calls
        → AnchorsFit rt_start calls
        → IsNear off
        → assign_from c rt_start ki off (rows calls) (kernels calls) ≡ returns (places ki calls)
    unfolding assign_from
    assign_from-places ki off [] is fit near = refl
    assign_from-places ki off (call ∷ calls) is fit near =
        let (off', checked, near') =
          Returns-returns IsNear _
            (check_anchor-IsNear call.op off (rt_start call.main.correlation) near fit.0) in
        rw (
          is.0.main_plain,
          checked,
          row_takes c (suc ki) call (kernels calls) is.0 (kernels-StartsPlain calls is.1),
          assign_from-places (suc ki + length call.partners) off' calls is.1 fit.1 near',
        )

    -- Let the kernel records be those of some calls, one call for each row, in launch order, and
    -- let some offset of the clocks put each recorded host launch between the issue and the return
    -- of its row. From any first estimate within 1 ms of that offset the join returns, and gives
    -- each row the places of its own kernels.
    pub assign_kernels-places :
        (calls : List Call) (off0 : ℤ)
        → All IsCall calls
        → AnchorsFit rt_start calls
        → IsNear off0
        → assign_kernels c rt_start (rows calls) (kernels calls) off0 ≡ returns (places 0 calls)
    unfolding assign_kernels
    assign_kernels-places calls off0 is fit near = assign_from-places 0 off0 calls is fit near
