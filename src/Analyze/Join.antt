-- ===== src/Analyze/Join.antt =====
-- `assign_kernels`: which GPU kernels each row of the issue log caused.
pub mod Calls
pub mod Sound
pub mod Recover
pub mod Examples
use cuda_schedule_project.Prelude.Outcome.{Outcome, ◌>>=◌, raises, returns}
use cuda_schedule_project.Prelude.{
  ℕ, zero, suc, ◌+◌, ◌*◌, Bool, true, false, ◌&&◌, not, Option, none, some, List, [], ◌∷◌, length,
  if◌then◌else◌,
}
use cuda_schedule_project.Prelude.Int.{ℤ, pos, ◌+ℤ◌, ◌-ℤ◌, ltb_ℤ, leb_ℤ}
use cuda_schedule_project.Analyze.Records.{IssueRow, KernelRecord}
use cuda_schedule_project.Analyze.Kinds.{is_launch, is_partner}
use cuda_schedule_project.Analyze.Clock.{Clock, ticks_of}

-- The AssertionErrors of `assign_kernels`.
pub data JoinError : Type 0 where
  ran_out_of_kernels : IssueRow → JoinError
  partner_without_row : IssueRow → KernelRecord → JoinError
  join_drifted : IssueRow → JoinError
  kernels_unmatched : ℕ → JoinError

abbrev pub Joined {ℓ} : Type ℓ → Type ℓ
Joined A = Outcome JoinError A

-- 1e6 ns
abbrev pub slack : Clock → ℤ
slack c = ticks_of c 1_000_000

module _ (c : Clock) where
  -- The use of a row's host-launch anchor, `rt_start.get(correlation)`: the new rolling offset.
  unfoldable pub check_anchor : IssueRow → ℤ → Option ℕ → Joined ℤ
  check_anchor op off none = returns off
  check_anchor op off (some hs) =
      let mapped = ticks_of c hs +ℤ off in
      let issued = ticks_of c op.t_issue_ns in
      let returned = ticks_of c op.t_returned_ns in
      if is_launch op.kind
      then (if ltb_ℤ mapped issued
          then returns (off +ℤ (issued -ℤ mapped))
          else if ltb_ℤ returned mapped
          then returns (off -ℤ (mapped -ℤ returned))
          else returns off)
      else if not (leb_ℤ (issued -ℤ slack c) mapped && leb_ℤ mapped (returned +ℤ slack c))
      then raises (join_drifted op)
      else returns off

  -- The inner `while`: the indices taken, the next index, and the records from there on.
  unfoldable pub take_partners : ℕ → List KernelRecord → List ℕ × ℕ × List KernelRecord
  take_partners ki [] = ([], ki, [])
  take_partners ki (k ∷ ks) =
      let (taken, next, rest) = take_partners (suc ki) ks in
      if is_partner k then (ki ∷ taken, next, rest) else ([], ki, k ∷ ks)

  module _ (rt_start : ℕ → Option ℕ) where
    -- The loop over `ops`, at kernel index `ki`; the last argument is the records from `ki` on.
    unfoldable pub assign_from : ℕ → ℤ → List IssueRow → List KernelRecord → Joined (List (List ℕ))
    assign_from ki off [] [] = returns []
    assign_from ki off [] (k ∷ ks) = raises (kernels_unmatched (length (k ∷ ks)))
    assign_from ki off (op ∷ ops) [] = raises (ran_out_of_kernels op)
    assign_from ki off (op ∷ ops) (k ∷ ks) =
        if is_partner k then raises (partner_without_row op k) else do
          off' ← check_anchor op off (rt_start k.correlation)
          let (more, next, rest) =
              if is_launch op.kind then ([], suc ki, ks) else take_partners (suc ki) ks
          out ← assign_from next off' ops rest
          returns ((ki ∷ more) ∷ out)

    unfoldable pub assign_kernels : List IssueRow → List KernelRecord → ℤ → Joined (List (List ℕ))
    assign_kernels ops kern off0 = assign_from 0 off0 ops kern
