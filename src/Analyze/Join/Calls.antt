-- ===== src/Analyze/Join/Calls.antt =====
-- What the join is to find: the GPU calls behind the rows of the issue log, each with the kernels
-- that it launched.
use cuda_schedule_project.Prelude.{
  ℕ, zero, suc, ◌+◌, ◌≡◌, Bool, true, false, List, [], ◌∷◌, ◌++◌, map, All, length,
}
use cuda_schedule_project.Analyze.Records.{IssueRow, KernelRecord}
use cuda_schedule_project.Analyze.Kinds.{is_launch, is_partner}

-- A row, the kernel that its call launched first, and the partner kernels behind that.
pub record Call : Type 0 where
  pub op : IssueRow
  pub main : KernelRecord
  pub partners : List KernelRecord

-- A plain launch has no partners.
abbrev PartnersFit : Bool → List KernelRecord → Type 0
PartnersFit true ps = ps ≡ []
PartnersFit false ps = All (λ k. is_partner k ≡ true) ps

pub record IsCall (c : Call) : Type 0 where
  pub main_plain : is_partner c.main ≡ false
  pub partners_fit : PartnersFit (is_launch c.op.kind) c.partners

abbrev pub rows : List Call → List IssueRow
rows calls = map (λ (c : Call). c.op) calls

-- The kernels in the order in which the calls launched them.
abbrev pub kernels : List Call → List KernelRecord
kernels [] = []
kernels (c ∷ cs) = c.main ∷ (c.partners ++ kernels cs)

-- `n` indices from `ki` on.
abbrev pub range_from : ℕ → ℕ → List ℕ
range_from ki zero = []
range_from ki (suc n) = ki ∷ range_from (suc ki) n

-- The places of each call's kernels in that order.
abbrev pub places : ℕ → List Call → List (List ℕ)
places ki [] = []
places ki (c ∷ cs) =
    (ki ∷ range_from (suc ki) (length c.partners)) ∷ places (suc ki + length c.partners) cs
