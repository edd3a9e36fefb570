-- ===== src/Export/Trim.antt =====
-- The trim to the last "load_done" mark.
use cuda_schedule_project.Prelude.{ℕ, ◌≤◌, ◌≡◌, ◌≢◌, ◌⊎◌, Option, none, some, List, [], ◌∷◌, All}
use cuda_schedule_project.Prelude.Int.{ℤ, pos, ◌≤ℤ◌, ◌<ℤ◌}
use cuda_schedule_project.Analyze.Trace.{TraceRow}
use cuda_schedule_project.Export.{max_of}

-- A time that is missing, or is 0.
abbrev pub IsMissing : Option ℤ → Type 0
IsMissing o = (o ≡ none) ⊎ (o ≡ some (pos 0))

-- The first time of three that is there; 0 if none of them is.
abbrev pub IsFirstTime : (first second third : Option ℤ) → ℤ → Type 0
IsFirstTime a b c t =
    ((a ≡ some t) × (t ≢ pos 0))
    ⊎ (IsMissing a × (b ≡ some t) × (t ≢ pos 0))
    ⊎ (IsMissing a × IsMissing b × (c ≡ some t))
    ⊎ (IsMissing a × IsMissing b × (c ≡ none) × (t ≡ pos 0))

-- A row that starts at or after the cut, and one that starts before it: by its GPU start, or by its
-- issue, or by its interception.
abbrev pub IsFrom : ℕ → TraceRow → Type 0
IsFrom cut op =
    (t : ℤ) × IsFirstTime op.t_gpu_start_ns op.t_issue_ns op.t_intercept_ns t × (pos cut ≤ℤ t)

abbrev pub IsBefore : ℕ → TraceRow → Type 0
IsBefore cut op =
    (t : ℤ) × IsFirstTime op.t_gpu_start_ns op.t_issue_ns op.t_intercept_ns t × (t <ℤ pos cut)

-- The rows from the cut on, in their order, without those before it.
abbrev pub IsKept : ℕ → (trace kept : List TraceRow) → Type 0
IsKept cut [] kept = kept ≡ []
IsKept cut (op ∷ ops) kept =
    (IsFrom cut op × (rest : List TraceRow) × (kept ≡ op ∷ rest) × IsKept cut ops rest)
    ⊎ (IsBefore cut op × IsKept cut ops kept)

-- No mark, or the largest of them.
abbrev pub IsUnmarked : Option ℕ → Type 0
IsUnmarked o = (o ≡ none) ⊎ (o ≡ some 0)

abbrev pub IsIn : ℕ → List (Option ℕ) → Type 0
IsIn m [] = ⊥
IsIn m (o ∷ loads) = (o ≡ some m) ⊎ IsIn m loads

abbrev pub IsAtMost : ℕ → Option ℕ → Type 0
IsAtMost m none = Unit
IsAtMost m (some x) = x ≤ m

abbrev pub IsLastMark : List (Option ℕ) → ℕ → Type 0
IsLastMark loads m = (m ≢ 0) × IsIn m loads × All (IsAtMost m) loads

-- The largest of the marks and a number.
record Largest (m : ℕ) (marks : List ℕ) (loads : List (Option ℕ)) : Type 0 where
  at_least : m ≤ max_of m marks
  among : (max_of m marks ≡ m) ⊎ IsIn (max_of m marks) loads
  bounds : All (IsAtMost (max_of m marks)) loads
