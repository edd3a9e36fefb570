-- ===== src/Analyze/Trace/Copies.antt =====
-- The rows of the colocated trace that stand for memcpys.
use cuda_schedule_project.Prelude.{
  ℕ, ◌≡◌, ◌≢◌, refl, ◌⊎◌, inl, inr, Option, none, some, List, [], ◌∷◌, All, length, Bool-cases,
  ◌==◌, ==_iff, arith,
}
use cuda_schedule_project.Prelude.Int.{pos}
use cuda_schedule_project.Analyze.Records.{IssueRow, MemcpyRecord, RuntimeRecord}
use cuda_schedule_project.Analyze.Clock.{Clock, to_mono, int_ns}
use cuda_schedule_project.Analyze.Trace.{
  TraceRow, RunData, first_memcpy, find_memcpy, memcpy_row, memcpy_rows,
}
use cuda_schedule_project.Analyze.Trace.Kernels.{IsIn}

abbrev pub gpu_copies : Option (List MemcpyRecord) → List MemcpyRecord
gpu_copies none = []
gpu_copies (some records) = records

-- The row has the times and the stream of a GPU record with the id, if there is one, and else none.
abbrev pub TellsCopy : Clock → ℕ → List MemcpyRecord → TraceRow → Type 0
TellsCopy c corr gs row =
    ((g : MemcpyRecord) × IsIn g gs
      × (g.correlation ≡ corr)
      × (row.t_gpu_start_ns ≡ some (int_ns c (to_mono c g.start_ns)))
      × (row.t_gpu_end_ns ≡ some (int_ns c (to_mono c g.end_ns)))
      × (row.gpu_stream ≡ some g.stream))
    ⊎ (All (λ (g : MemcpyRecord). g.correlation ≢ corr) gs
        × (row.t_gpu_start_ns ≡ none)
        × (row.t_gpu_end_ns ≡ none)
        × (row.gpu_stream ≡ none))

-- The row tells the memcpy of an operation, which the host's call made.
pub record IsCopy (md : RunData) (op : IssueRow) (call : RuntimeRecord) (row : TraceRow)
    : Type 0 where
  pub operation : (row.client ≡ op.client) × (row.op_id ≡ op.op_id) × (row.kind ≡ op.kind)
  pub bytes : row.bytes ≡ op.bytes
  pub correlation : row.correlation ≡ call.correlation
  pub intercepted : row.t_intercept_ns ≡ some (pos op.t_intercept_ns)
  pub issued : row.t_issue_ns ≡ some (pos op.t_issue_ns)
  pub copied : TellsCopy md.clock call.correlation (gpu_copies md.memcpys) row

abbrev pub AreCopies : RunData → List IssueRow → List RuntimeRecord → List TraceRow → Type 0
AreCopies md [] [] rows = rows ≡ []
AreCopies md [] (call ∷ calls) rows = ⊥
AreCopies md (op ∷ ops) [] rows = ⊥
AreCopies md (op ∷ ops) (call ∷ calls) [] = ⊥
AreCopies md (op ∷ ops) (call ∷ calls) (row ∷ rows) =
    IsCopy md op call row × AreCopies md ops calls rows

first_memcpy-cases :
    (corr : ℕ) (gs : List MemcpyRecord)
    → ((g : MemcpyRecord) × IsIn g gs × (g.correlation ≡ corr) × (first_memcpy corr gs ≡ some g))
      ⊎ (All (λ (g : MemcpyRecord). g.correlation ≢ corr) gs × (first_memcpy corr gs ≡ none))
unfolding first_memcpy
first_memcpy-cases corr [] = inr (tt, refl)
first_memcpy-cases corr (g ∷ gs) = elim (Bool-cases (g.correlation == corr)) [
  | inl e ↦ let same = (==_iff g.correlation corr).0 e in rw e (inl (g, inl refl, same, refl))
  | inr e ↦
      let away : g.correlation ≢ corr = ground arith in
      elim (first_memcpy-cases corr gs) [
        | inl (k, i, s, f) ↦ rw (e, f) (inl (k, inr i, s, refl))
        | inr (a, f) ↦ rw (e, f) (inr ((away, a), refl))
      ]
]

find_memcpy-cases :
    (corr : ℕ) (o : Option (List MemcpyRecord))
    → ((g : MemcpyRecord) × IsIn g (gpu_copies o)
        × (g.correlation ≡ corr)
        × (find_memcpy corr o ≡ some g))
      ⊎ (All (λ (g : MemcpyRecord). g.correlation ≢ corr) (gpu_copies o)
          × (find_memcpy corr o ≡ none))
find_memcpy-cases corr none = inr (tt, refl)
find_memcpy-cases corr (some gs) = first_memcpy-cases corr gs

memcpy_row-IsCopy :
    (md : RunData) (op : IssueRow) (call : RuntimeRecord)
    → IsCopy md op call
        (memcpy_row md.clock op call.correlation (find_memcpy call.correlation md.memcpys))
unfolding memcpy_row
memcpy_row-IsCopy md op call = record {
  operation = (refl, refl, refl);
  bytes = refl;
  correlation = refl;
  intercepted = refl;
  issued = refl;
  copied = elim (find_memcpy-cases call.correlation md.memcpys) [
    | inl (g, i, s, f) ↦ rw f (inl (g, i, s, refl, refl, refl))
    | inr (a, f) ↦ rw f (inr (a, refl, refl, refl))
  ];
}

pub memcpy_rows-AreCopies :
    (md : RunData) (ops : List IssueRow) (calls : List RuntimeRecord)
    → length calls ≡ length ops
    → AreCopies md ops calls (memcpy_rows md ops calls)
unfolding memcpy_rows
memcpy_rows-AreCopies md [] [] e = refl
memcpy_rows-AreCopies md [] (call ∷ calls) e = absurd (omega arith)
memcpy_rows-AreCopies md (op ∷ ops) [] e = absurd (omega arith)
memcpy_rows-AreCopies md (op ∷ ops) (call ∷ calls) e =
    (memcpy_row-IsCopy md op call, memcpy_rows-AreCopies md ops calls (omega arith))
