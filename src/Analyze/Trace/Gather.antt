-- ===== src/Analyze/Trace/Gather.antt =====
-- The index lists of a join lead back to the kernels of its calls.
use cuda_schedule_project.Prelude.Outcome.{returns}
use cuda_schedule_project.Prelude.{
  ℕ, zero, suc, ◌+◌, ◌≡◌, refl, subst, some, List, [], ◌∷◌, ◌++◌, map, length, length-append,
  get_elem?, append_assoc, arith,
}
use cuda_schedule_project.Analyze.Records.{KernelRecord}
use cuda_schedule_project.Analyze.Clock.{Clock}
use cuda_schedule_project.Analyze.Join.Calls.{Call, rows, kernels, range_from, places}
use cuda_schedule_project.Analyze.Trace.{TraceRow, gather, kernel_row, kernel_rows}

-- The row that a call is to have.
abbrev pub call_row : Clock → Call → TraceRow
call_row c call = kernel_row c call.op call.main call.partners

get_elem?-append :
    (pre : List KernelRecord) (k : KernelRecord) (rest : List KernelRecord) (ki : ℕ)
    → length pre ≡ ki
    → get_elem? (pre ++ k ∷ rest) ki ≡ some k
get_elem?-append [] k rest zero e = refl
get_elem?-append [] k rest (suc ki) e = absurd (omega arith)
get_elem?-append (p ∷ pre) k rest zero e = absurd (omega arith)
get_elem?-append (p ∷ pre) k rest (suc ki) e = get_elem?-append pre k rest ki (omega arith)

gather-range_from :
    (pre ks rest : List KernelRecord) (ki : ℕ)
    → length pre ≡ ki
    → gather (pre ++ (ks ++ rest)) (range_from ki (length ks)) ≡ returns ks
unfolding gather
gather-range_from pre [] rest ki e = refl
gather-range_from pre (k ∷ ks) rest ki e =
    let longer : length (pre ++ k ∷ []) ≡ suc ki = omega (arith, length-append pre (k ∷ [])) in
    let others =
      subst (λ l. gather l (range_from (suc ki) (length ks)) ≡ returns ks)
        (append_assoc pre (k ∷ []) (ks ++ rest))
        (gather-range_from (pre ++ k ∷ []) ks rest (suc ki) longer) in
    rw (get_elem?-append pre k (ks ++ rest) ki e, others)

pub kernel_rows-places :
    (c : Clock) (pre : List KernelRecord) (ki : ℕ) (calls : List Call)
    → length pre ≡ ki
    → kernel_rows c (pre ++ kernels calls) (rows calls) (places ki calls)
      ≡ returns (map (call_row c) calls)
unfolding kernel_rows
kernel_rows-places c pre ki [] e = refl
kernel_rows-places c pre ki (call ∷ calls) e =
    let own = call.main ∷ call.partners in
    let next = suc ki + length call.partners in
    let longer : length (pre ++ own) ≡ next = omega (arith, length-append pre own) in
    let others =
      subst
        (λ l. kernel_rows c l (rows calls) (places next calls) ≡ returns (map (call_row c) calls))
        (append_assoc pre own (kernels calls))
        (kernel_rows-places c (pre ++ own) next calls longer) in
    rw (gather-range_from pre own (kernels calls) ki e, others)
