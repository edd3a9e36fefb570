-- ===== src/Analyze/Join/Examples.antt =====
-- A run with a plain launch and a split-K GEMM, and the theorems of the join there.
use cuda_schedule_project.Prelude.Outcome.{raises, returns}
use cuda_schedule_project.Prelude.{
  ℕ, String, ◌≡◌, refl, Option, none, some, List, [], ◌∷◌, All, arith, ◌==◌, if◌then◌else◌,
}
use cuda_schedule_project.Prelude.Int.{pos, ◌+ℤ◌, ◌-ℤ◌}
use cuda_schedule_project.Analyze.Records.{
  OpKind, kernel_launch, cublas_gemm_ex, Dim3, IssueRow, KernelRecord,
}
use cuda_schedule_project.Analyze.Kinds.{is_partner}
use cuda_schedule_project.Analyze.Clock.{Clock}
use cuda_schedule_project.Analyze.Join.{
  kernels_unmatched, check_anchor, take_partners, assign_from, assign_kernels,
}
use cuda_schedule_project.Analyze.Join.Calls.{Call, IsCall, rows, kernels, places}
use cuda_schedule_project.Analyze.Join.Sound.{assign_kernels-calls}
use cuda_schedule_project.Analyze.Join.Recover.{assign_kernels-places}

abbrev pub dim : Dim3
dim = record { x = 1; y = 1; z = 1 }

abbrev pub row : ℕ → ℕ → OpKind → ℕ → ℕ → IssueRow
row client op_id kind issued returned = record {
  client = client;
  op_id = op_id;
  kind = kind;
  t_intercept_ns = issued;
  t_issue_ns = issued;
  t_returned_ns = returned;
  grid = dim;
  block = dim;
  bytes = 0;
}

abbrev pub kernel : ℕ → ℕ → ℕ → String → KernelRecord
kernel correlation start stop name = record {
  correlation = correlation;
  start_ns = start;
  end_ns = stop;
  stream = 7;
  grid = dim;
  block = dim;
  name = name;
}

-- One tick to the nanosecond; CUPTI's clock is 1000 ns behind.
abbrev pub clock : Clock
clock = record { unit = 1; offset = pos 1000; drift = pos 0 }

abbrev pub launch_call : Call
launch_call = record {
  op = row 0 0 kernel_launch 1100 1120;
  main = kernel 1 150 250 "_Z11sgemm_tiledPf";
  partners = [];
}

abbrev pub gemm_call : Call
gemm_call = record {
  op = row 1 0 cublas_gemm_ex 1130 1160;
  main = kernel 2 180 300 "cutlass_80_gemm";
  partners = kernel 3 310 330 "cublasLt::splitKreduce_kernel" ∷ [];
}

abbrev pub calls : List Call
calls = launch_call ∷ gemm_call ∷ []

abbrev pub joined : List (List ℕ)
joined = (0 ∷ []) ∷ (1 ∷ 2 ∷ []) ∷ []

-- The plain launch has a runtime record, the kernels of cuBLAS have none.
abbrev pub anchors : ℕ → Option ℕ
anchors corr = if corr == 1 then some 105 else none

pub calls-IsCall : All IsCall calls
unfolding is_partner
calls-IsCall = (
  record { main_plain = refl; partners_fit = refl },
  (record { main_plain = refl; partners_fit = (refl, tt) }, tt),
)

pub assign-calls :
    assign_kernels clock anchors (rows calls) (kernels calls) (pos 1000) ≡ returns joined
unfolding assign_kernels assign_from check_anchor take_partners is_partner ◌+ℤ◌ ◌-ℤ◌
assign-calls = refl

-- Without the row of the GEMM its kernels stay unmatched.
assign_rows_short :
    assign_kernels clock anchors (rows (launch_call ∷ [])) (kernels calls) (pos 1000)
    ≡ raises (kernels_unmatched 2)
unfolding assign_kernels assign_from check_anchor take_partners is_partner ◌+ℤ◌ ◌-ℤ◌
assign_rows_short = refl

assign_kernels-calls_example :
    (found : List Call) × All IsCall found
    × (rows found ≡ rows calls)
    × (kernels found ≡ kernels calls)
    × (joined ≡ places 0 found)
assign_kernels-calls_example =
    assign_kernels-calls clock anchors (rows calls) (kernels calls) (pos 1000) joined assign-calls

assign_kernels-places_example :
    assign_kernels clock anchors (rows calls) (kernels calls) (pos 1500) ≡ returns (places 0 calls)
unfolding ◌+ℤ◌
assign_kernels-places_example =
    assign_kernels-places clock (pos 1000) anchors calls (pos 1500) calls-IsCall
      (λ hs e. ground arith, (λ hs e. cc, tt)) (omega arith)
