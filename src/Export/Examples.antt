-- ===== src/Export/Examples.antt =====
-- The page of the example's trace, without and with a "load_done" mark.
use mathlib.Core.List.{Perm}
use cuda_schedule_project.Prelude.{
  ℕ, ◌+◌, Option, List, drop, ◌≡◌, refl, none, some, [], ◌∷◌, map, All, length,
}
use cuda_schedule_project.Prelude.Int.{pos, ◌≤ℤ◌, min_ℤ, max_ℤ}
use cuda_schedule_project.Prelude.Outcome.{Outcome, raises, returns}
use cuda_schedule_project.Analyze.Join.Calls.{range_from}
use cuda_schedule_project.Analyze.Pandas.{IsAscending}
use cuda_schedule_project.Analyze.Trace.{TraceRow}
use cuda_schedule_project.Analyze.Trace.Examples.{run_trace, computing}
use cuda_schedule_project.Export.{
  value_error, trim, time_rows, PageOp, page_op, page_ops, op_end, Page, PageError, build_data,
}
use cuda_schedule_project.Analyze.Records.{memcpy_async}
use cuda_schedule_project.Export.Data.{
  ClientResult, Results, PageData, page_data, data_of, page_clients,
}
use cuda_schedule_project.Export.Perf.{page_data-perf, perf_beside}
use cuda_schedule_project.Prelude.Text.{codes}
use cuda_schedule_project.Prelude.Dict.{Text, Dict, get}
use cuda_schedule_project.Export.Ops.{row_id, op_id_of, build_data-returns}

abbrev page_or : Page → Outcome PageError Page → Page
page_or p (returns q) = q
page_or p (raises e) = p

abbrev no_page : Page
no_page = record { t0 = pos 0; ops = []; t_end = pos 0; barrier = none }

abbrev page : Page
page = page_or no_page (build_data run_trace (none ∷ some 0 ∷ []) (some 1110 ∷ some 1105 ∷ []))

page_barrier : page.barrier ≡ some (pos 10)
unfolding computing build_data trim time_rows page_ops page_op min_ℤ max_ℤ
page_barrier = refl

no_rows : Path (Outcome PageError Page) (build_data [] [] []) (raises value_error)
unfolding build_data trim time_rows
no_rows = refl

build_data-returns_example :
    Perm (map op_id_of page.ops) (map row_id (trim (none ∷ some 0 ∷ []) run_trace))
    × IsAscending (λ (op : PageOp). op.tis) page.ops
    × (map (λ (op : PageOp). op.rnd) page.ops ≡ range_from 0 (length page.ops))
    × All (λ (op : PageOp). pos 0 ≤ℤ op.ti) page.ops
    × All (λ (op : PageOp). op_end op ≤ℤ page.t_end) page.ops
unfolding computing build_data trim time_rows
build_data-returns_example =
    build_data-returns run_trace (none ∷ some 0 ∷ []) (some 1110 ∷ some 1105 ∷ []) page refl

abbrev copy_row : TraceRow
copy_row = record {
  client = 0;
  op_id = 0;
  kind = memcpy_async;
  name = "cudaMemcpyAsync";
  raw_name = "";
  n_kernels = 0;
  bytes = 64;
  grid = record { x = 0; y = 0; z = 0 };
  block = record { x = 0; y = 0; z = 0 };
  correlation = 4;
  t_intercept_ns = none;
  t_issue_ns = none;
  t_gpu_start_ns = some (pos 1340);
  t_gpu_end_ns = some (pos 1360);
  gpu_stream = some 7;
}

-- A page of one row that no trace of the analysis has, since it was not issued.
one_copy : trim (none ∷ []) (copy_row ∷ []) ≡ copy_row ∷ []
unfolding trim
one_copy = refl

abbrev client_named : Text → ℕ → ClientResult
client_named name lat = record {
  name = name;
  iters = some 2;
  desc = none;
  lat = lat ∷ (lat + 50) ∷ [];
  load_done = none;
  barrier_ns = some 1110;
}

abbrev pair_results : Results
pair_results = record {
  mode = codes "colocated";
  clients = client_named (codes "latency") 5_000_000 ∷ client_named (codes "fma") 7_000_000 ∷ [];
  priorities = some (pos 0 ∷ pos 1 ∷ []);
  sm_limit = some 50;
  policy = none;
}

abbrev fma_twice : List ClientResult
fma_twice = client_named (codes "fma") 1_000_000 ∷ client_named (codes "fma") 2_000_000 ∷ []

abbrev solo_files : Dict (List ClientResult)
solo_files = (codes "solo.json", fma_twice) ∷ []

abbrev no_decimal : ℕ → Text
no_decimal n = codes "50"

abbrev first_of : List (Option ℕ) → Option ℕ
first_of [] = none
first_of (s ∷ streams) = s

abbrev head_or : TraceRow → List TraceRow → TraceRow
head_or r [] = r
head_or r (op ∷ ops) = op

abbrev first_row : TraceRow
first_row = head_or copy_row run_trace

abbrev other_rows : List TraceRow
other_rows = drop 1 run_trace

abbrev data_or : PageData → Outcome PageError PageData → PageData
data_or d (returns d') = d'
data_or d (raises e) = d

abbrev no_data : PageData
no_data = record {
  title = [];
  clients = [];
  mode = [];
  policy = [];
  sm_limit = 0;
  perf = [];
  page = no_page;
  t_end_us = 0;
}

abbrev pair_data : PageData
pair_data = data_or no_data (
    page_data no_decimal first_of (codes "run") run_trace pair_results (some (codes "solo.json")) []
      solo_files)

page_data-perf_example : pair_data.perf ≡ map (perf_beside fma_twice) pair_results.clients
unfolding computing page_data data_of build_data trim time_rows page_clients get
page_data-perf_example =
    page_data-perf no_decimal first_of (codes "run") run_trace pair_results b's'
      (drop 1 (codes "solo.json")) [] solo_files fma_twice pair_data refl refl refl
