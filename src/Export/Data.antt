-- ===== src/Export/Data.antt =====
-- The whole of `build_data`: the clients, their streams and latencies, the titles, and the operations.
use cuda_schedule_project.Prelude.{
  ℕ, suc, ◌+◌, Bool, true, false, not, ◌&&◌, Option, none, some, List, [], ◌∷◌, ◌++◌, map, select,
  ◌==◌, if◌then◌else◌, get_elem?,
}
use cuda_schedule_project.Prelude.Int.{ℤ, pos, pos_part}
use cuda_schedule_project.Prelude.Text.{codes, same_text}
use cuda_schedule_project.Prelude.Dict.{Text, Dict, get, put}
use cuda_schedule_project.Prelude.Outcome.{Outcome, raises, returns, ◌>>=◌}
use cuda_schedule_project.Workload.{round_div}
use cuda_schedule_project.Analyze.Records.{OpKind, cublas_gemm_ex, cublas_sgemm}
use cuda_schedule_project.Analyze.Trace.{TraceRow}
use cuda_schedule_project.Export.{PageError, index_error, Page, build_data, trim}

-- A client of results.json. Latencies are in ns.
pub record ClientResult : Type 0 where
  pub name : Text
  pub iters : Option ℕ
  pub desc : Option Text
  pub lat : List ℕ
  pub load_done : Option ℕ
  pub barrier_ns : Option ℕ

pub record Results : Type 0 where
  pub mode : Text
  pub clients : List ClientResult
  pub priorities : Option (List ℤ)
  pub sm_limit : Option ℕ
  pub policy : Option Text

pub record PageClient : Type 0 where
  pub name : Text
  pub prio : ℤ
  pub iters : Option ℕ
  pub desc : Text
  pub streams : Option (Option ℕ × Option ℕ)

-- Latencies in units of 0.0001 ms.
pub record Perf : Type 0 where
  pub name : Text
  pub coloc : List ℕ
  pub solo : Option (List ℕ)

pub record PageData : Type 0 where
  pub title : Text
  pub clients : List PageClient
  pub mode : Text
  pub policy : Text
  pub sm_limit : ℕ
  pub perf : List Perf
  pub page : Page
  pub t_end_us : ℕ

-- `o` or the default in its place.
abbrev pub default_to {ℓ} : {A : Type ℓ} → A → Option A → A
default_to d none = d
default_to d (some a) = a

-- `round(x * 1e3, 4)` of a latency
unfoldable pub tenths_us : ℕ → ℕ
tenths_us ns = round_div ns 100

-- `solo_by_name`, from the clients of the baseline.
unfoldable pub add_solo : Dict (List ℕ) → List ClientResult → Dict (List ℕ)
add_solo d [] = d
add_solo d (c ∷ cs) = add_solo (put c.name (map tenths_us c.lat) d) cs

-- `mode == "seq"`
abbrev pub is_seq : Results → Bool
is_seq r = same_text r.mode (codes "seq")

-- The path of the baseline: in colocated mode the caller's or the run's own seq results, if they
-- exist. `files` leads from a path to the clients of the results there.
unfoldable pub solo_by_name :
    (seq : Bool) → Option Text → Text → Dict (List ClientResult) → Dict (List ℕ)
unfolding add_solo
solo_by_name true given beside files = []
solo_by_name false none beside files = add_solo [] (default_to [] (get beside files))
solo_by_name false (some []) beside files = []
solo_by_name false (some path) beside files = add_solo [] (default_to [] (get path files))

unfoldable pub page_clients : List ℤ → ℕ → List ClientResult → Outcome PageError (List PageClient)
page_clients prios i [] = returns []
page_clients prios i (c ∷ cs) = do
  prio ← prio_at (get_elem? prios i)
  rest ← page_clients prios (suc i) cs
  returns (
      record {
        name = c.name;
        prio = prio;
        iters = c.iters;
        desc = default_to [] c.desc;
        streams = none;
      }
      ∷ rest)
  where
    prio_at : Option ℤ → Outcome PageError ℤ
    prio_at none = raises index_error
    prio_at (some p) = returns p

-- `results.get("priorities", [0] * len(results["clients"]))`
abbrev pub prios_of : Results → List ℤ
prios_of r = default_to (map (λ c. pos 0) r.clients) r.priorities

-- `op["kind"] in ("cublasGemmEx", "cublasSgemm")`
abbrev pub is_capped : OpKind → Bool
is_capped cublas_gemm_ex = true
is_capped cublas_sgemm = true
is_capped _ = false

-- The streams of a client's operations of one sort. `pick` is the choice that iteration makes of a
-- set, which is not specified.
unfoldable pub streams_of : (List (Option ℕ) → Option ℕ) → Bool → ℕ → List TraceRow → Option ℕ
streams_of pick capped client trace = pick (
    map (λ (op : TraceRow). op.gpu_stream)
      (select
        (λ (op : TraceRow).
          op.client == client && (if capped then is_capped op.kind else not (is_capped op.kind)))
        trace))

unfoldable pub with_streams :
    (List (Option ℕ) → Option ℕ) → List TraceRow → ℕ → List PageClient → List PageClient
unfolding streams_of
with_streams pick trace i [] = []
with_streams pick trace i (c ∷ cs) =
    record c { streams = some (streams_of pick true i trace, streams_of pick false i trace) }
    ∷ with_streams pick trace (suc i) cs

abbrev pub perf_of : Dict (List ℕ) → ClientResult → Perf
perf_of solo c = record { name = c.name; coloc = map tenths_us c.lat; solo = get c.name solo }

-- The title. `decimal` prints a number.
unfoldable pub title_of : (ℕ → Text) → Text → Bool → Text → ℕ → Text
title_of decimal label seq policy limit =
    let title =
      label
      ++ (if seq then codes " · solo (seq, observer only)" else codes " · policy " ++ policy) in
    if limit == 0 then title else title ++ codes " · SM limit " ++ decimal limit ++ codes "%"

module _ (decimal : ℕ → Text) (pick : List (Option ℕ) → Option ℕ) (label : Text)
    (trace : List TraceRow) (results : Results) (baseline : Option Text) (beside : Text)
    (files : Dict (List ClientResult)) where
  -- The dictionary that `build_data` returns, from its operations and its clients, but for the
  -- navigation, which is the caller's.
  unfoldable pub data_of : Page → List PageClient → PageData
  data_of page clients =
      let seq = is_seq results in
      let limit = default_to 0 results.sm_limit in
      let loads = map (λ (c : ClientResult). c.load_done) results.clients in
      let policy = if seq then codes "solo" else default_to (codes "fcfs") results.policy in
      record {
        title = title_of decimal label seq policy limit;
        clients = if limit == 0 then clients else with_streams pick (trim loads trace) 0 clients;
        mode = results.mode;
        policy = policy;
        sm_limit = limit;
        perf = map (perf_of (solo_by_name seq baseline beside files)) results.clients;
        page = page;
        t_end_us = round_div (pos_part page.t_end) 1000 + 1000;
      }

  -- `build_data`, from the files' contents.
  unfoldable pub page_data : Outcome PageError PageData
  page_data = do
    page ←
        build_data trace (map (λ (c : ClientResult). c.load_done) results.clients)
          (map (λ (c : ClientResult). c.barrier_ns) results.clients)
    clients ← page_clients (prios_of results) 0 results.clients
    returns (data_of page clients)
