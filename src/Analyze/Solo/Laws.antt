-- ===== src/Analyze/Solo/Laws.antt =====
-- What an observer-only trace holds.
use mathlib.Core.List.{Perm}
use mathlib.Core.List.Perm
use cuda_schedule_project.Prelude.Outcome.{returns}
use cuda_schedule_project.Prelude.{
  ℕ, suc, ◌*◌, String, Bool, ◌&&◌, Option, some, map-append, ◌≡◌, refl, ap, ◌∙◌, inl, inr, List, [],
  ◌∷◌, ◌++◌, map, All, select, length, arith, Bool-cases,
}
use cuda_schedule_project.Prelude.Int.{ℤ, pos, leb_ℤ, ◌≤ℤ◌}
use cuda_schedule_project.Analyze.Records.{
  OpKind, kernel_launch, memcpy_async, KernelRecord, MemcpyRecord,
}
use cuda_schedule_project.Analyze.Clock.{to_mono, int_ns}
use cuda_schedule_project.Analyze.Pandas.{Sorting, IsAscending}
use cuda_schedule_project.Analyze.Join.Calls.{range_from}
use cuda_schedule_project.Analyze.Trace.{TraceRow, gpu_key}
use cuda_schedule_project.Analyze.Solo.{
  SoloData, rows_or_none, is_none, in_window, launch_time, solo_kernel_row, solo_memcpy_row,
  solo_kernel_rows, solo_memcpy_rows, renumber, finish_trace, build_seq_trace,
}

renumber-op_ids :
    (n : ℕ) (rows : List TraceRow)
    → map (λ (r : TraceRow). r.op_id) (renumber n rows) ≡ range_from n (length rows)
unfolding renumber
renumber-op_ids n [] = refl
renumber-op_ids n (row ∷ rows) = ap (◌∷◌ n) (renumber-op_ids (suc n) rows)

length-renumber : (n : ℕ) (rows : List TraceRow) → length (renumber n rows) ≡ length rows
unfolding renumber
length-renumber n [] = refl
length-renumber n (row ∷ rows) = ap suc (length-renumber (suc n) rows)

All-renumber :
    (a : ℤ) (n : ℕ) (rows : List TraceRow)
    → All (λ r. a ≤ℤ gpu_key r) rows
    → All (λ r. a ≤ℤ gpu_key r) (renumber n rows)
unfolding renumber
All-renumber a n [] h = tt
All-renumber a n (row ∷ rows) h = (h.0, All-renumber a (suc n) rows h.1)

renumber-IsAscending :
    (n : ℕ) (rows : List TraceRow)
    → IsAscending gpu_key rows
    → IsAscending gpu_key (renumber n rows)
unfolding renumber
renumber-IsAscending n [] h = tt
renumber-IsAscending n (row ∷ rows) h =
    (All-renumber (gpu_key row) (suc n) rows h.0, renumber-IsAscending (suc n) rows h.1)

-- What a row says of the GPU's work: the record's id, stream and name, the launch, the start and the
-- end. The `op_id` is not among it.
pub record Shown : Type 0 where
  pub kind : OpKind
  pub correlation : ℕ
  pub raw_name : String
  pub bytes : ℕ
  pub stream : Option ℕ
  pub launched : Option ℤ
  pub started : Option ℤ
  pub ended : Option ℤ

abbrev pub shown : TraceRow → Shown
shown r = record {
  kind = r.kind;
  correlation = r.correlation;
  raw_name = r.raw_name;
  bytes = r.bytes;
  stream = r.gpu_stream;
  launched = r.t_issue_ns;
  started = r.t_gpu_start_ns;
  ended = r.t_gpu_end_ns;
}

map-shown-renumber : (n : ℕ) (rows : List TraceRow) → map shown (renumber n rows) ≡ map shown rows
unfolding renumber
map-shown-renumber n [] = refl
map-shown-renumber n (row ∷ rows) = ap (◌∷◌ (shown row)) (map-shown-renumber (suc n) rows)

module _ (md : SoloData) where
  -- A time of the GPU on the host's clock, in ns.
  abbrev pub on_host : ℕ → ℤ
  on_host t = int_ns md.clock (to_mono md.clock t)

  -- The record starts neither before the window nor after it.
  abbrev pub starts_inside : ℕ → Bool
  starts_inside t =
      leb_ℤ (pos (md.window_start * md.clock.unit)) (to_mono md.clock t)
      && leb_ℤ (to_mono md.clock t) (pos (md.window_end * md.clock.unit))

  abbrev pub kept_kernels : List KernelRecord
  kept_kernels = select (λ k. starts_inside k.start_ns) (rows_or_none md.kernels)

  abbrev pub kept_memcpys : List MemcpyRecord
  kept_memcpys = select (λ g. starts_inside g.start_ns) (rows_or_none md.memcpys)

  abbrev pub without_record : List KernelRecord → List KernelRecord
  without_record = select (λ k. is_none (launch_time md k.correlation))

  abbrev pub shown_kernel : KernelRecord → Shown
  shown_kernel k = record {
    kind = kernel_launch;
    correlation = k.correlation;
    raw_name = k.name;
    bytes = 0;
    stream = some k.stream;
    launched = launch_time md k.correlation;
    started = some (on_host k.start_ns);
    ended = some (on_host k.end_ns);
  }

  abbrev pub shown_memcpy : MemcpyRecord → Shown
  shown_memcpy g = record {
    kind = memcpy_async;
    correlation = g.correlation;
    raw_name = "";
    bytes = g.bytes;
    stream = some g.stream;
    launched = launch_time md g.correlation;
    started = some (on_host g.start_ns);
    ended = some (on_host g.end_ns);
  }

  in_window_lem : (t : ℕ) → in_window md t ≡ starts_inside t
  unfolding in_window
  in_window_lem t = ground arith

  solo_kernel_rows_lem :
      (n : ℕ) (ks : List KernelRecord)
      → let kept = select (λ k. starts_inside k.start_ns) ks in
        (map shown (solo_kernel_rows md n ks).0 ≡ map shown_kernel kept)
        × ((solo_kernel_rows md n ks).1 ≡ length (without_record kept))
  unfolding solo_kernel_rows solo_kernel_row
  solo_kernel_rows_lem n [] = (refl, refl)
  solo_kernel_rows_lem n (k ∷ ks) = elim (Bool-cases (starts_inside k.start_ns)) [
    | inl e ↦
        let i = in_window_lem k.start_ns ∙ e in
        let (a, b) = solo_kernel_rows_lem (suc n) ks in
        rw (i, e) (ap (◌∷◌ (shown_kernel k)) a, ground (arith, b))
    | inr e ↦ let i = in_window_lem k.start_ns ∙ e in rw (i, e) (solo_kernel_rows_lem n ks)
  ]

  solo_memcpy_rows_lem :
      (n : ℕ) (gs : List MemcpyRecord)
      → map shown (solo_memcpy_rows md n gs)
        ≡ map shown_memcpy (select (λ g. starts_inside g.start_ns) gs)
  unfolding solo_memcpy_rows solo_memcpy_row
  solo_memcpy_rows_lem n [] = refl
  solo_memcpy_rows_lem n (g ∷ gs) = elim (Bool-cases (starts_inside g.start_ns)) [
    | inl e ↦
        let i = in_window_lem g.start_ns ∙ e in
        rw (i, e) (ap (◌∷◌ (shown_memcpy g)) (solo_memcpy_rows_lem (suc n) gs))
    | inr e ↦ let i = in_window_lem g.start_ns ∙ e in rw (i, e) (solo_memcpy_rows_lem n gs)
  ]

module _ (S : Sorting) (md : SoloData) where
  finish_trace-eq-returns :
      (rows : List TraceRow) (n : ℕ) (trace : List TraceRow) (no_rt : ℕ)
      → finish_trace S rows n ≡ returns (trace, no_rt)
      → (no_rt ≡ n) × (trace ≡ renumber 0 (S.sort_values TraceRow gpu_key rows))
  finish_trace-eq-returns [] n trace no_rt h = cc
  finish_trace-eq-returns (row ∷ rows) n trace no_rt h = ground arith

  -- An observer-only trace that is returned has exactly one row for each kernel and each memcpy record
  -- whose start, on the host's clock, is inside the mode's window, bounds included. The row has the
  -- record's id, stream and name or size, its start and end on that clock, and its launch time. The
  -- rows are in ascending order of GPU start, and `op_id` is a row's place. `driver_api_kernels` is
  -- the number of those kernels that have no launch time.
  pub build_seq_trace-rows :
      (trace : List TraceRow) (no_rt : ℕ)
      → build_seq_trace S md ≡ returns (trace, no_rt)
      → Perm
          (map shown trace)
          (map (shown_kernel md) (kept_kernels md) ++ map (shown_memcpy md) (kept_memcpys md))
        × IsAscending gpu_key trace
        × (map (λ (r : TraceRow). r.op_id) trace ≡ range_from 0 (length trace))
        × (no_rt ≡ length (without_record md (kept_kernels md)))
  unfolding build_seq_trace
  build_seq_trace-rows trace no_rt h =
      let kernel_part = solo_kernel_rows md 0 (rows_or_none md.kernels) in
      let memcpy_part = solo_memcpy_rows md (length kernel_part.0) (rows_or_none md.memcpys) in
      let all_rows = kernel_part.0 ++ memcpy_part in
      let sorted = S.sort_values TraceRow gpu_key all_rows in
      let e = finish_trace-eq-returns all_rows kernel_part.1 trace no_rt h in
      let kernels = solo_kernel_rows_lem md 0 (rows_or_none md.kernels) in
      let memcpys = solo_memcpy_rows_lem md (length kernel_part.0) (rows_or_none md.memcpys) in
      rw e.1 (
        rw (map-shown-renumber 0 sorted, ← kernels.0, ← memcpys, ← map-append)
            (Perm.map shown (S.sort_values-perm TraceRow gpu_key all_rows)),
        renumber-IsAscending 0 sorted (S.sort_values-IsAscending TraceRow gpu_key all_rows),
        rw (length-renumber 0 sorted) (renumber-op_ids 0 sorted),
        e.0 ∙ kernels.1,
      )
