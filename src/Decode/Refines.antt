-- ===== src/Decode/Refines.antt =====
-- A decoder does what its abstract view says.
use cuda_schedule_project.Prelude.{ℕ, suc, ◌≡◌, refl, Option, none, some, List, [], ◌∷◌, arith}
use cuda_schedule_project.Prelude.Outcome.{Outcome, returns}
use cuda_schedule_project.Decode.{
  Decoder, DecodeError, Llm, Pending, Prefilled, alloc, drain, setup, restore, keep_snapshot,
  load_snapshot, new_decoder, default_iters,
}
use cuda_schedule_project.Decode.Methods.{calibrate}
use cuda_schedule_project.Workload as Base
use cuda_schedule_project.Decode.Passes.{
  Tracks, reset_from-Tracks, drain-Tracks, run_iter-Passed, run_iter_sync-Passed,
}
use cuda_schedule_project.Decode.Cells.{alloc_new}
use cuda_schedule_project.Decode.Tokens.{
  Call, iteration, synced, drained, calibrated, tokens, perform, perform_all, snapshot_of,
}

module _ {Cache Logits Blob : Type 0} (llm : Llm Cache Logits Blob) where
  keep_snapshot-Tracks :
      (how : Prefilled) (snap : Cache × List ℕ) (d : Decoder Cache Logits) (n : ℕ)
      → d.base.iters ≡ some n
      → Tracks llm snap 0 (keep_snapshot llm how snap d)
  unfolding keep_snapshot alloc
  keep_snapshot-Tracks how snap d n e =
      let (heap, r) = alloc snap.0 d.heap in
      let kept : Pending = record { cache = r; tok = snap.1 } in
      let start : Decoder Cache Logits = record d {
        prefilled = some how;
        heap = heap;
        snapshot = some kept;
      } in
      reset_from-Tracks llm snap start kept n e refl (omega arith) (alloc_new snap.0 d.heap) refl

  restore-Tracks :
      (disk : Option Blob) (found : Option (Cache × List ℕ)) (d : Decoder Cache Logits) (n : ℕ)
      → d.base.iters ≡ some n
      → Tracks llm (snapshot_of llm found) 0 (restore llm disk found d).0
  unfolding restore snapshot_of
  restore-Tracks disk none d n e = keep_snapshot-Tracks _ _ d n e
  restore-Tracks disk (some snap) d n e = keep_snapshot-Tracks _ snap d n e

  pub setup-Tracks :
      (iters : Option ℕ) (clock : ℕ) (disk : Option Blob)
      → Tracks llm
          (snapshot_of llm (load_snapshot llm disk))
          0
          (setup llm clock disk (new_decoder llm iters)).0
  unfolding setup new_decoder Base.new_workload
  setup-Tracks iters clock disk = restore-Tracks disk _ _ (default_iters iters) refl

  calibrate_forced :
      (gpu : ℕ → ℕ) (target elapsed : ℕ) (d : Decoder Cache Logits) (n : ℕ)
      → d.base.iters ≡ some n
      → Path
          (Outcome DecodeError (Decoder Cache Logits))
          (calibrate llm gpu target elapsed d)
          (returns d)
  unfolding calibrate
  calibrate_forced gpu target elapsed d n e = rw e refl

  module _ (gpu : ℕ → ℕ) where
    abbrev pub Follows : Cache × List ℕ → ℕ → List Call → Decoder Cache Logits → Type 0
    Follows snap k calls d =
        (d' : Decoder Cache Logits) × Path
          (Outcome DecodeError (Decoder Cache Logits × List (List ℕ))) (perform_all llm gpu calls d)
          (returns (d', tokens llm snap k calls))

    pub perform_all-Follows :
        (snap : Cache × List ℕ) (k : ℕ) (calls : List Call) (d : Decoder Cache Logits)
        → Tracks llm snap k d
        → Follows snap k calls d
    unfolding perform_all perform tokens
    perform_all-Follows snap k [] d v = (d, refl)
    perform_all-Follows snap k (iteration ∷ calls) d v =
        let (d', e, t) = run_iter-Passed llm gpu snap k d v in
        let (last, rest) = perform_all-Follows snap (suc k) calls d' t in (last, rw (e, rest) refl)
    perform_all-Follows snap k (synced ∷ calls) d v =
        let (d', e, t, fin) = run_iter_sync-Passed llm gpu snap k d v in
        let (last, rest) = perform_all-Follows snap 0 calls d' t in (last, rw (e, rest) refl)
    perform_all-Follows snap k (drained ∷ calls) d v =
        let (last, rest) =
          perform_all-Follows snap 0 calls (drain llm d) (drain-Tracks llm snap k d v) in
        (last, rw rest refl)
    perform_all-Follows snap k (calibrated target elapsed ∷ calls) d v =
        let (last, rest) = perform_all-Follows snap k calls d v in
        (last, rw (calibrate_forced gpu target elapsed d v.forced v.iters_is, rest) refl)

    -- After `setup`, whatever the file of the snapshot holds, calls of the workload's methods in any
    -- order return, and return the tokens of the abstract view: an iteration that is the k-th since the
    -- last `drain` or `run_iter_sync` returns token k of the greedy decode from the snapshot, though each
    -- pass changes the cache that it is given.
    pub setup-decodes :
        (iters : Option ℕ) (clock : ℕ) (disk : Option Blob) (calls : List Call)
        → Follows
            (snapshot_of llm (load_snapshot llm disk))
            0
            calls
            (setup llm clock disk (new_decoder llm iters)).0
    setup-decodes iters clock disk calls =
        perform_all-Follows _ 0 calls _ (setup-Tracks iters clock disk)
