-- ===== src/Decode/Methods.antt =====
-- The base class's methods and `check`, on a decoder.
use cuda_schedule_project.Prelude.{ℕ, zero, suc, Bool, ◌&&◌, none, some, List, ◌==◌, leb, ltb}
use cuda_schedule_project.Prelude.Outcome.{Outcome, returns, ◌>>=◌}
use cuda_schedule_project.Workload.{depth, calibrate_probes, calibrated_iters}
use cuda_schedule_project.Workload as Base
use cuda_schedule_project.Decode.{Decoder, DecodeError, Llm, launch_iter, drain, item, attribute}

module _ {Cache Logits Blob : Type 0} (llm : Llm Cache Logits Blob) where
  -- The base class's methods on this class, for a GPU that has ended `gpu n` of the iterations in
  -- flight by the time that the n-th launch returns.
  module _ (gpu : ℕ → ℕ) where
    unfoldable pub run_iter :
        Decoder Cache Logits → Outcome DecodeError (Decoder Cache Logits × List ℕ)
    unfolding launch_iter
    run_iter d = launch_iter llm d >>= λ res.
        let (d', tok) = res in returns (record d' { base = (Base.run_iter gpu d.base).0 }, tok)

    unfoldable pub run_iter_sync :
        Decoder Cache Logits → Outcome DecodeError (Decoder Cache Logits × List ℕ)
    unfolding launch_iter drain
    run_iter_sync d = launch_iter llm (drain llm d) >>= λ res.
        let (d', tok) = res in
        let base = (Base.launch_iter gpu (drain llm d).base).0 in
        returns (drain llm (record d' { base = base }), tok)

    -- `for _ in range(n): self.run_iter()`
    unfoldable pub run_iters : ℕ → Decoder Cache Logits → Outcome DecodeError (Decoder Cache Logits)
    unfolding run_iter
    run_iters zero d = returns d
    run_iters (suc n) d = run_iter d >>= λ res. run_iters n res.0

    -- `calibrate`, with the time that the block of probes took, in ns. Only an object whose `iters` is
    -- `None` measures.
    unfoldable pub calibrate :
        ℕ → ℕ → Decoder Cache Logits → Outcome DecodeError (Decoder Cache Logits)
    unfolding run_iters drain
    calibrate target elapsed d = elim d.base.iters [
      | some n ↦ returns d
      | none ↦ do
        filled ← run_iters depth d
        measured ← run_iters calibrate_probes filled
        returns (
            let drained = drain llm measured in
            record drained {
              base = record drained.base { iters = some (calibrated_iters target elapsed) };
            })
    ]

-- `check`: two tokens, each from the snapshot, and the first one's logits. `again` is what torch
-- computes in the second pass: the GPU may not compute there what it has in the first.
unfoldable pub check :
    {Cache Logits Blob : Type 0}
    → (llm again : Llm Cache Logits Blob) → (ℕ → ℕ)
    → Decoder Cache Logits
    → Outcome DecodeError Bool
check llm again gpu d = do
  first ← run_iter_sync llm gpu d
  t1 ← item first.1
  logits ← attribute first.0.logits
  second ← run_iter_sync again gpu first.0
  t2 ← item second.1
  returns (llm.is_finite logits && (t1 == t2) && leb 0 t1 && ltb t1 llm.vocab_size)
