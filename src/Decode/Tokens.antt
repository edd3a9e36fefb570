-- ===== src/Decode/Tokens.antt =====
-- The abstract view of a decoder: its snapshot and the passes since it was restored.
use cuda_schedule_project.Prelude.{ℕ, zero, suc, Option, none, some, List, [], ◌∷◌, ◌++◌}
use cuda_schedule_project.Prelude.Outcome.{Outcome, returns, ◌>>=◌}
use cuda_schedule_project.Decode.{Decoder, DecodeError, Llm, drain, prefill}
use cuda_schedule_project.Decode.Methods.{run_iter, run_iter_sync, calibrate}

-- A call of a method of the workload.
pub data Call : Type 0 where
  iteration : Call
  synced : Call
  drained : Call
  calibrated : (target elapsed : ℕ) → Call

module _ {Cache Logits Blob : Type 0} (llm : Llm Cache Logits Blob) where
  -- The cache and the token after `k` greedy passes from a snapshot.
  unfoldable pub after : Cache × List ℕ → ℕ → Cache × List ℕ
  after snap zero = snap
  after snap (suc k) =
      let (c, tok) = after snap k in
      let (logits, grown) = llm.forward tok c in (grown, llm.argmax logits ∷ [])

  -- The tokens that calls return, when `k` passes were made since the snapshot was restored.
  unfoldable pub tokens : Cache × List ℕ → ℕ → List Call → List (List ℕ)
  unfolding after
  tokens snap k [] = []
  tokens snap k (iteration ∷ calls) = (after snap (suc k)).1 ∷ tokens snap (suc k) calls
  tokens snap k (synced ∷ calls) = (after snap 1).1 ∷ tokens snap 0 calls
  tokens snap k (drained ∷ calls) = tokens snap 0 calls
  tokens snap k (calibrated target elapsed ∷ calls) = tokens snap k calls

  -- The snapshot that `setup` has: the file's, if it can be read, or a new one.
  unfoldable pub snapshot_of : Option (Cache × List ℕ) → Cache × List ℕ
  snapshot_of (some snap) = snap
  snapshot_of none = prefill llm

  module _ (gpu : ℕ → ℕ) where
    -- One call on the object, with the tokens that it returns.
    unfoldable pub perform :
        Call → Decoder Cache Logits → Outcome DecodeError (Decoder Cache Logits × List (List ℕ))
    perform iteration d = run_iter llm gpu d >>= λ res. returns (res.0, res.1 ∷ [])
    perform synced d = run_iter_sync llm gpu d >>= λ res. returns (res.0, res.1 ∷ [])
    perform drained d = returns (drain llm d, [])
    perform (calibrated target elapsed) d =
        calibrate llm gpu target elapsed d >>= λ d'. returns (d', [])

    unfoldable pub perform_all :
        List Call
        → Decoder Cache Logits
        → Outcome DecodeError (Decoder Cache Logits × List (List ℕ))
    unfolding perform
    perform_all [] d = returns (d, [])
    perform_all (c ∷ calls) d =
        perform c d >>= λ res. perform_all calls res.0 >>= λ rest. returns (rest.0, res.1 ++ rest.1)
