-- ===== src/Decode/Checked.antt =====
-- `check`: decoding from the snapshot gives the same token again.
use cuda_schedule_project.Prelude.{ℕ, ◌≡◌, ap, Option, Bool, ◌&&◌, List, ltb, leb, ◌==◌, arith}
use cuda_schedule_project.Prelude.Outcome.{Outcome, returns}
use cuda_schedule_project.Decode.{
  Decoder, DecodeError, Llm, setup, new_decoder, load_snapshot, item, attribute,
}
use cuda_schedule_project.Decode.Methods.{check}
use cuda_schedule_project.Decode.Passes.{Tracks, run_iter_sync-Passed}
use cuda_schedule_project.Decode.Refines.{setup-Tracks}
use cuda_schedule_project.Decode.Tokens.{after, snapshot_of}

above_zero :
    (finite same small : Bool) (t : ℕ)
    → (finite && same && leb 0 t && small) ≡ (finite && same && small)
above_zero finite same small t = ground arith

module _ {Cache Logits Blob : Type 0} (llm again : Llm Cache Logits Blob) (gpu : ℕ → ℕ) where
  -- The token and the logits of the first pass from a snapshot, as a GPU computes them.
  abbrev pub first_logits : Llm Cache Logits Blob → Cache × List ℕ → Logits
  first_logits on snap = (on.forward snap.1 snap.0).0

  abbrev pub first_token : Llm Cache Logits Blob → Cache × List ℕ → ℕ
  first_token on snap = on.argmax (first_logits on snap)

  -- At the snapshot itself no pass has been computed.
  Tracks-again :
      (snap : Cache × List ℕ) (d : Decoder Cache Logits)
      → Tracks llm snap 0 d
      → Tracks again snap 0 d
  unfolding after
  Tracks-again snap d v = record {
    kept = v.kept;
    now = v.now;
    forced = v.forced;
    iters_is = v.iters_is;
    snapshot_is = v.snapshot_is;
    live_is = v.live_is;
    kept_lt = v.kept_lt;
    now_lt = v.now_lt;
    apart = v.apart;
    kept_cell = v.kept_cell;
    kept_tok = v.kept_tok;
    now_cell = v.now_cell;
    now_tok = v.now_tok;
  }

  -- Whether the first logits are finite, and the two tokens are the same one, of the vocabulary.
  abbrev pub is_repeated : Cache × List ℕ → Bool
  is_repeated snap =
      llm.is_finite (first_logits llm snap)
      && (first_token llm snap == first_token again snap)
      && ltb (first_token llm snap) llm.vocab_size

  Tracks-check :
      (snap : Cache × List ℕ) (k : ℕ) (d : Decoder Cache Logits)
      → Tracks llm snap k d
      → Path (Outcome DecodeError Bool) (check llm again gpu d) (returns (is_repeated snap))
  unfolding check item attribute after
  Tracks-check snap k d v =
      let (d', e, t, l) = run_iter_sync-Passed llm gpu snap k d v in
      let (d'', e', t', l') = run_iter_sync-Passed again gpu snap 0 d' (Tracks-again snap d' t) in
      rw (e, l, e')
        (ap returns (
          above_zero (llm.is_finite (first_logits llm snap))
            (first_token llm snap == first_token again snap)
            (ltb (first_token llm snap) llm.vocab_size) (first_token llm snap)))

  -- After `setup`, whatever the file of the snapshot holds and whatever the GPU computes in the
  -- second pass, `check` returns. Its answer is whether the first pass from the snapshot has finite
  -- logits and a token of the vocabulary, and the second pass, from the same snapshot, has that token.
  pub check-setup :
      (iters : Option ℕ) (clock : ℕ) (disk : Option Blob)
      → Path
          (Outcome DecodeError Bool)
          (check llm again gpu (setup llm clock disk (new_decoder llm iters)).0)
          (returns (is_repeated (snapshot_of llm (load_snapshot llm disk))))
  check-setup iters clock disk = Tracks-check _ 0 _ (setup-Tracks llm iters clock disk)
