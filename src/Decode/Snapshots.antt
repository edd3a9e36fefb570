-- ===== src/Decode/Snapshots.antt =====
-- The snapshot on disk: what the first `setup` saves is what later ones load.
use cuda_schedule_project.Prelude.{ℕ, ◌≡◌, refl, subst, Option, none, some, List}
use cuda_schedule_project.Decode.{
  Llm, loaded_snapshot, prefilled_and_saved, setup, restore, keep_snapshot, load_snapshot,
  new_decoder, prefill,
}
use cuda_schedule_project.Decode.Refines.{Follows, setup-decodes}
use cuda_schedule_project.Decode.Tokens.{Call, snapshot_of}

module _ {Cache Logits Blob : Type 0} (llm : Llm Cache Logits Blob) (gpu : ℕ → ℕ) where
  -- When `torch.load` gives back what `torch.save` was given: without a file `setup` prefills and
  -- writes one; a later `setup` on that file loads it and leaves it as it is; and calls of the
  -- methods in any order return the same tokens after either.
  pub setup-round_trip :
      ((snap : Cache × List ℕ) → llm.load (llm.save snap) ≡ some snap)
      → (iters : Option ℕ) (clock later : ℕ) (calls : List Call)
      → let first = setup llm clock none (new_decoder llm iters) in
        let again = setup llm later first.1 (new_decoder llm iters) in
        (first.0.prefilled ≡ some prefilled_and_saved)
        × (again.0.prefilled ≡ some loaded_snapshot)
        × (again.1 ≡ first.1)
        × Follows llm gpu (prefill llm) 0 calls first.0
        × Follows llm gpu (prefill llm) 0 calls again.0
  unfolding setup restore keep_snapshot load_snapshot snapshot_of
  setup-round_trip law iters clock later calls =
      let saved = some (llm.save (prefill llm)) in
      let e = law (prefill llm) in
      (
        refl,
        rw e refl,
        rw e refl,
        setup-decodes llm gpu iters clock none calls,
        subst
            (λ found.
              Follows llm gpu (snapshot_of llm found) 0 calls
                (setup llm later saved (new_decoder llm iters)).0)
            e (setup-decodes llm gpu iters later saved calls),
      )
