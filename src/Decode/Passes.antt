-- ===== src/Decode/Passes.antt =====
-- What a pass and a drain do to the caches: the snapshot stays, whatever passes change the cache.
use cuda_schedule_project.Prelude.{
  ℕ, suc, ◌<◌, ◌≡◌, ◌≢◌, refl, Option, none, some, List, ◌∷◌, [], arith, ◌∙◌, sym, subst, inl, inr,
  Bool-cases, leb, length,
}
use cuda_schedule_project.Prelude.Outcome.{Outcome, returns}
use cuda_schedule_project.Decode.{
  Decoder, DecodeError, Llm, Pending, alloc, attribute, reset_from, reset_if, decode_pass,
  launch_iter, drain,
}
use cuda_schedule_project.Decode.Methods.{run_iter, run_iter_sync}
use cuda_schedule_project.Workload as Base
use cuda_schedule_project.Decode.Cells.{alloc_new, alloc_old, write_same, write_other}
use cuda_schedule_project.Decode.Tokens.{after}

oldest-iters : (events : List ℕ) (w : Base.Workload) → (Base.wait_oldest events w).iters ≡ w.iters
unfolding Base.wait_oldest
oldest-iters [] w = refl
oldest-iters (oldest ∷ events) w = refl

admit-iters : (w : Base.Workload) → (Base.admit w).iters ≡ w.iters
unfolding Base.admit
admit-iters w = elim (Bool-cases (leb Base.depth (length w.events))) [
  | inl e ↦ rw e (oldest-iters w.events w)
  | inr e ↦ rw e refl
]

kept_iters : (gpu : ℕ → ℕ) (w : Base.Workload) → (Base.run_iter gpu w).0.iters ≡ w.iters
unfolding Base.run_iter Base.record_event Base.launch_iter
kept_iters gpu w = admit-iters w

module _ {Cache Logits Blob : Type 0} (llm : Llm Cache Logits Blob) where
  -- The decoder has the snapshot, is `k` passes past it, and the two caches are different cells.
  pub record Tracks (snap : Cache × List ℕ) (k : ℕ) (d : Decoder Cache Logits) : Type 0 where
    pub kept : Pending
    pub now : Pending
    pub forced : ℕ
    pub iters_is : d.base.iters ≡ some forced
    pub snapshot_is : d.snapshot ≡ some kept
    pub live_is : d.live ≡ some now
    pub kept_lt : kept.cache < d.heap.next
    pub now_lt : now.cache < d.heap.next
    pub apart : kept.cache ≢ now.cache
    pub kept_cell : d.heap.cells kept.cache ≡ snap.0
    pub kept_tok : kept.tok ≡ snap.1
    pub now_cell : d.heap.cells now.cache ≡ (after llm snap k).0
    pub now_tok : now.tok ≡ (after llm snap k).1

  pub reset_from-Tracks :
      (snap : Cache × List ℕ) (d : Decoder Cache Logits) (kept : Pending) (n : ℕ)
      → d.base.iters ≡ some n
      → d.snapshot ≡ some kept
      → kept.cache < d.heap.next
      → d.heap.cells kept.cache ≡ snap.0
      → kept.tok ≡ snap.1
      → Tracks snap 0 (reset_from llm kept d)
  unfolding reset_from alloc after
  reset_from-Tracks snap d kept n i s l c t = record {
    kept = kept;
    now = record { cache = d.heap.next; tok = kept.tok };
    forced = n;
    iters_is = i;
    snapshot_is = s;
    live_is = refl;
    kept_lt = omega arith;
    now_lt = omega arith;
    apart = λ e. omega arith;
    kept_cell = alloc_old (d.heap.cells kept.cache) d.heap kept.cache l ∙ c;
    kept_tok = t;
    now_cell = alloc_new (d.heap.cells kept.cache) d.heap ∙ c;
    now_tok = t;
  }

  reset_if_lem :
      (o : Option Pending) (kept : Pending) (d : Decoder Cache Logits)
      → o ≡ some kept
      → reset_if llm o d ≡ reset_from llm kept d
  unfolding reset_if
  reset_if_lem o kept d e = rw e refl

  pub drain-Tracks :
      (snap : Cache × List ℕ) (k : ℕ) (d : Decoder Cache Logits)
      → Tracks snap k d
      → Tracks snap 0 (drain llm d)
  unfolding drain reset_if Base.drain
  drain-Tracks snap k d v = subst (Tracks snap 0) (sym (reset_if_lem _ _ _ v.snapshot_is)) (
      reset_from-Tracks snap (record d { base = Base.drain d.base }) v.kept v.forced v.iters_is
        v.snapshot_is v.kept_lt v.kept_cell v.kept_tok)

  -- One pass: the object after it, and the token.
  record Passed (snap : Cache × List ℕ) (k : ℕ) (d : Decoder Cache Logits) : Type 0 where
    after_pass : Decoder Cache Logits
    passes :
        Path
          (Outcome DecodeError (Decoder Cache Logits × List ℕ))
          (launch_iter llm d)
          (returns (after_pass, (after llm snap (suc k)).1))
    tracks : Tracks snap (suc k) after_pass
    finite_of : after_pass.logits ≡ some (llm.forward (after llm snap k).1 (after llm snap k).0).0

  launch_iter-Passed :
      (snap : Cache × List ℕ) (k : ℕ) (d : Decoder Cache Logits) → Tracks snap k d → Passed snap k d
  unfolding launch_iter attribute decode_pass after
  launch_iter-Passed snap k d v = record {
    after_pass = (decode_pass llm v.now d).0;
    passes = rw (v.live_is, v.now_tok, v.now_cell) refl;
    tracks = record {
      kept = v.kept;
      now = record { cache = v.now.cache; tok = (decode_pass llm v.now d).1 };
      forced = v.forced;
      iters_is = v.iters_is;
      snapshot_is = v.snapshot_is;
      live_is = refl;
      kept_lt = v.kept_lt;
      now_lt = v.now_lt;
      apart = v.apart;
      kept_cell = write_other _ d.heap v.kept.cache v.now.cache v.apart ∙ v.kept_cell;
      kept_tok = v.kept_tok;
      now_cell = write_same _ d.heap v.now.cache ∙ rw (v.now_tok, v.now_cell) refl;
      now_tok = rw (v.now_tok, v.now_cell) refl;
    };
    finite_of = rw (v.now_tok, v.now_cell) refl;
  }

  with_base-Tracks :
      (snap : Cache × List ℕ) (k n : ℕ) (d : Decoder Cache Logits) (base : Base.Workload)
      → base.iters ≡ some n
      → Tracks snap k d
      → Tracks snap k (record d { base = base })
  with_base-Tracks snap k n d base e v = record {
    kept = v.kept;
    now = v.now;
    forced = n;
    iters_is = e;
    snapshot_is = v.snapshot_is;
    live_is = v.live_is;
    kept_lt = v.kept_lt;
    now_lt = v.now_lt;
    apart = v.apart;
    kept_cell = v.kept_cell;
    kept_tok = v.kept_tok;
    now_cell = v.now_cell;
    now_tok = v.now_tok;
  }

  reset_keeps :
      (o : Option Pending) (d : Decoder Cache Logits) → (reset_if llm o d).logits ≡ d.logits
  unfolding reset_if reset_from alloc
  reset_keeps none d = refl
  reset_keeps (some kept) d = refl

  drain-logits : (d : Decoder Cache Logits) → (drain llm d).logits ≡ d.logits
  unfolding drain Base.drain
  drain-logits d = reset_keeps d.snapshot (record d { base = Base.drain d.base })

  -- One call, as the abstract view has it: the passes since the snapshot, and the tokens.
  module _ (gpu : ℕ → ℕ) where
    pub run_iter-Passed :
        (snap : Cache × List ℕ) (k : ℕ) (d : Decoder Cache Logits)
        → Tracks snap k d
        → (d' : Decoder Cache Logits) × Path
            (Outcome DecodeError (Decoder Cache Logits × List ℕ))
            (run_iter llm gpu d)
            (returns (d', (after llm snap (suc k)).1))
          × Tracks snap (suc k) d'
    unfolding run_iter
    run_iter-Passed snap k d v =
        let p = launch_iter-Passed snap k d v in
        let base = (Base.run_iter gpu d.base).0 in
        let d' : Decoder Cache Logits = record p.after_pass { base = base } in
        (
          d',
          rw p.passes refl,
          with_base-Tracks snap (suc k) v.forced p.after_pass base
              (kept_iters gpu d.base ∙ v.iters_is) p.tracks,
        )

    pub run_iter_sync-Passed :
        (snap : Cache × List ℕ) (k : ℕ) (d : Decoder Cache Logits)
        → Tracks snap k d
        → (d' : Decoder Cache Logits) × Path
            (Outcome DecodeError (Decoder Cache Logits × List ℕ))
            (run_iter_sync llm gpu d)
            (returns (d', (after llm snap 1).1))
          × Tracks snap 0 d'
          × (d'.logits ≡ some (llm.forward snap.1 snap.0).0)
    unfolding run_iter_sync Base.launch_iter after
    run_iter_sync-Passed snap k d v =
        let p = launch_iter-Passed snap 0 (drain llm d) (drain-Tracks snap k d v) in
        let fresh = drain-Tracks snap k d v in
        let base = (Base.launch_iter gpu (drain llm d).base).0 in
        let passed : Decoder Cache Logits = record p.after_pass { base = base } in
        (
          drain llm passed,
          rw p.passes refl,
          drain-Tracks snap 1 passed
              (with_base-Tracks snap 1 fresh.forced p.after_pass base fresh.iters_is p.tracks),
          drain-logits passed ∙ p.finite_of,
        )
