-- ===== src/Decode.antt =====
-- `LlmDecodeClient` of colocator/demo/workload_defs/llmdecode.py: decode passes of a language model
-- from a snapshot of its key-value cache, which every `drain` restores.
--
-- torch and transformers are not the program's. The model's forward pass, the seeded prompt and the
-- pickle of the snapshot are arguments. A pass changes the cache that it is given, in place, so
-- caches live in a heap, where a name of the source holds a reference; `deepcopy` makes a new cell.
-- A tensor of tokens is the list of its tokens. Each tensor is written when it is made; the
-- reads wait for it, since one stream runs all the work in order.
pub mod Cells
pub mod Methods
pub mod Tokens
pub mod Snapshots
pub mod Passes
pub mod Refines
pub mod Checked
pub mod Examples
use cuda_schedule_project.Prelude.{
  ℕ, zero, suc, ◌-◌, Option, none, some, Bool, false, ◌&&◌, List, [], ◌∷◌, ◌==◌, leb, ltb, take,
  drop, if◌then◌else◌,
}
use cuda_schedule_project.Prelude.Outcome.{Outcome, raises, returns, ◌>>=◌}
use cuda_schedule_project.Workload.{
  Workload, new_workload, depth, calibrate_probes, calibrated_iters,
}
use cuda_schedule_project.Workload as Base

abbrev pub cache_tokens : ℕ
cache_tokens = 64

abbrev pub decode_steps : ℕ
decode_steps = 3

-- `AttributeError` of an attribute that `setup` has not made, and `ValueError` of `.item()` on a
-- tensor that does not have one element.
pub data DecodeError : Type 0 where
  no_attribute : DecodeError
  not_one_element : DecodeError

pub data Prefilled : Type 0 where
  loaded_snapshot : Prefilled
  prefilled_and_saved : Prefilled

-- The caches in the heap.
pub record Heap (Cache : Type 0) : Type 0 where
  pub cells : ℕ → Cache
  pub next : ℕ

unfoldable pub alloc : {Cache : Type 0} → Cache → Heap Cache → Heap Cache × ℕ
alloc c h =
    (record { cells = λ r. if r == h.next then c else h.cells r; next = suc h.next }, h.next)

unfoldable pub write : {Cache : Type 0} → ℕ → Cache → Heap Cache → Heap Cache
write r c h = record { cells = λ q. if q == r then c else h.cells q; next = h.next }

-- A cache and the token that the next pass takes: `_snap_cache` and `_snap_tok`, or `cache` and
-- `next_tok`.
pub record Pending : Type 0 where
  pub cache : ℕ
  pub tok : List ℕ

-- The attributes that `setup` makes are `none` before it.
pub record Decoder (Cache Logits : Type 0) : Type 0 where
  pub base : Workload
  pub load_done : Option ℕ
  pub prefilled : Option Prefilled
  pub heap : Heap Cache
  pub snapshot : Option Pending
  pub live : Option Pending
  pub logits : Option Logits

-- `__init__`: `decode_steps` iterations unless the caller forces a number of them.
unfoldable pub default_iters : Option ℕ → ℕ
default_iters none = decode_steps
default_iters (some n) = n

-- `.item()` of a tensor
unfoldable pub item : List ℕ → Outcome DecodeError ℕ
item [] = raises not_one_element
item (t ∷ []) = returns t
item (t ∷ u ∷ rest) = raises not_one_element

-- An attribute of the object.
unfoldable pub attribute : {A : Type 0} → Option A → Outcome DecodeError A
attribute none = raises no_attribute
attribute (some a) = returns a

-- What torch and transformers do. A pass on the tokens and a cache leads to the logits of the last
-- token and the cache with the tokens' entries.
pub record Llm (Cache Logits Blob : Type 0) : Type 0 where
  pub empty : Cache
  pub forward : List ℕ → Cache → Logits × Cache
  pub argmax : Logits → ℕ
  pub is_finite : Logits → Bool
  pub vocab_size : ℕ
  pub prompt : ℕ → ℕ → List ℕ
  pub load : Blob → Option (Cache × List ℕ)
  pub save : Cache × List ℕ → Blob

module _ {Cache Logits Blob : Type 0} (llm : Llm Cache Logits Blob) where
  unfoldable pub new_decoder : Option ℕ → Decoder Cache Logits
  unfolding new_workload default_iters
  new_decoder iters = record {
    base = record (new_workload iters) { iters = some (default_iters iters) };
    load_done = none;
    prefilled = none;
    heap = record { cells = λ r. llm.empty; next = 0 };
    snapshot = none;
    live = none;
    logits = none;
  }

  -- `_reset`: the cache is a copy of the snapshot's.
  unfoldable pub reset_from : Pending → Decoder Cache Logits → Decoder Cache Logits
  unfolding alloc
  reset_from snap d =
      let (heap, r) = alloc (d.heap.cells snap.cache) d.heap in
      record d { heap = heap; live = some (record { cache = r; tok = snap.tok }) }

  -- `torch.load` of the file, if it is there, and of its format.
  unfoldable pub load_snapshot : Option Blob → Option (Cache × List ℕ)
  load_snapshot none = none
  load_snapshot (some blob) = llm.load blob

  -- The snapshot that the `except` makes: the cache of all tokens of the prompt but the last, and
  -- the last.
  unfoldable pub prefill : Cache × List ℕ
  prefill =
      let ids = llm.prompt llm.vocab_size cache_tokens in
      ((llm.forward (take (cache_tokens - 1) ids) llm.empty).1, drop (cache_tokens - 1) ids)

  unfoldable pub keep_snapshot :
      Prefilled → Cache × List ℕ → Decoder Cache Logits → Decoder Cache Logits
  unfolding alloc reset_from
  keep_snapshot how snap d =
      let (heap, r) = alloc snap.0 d.heap in
      let at : Pending = record { cache = r; tok = snap.1 } in
      reset_from at (record d { prefilled = some how; heap = heap; snapshot = some at })

  -- The `try` of `setup`, with the file as it leaves it.
  unfoldable pub restore :
      Option Blob
      → Option (Cache × List ℕ)
      → Decoder Cache Logits
      → Decoder Cache Logits × Option Blob
  unfolding keep_snapshot prefill
  restore disk (some snap) d = (keep_snapshot loaded_snapshot snap d, disk)
  restore disk none d = (keep_snapshot prefilled_and_saved prefill d, some (llm.save prefill))

  -- `setup`, from the clock and the file of the snapshot.
  unfoldable pub setup : ℕ → Option Blob → Decoder Cache Logits → Decoder Cache Logits × Option Blob
  unfolding restore load_snapshot
  setup clock disk d = restore disk (load_snapshot disk) (record d { load_done = some clock })

  -- `launch_iter` from the cache and the token that it finds: the pass changes that cache.
  unfoldable pub decode_pass : Pending → Decoder Cache Logits → Decoder Cache Logits × List ℕ
  unfolding write
  decode_pass now d =
      let (logits, grown) = llm.forward now.tok (d.heap.cells now.cache) in
      let tok = llm.argmax logits ∷ [] in
      (
        record d {
          heap = write now.cache grown d.heap;
          live = some (record { cache = now.cache; tok = tok });
          logits = some logits;
        },
        tok,
      )

  unfoldable pub launch_iter :
      Decoder Cache Logits → Outcome DecodeError (Decoder Cache Logits × List ℕ)
  unfolding attribute decode_pass
  launch_iter d = attribute d.live >>= λ now. returns (decode_pass now d)

  -- `if hasattr(self, "_snap_cache"): self._reset()`
  unfoldable pub reset_if : Option Pending → Decoder Cache Logits → Decoder Cache Logits
  unfolding reset_from
  reset_if none d = d
  reset_if (some snap) d = reset_from snap d

  unfoldable pub drain : Decoder Cache Logits → Decoder Cache Logits
  unfolding reset_if Base.drain
  drain d = reset_if d.snapshot (record d { base = Base.drain d.base })
