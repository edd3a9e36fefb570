-- ===== src/Decode/Examples.antt =====
-- A small model, whose cache is the list of its tokens, and the theorems there.
use cuda_schedule_project.Prelude.{
  false, ℕ, ◌%◌, ◌≡◌, refl, none, some, Bool, true, List, [], ◌∷◌, ◌++◌, length, replicate,
}
use cuda_schedule_project.Prelude.Outcome.{Outcome, raises, returns}
use cuda_schedule_project.Decode.{
  DecodeError, Llm, setup, new_decoder, prefill, loaded_snapshot, prefilled_and_saved,
  load_snapshot, no_attribute,
}
use cuda_schedule_project.Decode.Methods.{check, run_iter}
use cuda_schedule_project.Decode.Tokens.{
  Call, iteration, synced, drained, calibrated, snapshot_of, tokens, after,
}
use cuda_schedule_project.Decode.Refines.{Follows, setup-decodes}
use cuda_schedule_project.Decode.Snapshots.{setup-round_trip}
use cuda_schedule_project.Decode.Checked.{check-setup, is_repeated}

abbrev tiny : Llm (List ℕ) ℕ (List ℕ × List ℕ)
tiny = record {
  empty = [];
  forward = λ toks c. (length (c ++ toks), c ++ toks);
  argmax = λ l. l % 50;
  is_finite = λ l. true;
  vocab_size = 50;
  prompt = λ vocab n. replicate n 7;
  load = λ blob. some blob;
  save = λ snap. snap;
}

abbrev idle : ℕ → ℕ
idle n = 0

abbrev some_calls : List Call
some_calls =
    iteration ∷ iteration ∷ drained ∷ iteration ∷ synced ∷ calibrated 500 1 ∷ iteration ∷ []

tokens_again :
    tokens tiny (prefill tiny) 0 some_calls
    ≡ (14 ∷ []) ∷ (15 ∷ []) ∷ (14 ∷ []) ∷ (14 ∷ []) ∷ (14 ∷ []) ∷ []
unfolding tokens after prefill
tokens_again = refl

setup-decodes_example :
    Follows tiny idle
      (snapshot_of tiny (load_snapshot tiny none))
      0
      some_calls
      (setup tiny 5 none (new_decoder tiny none)).0
setup-decodes_example = setup-decodes tiny idle none 5 none some_calls

setup-round_trip_example :
    let first = setup tiny 5 none (new_decoder tiny none) in
    let again = setup tiny 9 first.1 (new_decoder tiny none) in
    (first.0.prefilled ≡ some prefilled_and_saved)
    × (again.0.prefilled ≡ some loaded_snapshot)
    × (again.1 ≡ first.1)
    × Follows tiny idle (prefill tiny) 0 some_calls first.0
    × Follows tiny idle (prefill tiny) 0 some_calls again.0
setup-round_trip_example = setup-round_trip tiny idle (λ snap. refl) none 5 9 some_calls

-- A GPU that computes a logit of 3 whatever the cache.
abbrev stuck : Llm (List ℕ) ℕ (List ℕ × List ℕ)
stuck = record tiny { forward = λ toks c. (3, c) }

check-setup_example :
    Path
      (Outcome DecodeError Bool)
      (check tiny stuck idle (setup tiny 5 none (new_decoder tiny none)).0)
      (returns (is_repeated tiny stuck idle (snapshot_of tiny (load_snapshot tiny none))))
check-setup_example = check-setup tiny stuck idle none 5 none

other_token :
    Path
      (Outcome DecodeError Bool)
      (check tiny stuck idle (setup tiny 5 none (new_decoder tiny none)).0)
      (returns false)
unfolding snapshot_of load_snapshot prefill
other_token = check-setup tiny stuck idle none 5 none

-- Before `setup` there is no cache to run on.
no_setup : run_iter tiny idle (new_decoder tiny none) ≡ raises no_attribute
unfolding run_iter new_decoder
no_setup = refl
