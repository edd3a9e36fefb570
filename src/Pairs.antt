-- ===== src/Pairs.antt =====
-- colocator/demo/run_pairs.py: the pairs of workloads that it runs, and where.
pub mod Config
pub mod Main
pub mod Measured
pub mod Returned
pub mod Examples
use cuda_schedule_project.Prelude.{
  ℕ, Bool, true, false, not, Option, none, some, List, [], ◌∷◌, ◌++◌, map, select, ltb,
  if◌then◌else◌,
}
use Prim.Native.Nat.{min, max}
use cuda_schedule_project.Prelude.Outcome.{Outcome, raises, returns, ◌>>=◌}
use cuda_schedule_project.Prelude.Text.{codes, same_text}
use cuda_schedule_project.Prelude.Dict.{Text, Dict, get}
use cuda_schedule_project.Workload.{round_div}

pub data PairsError : Type 0 where
  -- the assertions on a name
  unknown not_colocatable : Text → PairsError
  solo_failed : PairsError
  -- a name without a solo result, no latencies, a median of 0, and no file of the baseline
  key_error : Text → PairsError
  statistics_error zero_division no_solo_file : PairsError

-- The options that are forwarded to run_demo; one that is not given is `none`.
pub record Options : Type 0 where
  pub priorities : Option Text
  pub policy : Option Text
  pub throttle : Option Text
  pub sm_limit : Option Text

-- The text of an option that counts as true.
abbrev pub given : Option Text → Option Text
given none = none
given (some []) = none
given (some (c ∷ text)) = some (c ∷ text)

-- `assert n in WORKLOADS` and that it can be colocated, for each name. `registry` has each
-- workload's `colocatable`.
unfoldable pub check_name : Text → Option Bool → Outcome PairsError (Unit {0})
check_name n none = raises (unknown n)
check_name n (some false) = raises (not_colocatable n)
check_name n (some true) = returns tt

unfoldable pub check_names : Dict Bool → List Text → Outcome PairsError (Unit {0})
check_names registry [] = returns tt
check_names registry (n ∷ names) = do _ ← check_name n (get n registry); check_names registry names

-- `max(3, min(5000, round(TARGET_S / median)))` for twice a median latency in ns. `none` is the
-- ZeroDivisionError.
unfoldable pub iterations : ℕ → Option ℕ
iterations twice =
    if ltb 0 twice then some (max 3 (min 5000 (round_div 1_000_000_000 twice))) else none

abbrev pub flag : Text → Option Text → List Text
flag name none = []
flag name (some text) = name ∷ text ∷ []

abbrev pub joined_flag : Text → Option Text → List Text
joined_flag name none = []
joined_flag name (some text) = (name ++ text) ∷ []

-- `extra`
unfoldable pub extra_args : Options → List Text
extra_args o =
    joined_flag (codes "--priorities=") (given o.priorities)
    ++ (flag (codes "--policy") (given o.policy)
        ++ (flag (codes "--throttle") (given o.throttle)
            ++ flag (codes "--sm-limit") (given o.sm_limit)))

abbrev pub or_two : Option Text → Text
or_two none = codes "2"
or_two (some text) = text

abbrev pub is_throttle : Option Text → Bool
is_throttle none = false
is_throttle (some policy) = same_text policy (codes "throttle")

abbrev pub config_of : Option Text → Option Text → Option Text → Text
config_of (some sm_limit) policy throttle = codes "smlimit_" ++ sm_limit
config_of none policy throttle =
    if is_throttle policy then codes "throttle_" ++ or_two throttle else codes "throttle_none"

-- `cfg`
unfoldable pub config : Options → Text
config o = config_of (given o.sm_limit) o.policy (given o.throttle)

-- `itertools.combinations_with_replacement(names, 2)`
unfoldable pub combinations : {A : Type 0} → List A → List (A × A)
combinations [] = []
combinations (a ∷ names) = map (λ b. (a, b)) (a ∷ names) ++ combinations names

-- `f"{a}__{b}"`
abbrev pub pair_name : Text × Text → Text
pair_name (a, b) = a ++ (codes "__" ++ b)

-- The names of the pairs whose run has failed. `runs_ok` is the success of a pair's run.
unfoldable pub failed_pairs : (Text × Text → Bool) → List (Text × Text) → List Text
failed_pairs runs_ok pairs = map pair_name (select (λ p. not (runs_ok p)) pairs)

-- `main` from the names on, in the order of its steps: the names of the failed pairs.
unfoldable pub run_pairs :
    Dict Bool → (solo_ok : Bool) → (Text × Text → Bool) → List Text → Outcome PairsError (List Text)
run_pairs registry solo_ok runs_ok names = do
  _ ← check_names registry names
  if solo_ok then returns (failed_pairs runs_ok (combinations names)) else raises solo_failed
