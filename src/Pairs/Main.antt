-- ===== src/Pairs/Main.antt =====
-- `main` of run_pairs.py: the solo baseline, the iterations, and the run of every pair.
use cuda_schedule_project.Prelude.{
  ℕ, ◌+◌, ◌-◌, ◌/◌, ◌%◌, Bool, true, false, ◌&&◌, Option, none, some, List, [], ◌∷◌, ◌++◌, map,
  select, length, get_elem?, ◌==◌, if◌then◌else◌,
}
use cuda_schedule_project.Prelude.Int.{pos}
use cuda_schedule_project.Prelude.Outcome.{Outcome, raises, returns, ◌>>=◌}
use cuda_schedule_project.Prelude.Text.{codes}
use cuda_schedule_project.Prelude.Dict.{Text, Dict, get, put}
use cuda_schedule_project.Analyze.Pandas.{stable_sort}
use cuda_schedule_project.Pages.{leb_text}
use cuda_schedule_project.Pairs.{
  PairsError, solo_failed, key_error, statistics_error, zero_division, no_solo_file, Options,
  check_names, iterations, extra_args, config, combinations, pair_name,
}

-- The clients of the solo baseline's results, with their latencies in ns.
abbrev pub Solo : Type 0
Solo = List (Text × List ℕ)

-- The solo baseline on disk, and the arguments of run_demo.py in the runs so far.
pub record World : Type 0 where
  pub solo : Option Solo
  pub ran : List (List Text)

pub record Args : Type 0 where
  pub workloads : Option Text
  pub out : Text
  pub skip_solo : Bool
  pub options : Options

abbrev pub cons_name : ℕ → List Text → List Text
cons_name c [] = (c ∷ []) ∷ []
cons_name c (name ∷ names) = (c ∷ name) ∷ names

-- `text.split(",")`
unfoldable pub split_comma : Text → List Text
split_comma [] = [] ∷ []
split_comma (c ∷ text) =
    let names = split_comma text in if c == b',' then [] ∷ names else cons_name c names

unfoldable pub insert_name : Text → List Text → List Text
insert_name n [] = n ∷ []
insert_name n (m ∷ names) =
    let rest = insert_name n names in if leb_text n m then n ∷ m ∷ names else m ∷ rest

-- `sorted(names)`
unfoldable pub sort_names : List Text → List Text
unfolding insert_name
sort_names [] = []
sort_names (n ∷ names) = insert_name n (sort_names names)

abbrev pub colocatable_names : Dict Bool → List Text
colocatable_names registry =
    map (λ (w : Text × Bool). w.0) (select (λ (w : Text × Bool). w.1) registry)

unfoldable pub chosen_names : Dict Bool → Option Text → List Text
unfolding split_comma sort_names
chosen_names registry none = sort_names (colocatable_names registry)
chosen_names registry (some []) = sort_names (colocatable_names registry)
chosen_names registry (some (c ∷ text)) = sort_names (split_comma (c ∷ text))

-- `{c["name"]: c for c in clients}`
unfoldable pub by_name : Solo → Dict (List ℕ) → Dict (List ℕ)
by_name [] d = d
by_name ((name, lat) ∷ clients) d = by_name clients (put name lat d)

abbrev pub sum_of : Option ℕ → Option ℕ → Option ℕ
sum_of none b = none
sum_of (some a) none = none
sum_of (some a) (some b) = some (a + b)

-- Twice `statistics.median(lat)`; `none` is the StatisticsError of no data.
unfoldable pub twice_median : List ℕ → Option ℕ
twice_median lat =
    let sorted = stable_sort (λ t. pos t) lat in
    let n = length lat in
    if n % 2 == 0
    then sum_of (get_elem? sorted (n / 2 - 1)) (get_elem? sorted (n / 2))
    else sum_of (get_elem? sorted (n / 2)) (get_elem? sorted (n / 2))

abbrev pub found : {A : Type 0} → PairsError → Option A → Outcome PairsError A
found e none = raises e
found e (some a) = returns a

-- `iters`
unfoldable pub iters_of : List Text → Dict (List ℕ) → Outcome PairsError (Dict ℕ)
iters_of [] solo = returns []
iters_of (n ∷ names) solo = do
  lat ← found (key_error n) (get n solo)
  median ← found statistics_error (twice_median lat)
  k ← found zero_division (iterations median)
  iters ← iters_of names solo
  returns ((n, k) ∷ iters)

abbrev pub join_names : List Text → Text
join_names [] = []
join_names (n ∷ []) = n
join_names (n ∷ m ∷ names) = n ++ (b',' ∷ join_names (m ∷ names))

abbrev pub solo_args : Text → List Text → List Text
solo_args out names =
    codes "--mode"
    ∷ codes "seq"
    ∷ codes "--clients"
    ∷ join_names names
    ∷ codes "--out"
    ∷ (out ++ codes "/solo")
    ∷ []

abbrev pub is_there : Option Solo → Bool
is_there none = false
is_there (some solo) = true

-- `exec` is the run of run_demo.py with its arguments: whether it succeeds, and the baseline after
-- it. `decimal` prints a number.
module _ (exec : List Text → Option Solo → Bool × Option Solo) (decimal : ℕ → Text) where
  unfoldable pub run : List Text → World → Bool × World
  run args w =
      let (ok, solo) = exec args w.solo in (ok, record { solo = solo; ran = w.ran ++ args ∷ [] })

  abbrev pub pair_args : Args → Text × Text → ℕ → ℕ → List Text
  pair_args args (a, b) k l =
      (codes "--mode"
        ∷ codes "colocated"
        ∷ codes "--clients"
        ∷ join_names (a ∷ b ∷ [])
        ∷ codes "--iters"
        ∷ join_names (decimal k ∷ decimal l ∷ [])
        ∷ codes "--observer"
        ∷ codes "on"
        ∷ codes "--out"
        ∷ (args.out ++ (b'/' ∷ config args.options ++ (b'/' ∷ pair_name (a, b))))
        ∷ [])
      ++ extra_args args.options

  -- The loop over the pairs: the names of those that failed.
  unfoldable pub run_each :
      Args → Dict ℕ → List (Text × Text) → World → Outcome PairsError (List Text × World)
  unfolding run
  run_each args iters [] w = returns ([], w)
  run_each args iters (p ∷ pairs) w = do
    k ← found (key_error p.0) (get p.0 iters)
    l ← found (key_error p.1) (get p.1 iters)
    let (ok, w') = run (pair_args args p k l) w
    later ← run_each args iters pairs w'
    returns ((if ok then later.0 else pair_name p ∷ later.0), later.1)

  -- The baseline is there already, or else is run.
  unfoldable pub solo_step : Args → List Text → World → Outcome PairsError World
  unfolding run
  solo_step args names w =
      let (ok, w') = run (solo_args args.out names) w in
      if args.skip_solo && is_there w.solo
      then returns w
      else if ok
      then returns w'
      else raises solo_failed

  unfoldable pub main : Dict Bool → Args → World → Outcome PairsError (List Text × World)
  main registry args w = do
    let names = chosen_names registry args.workloads
    _ ← check_names registry names
    w' ← solo_step args names w
    solo ← found no_solo_file w'.solo
    iters ← iters_of names (by_name solo [])
    run_each args iters (combinations names) w'
