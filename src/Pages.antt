-- ===== src/Pages.antt =====
-- colocator/visualizer/export_all.py: the scan of the run directories and the pages' navigation.
pub mod Navigation
pub mod Layouts
pub mod Scanned
pub mod Written
pub mod Links
pub mod Examples
use cuda_schedule_project.Prelude.{
  ℕ, Bool, true, false, not, ◌&&◌, ◌||◌, Option, none, some, List, [], ◌∷◌, ◌++◌, length, ltb, ◌==◌,
  if◌then◌else◌,
}
use cuda_schedule_project.Prelude.Outcome.{Outcome, raises, returns, ◌>>=◌}
use cuda_schedule_project.Prelude.Text.{codes, begins, same_text}
use cuda_schedule_project.Prelude.Dict.{Text, Dict, get, put}

-- A mode directory: what it holds, whether analyze.py succeeds on it and leaves a trace, and the
-- names of the clients in its results.json.
pub record ModeDir : Type 0 where
  pub has_trace : Bool
  pub has_kernels : Bool
  pub analyzes : Bool
  pub traced : Bool
  pub clients : List Text

pub record RunDir : Type 0 where
  pub name : Text
  pub colocated : Option ModeDir
  -- `none` without seq/results.json
  pub seq : Option ModeDir

-- An entry of the directory of runs, with its own entries; both are listed in order.
pub record Entry : Type 0 where
  pub is_dir : Bool
  pub run : RunDir
  pub runs : List RunDir

-- An element of `exportable`.
pub record Run : Type 0 where
  pub cfg : Text
  pub name : Text
  pub clients : List Text

-- `exportable` and `skipped`, the latest first.
pub record Scan : Type 0 where
  pub exportable : List Run
  pub skipped : List (Text × Text)

unfoldable pub ensure_trace : ModeDir → Bool
ensure_trace m =
    if m.has_trace
    then true
    else if not m.has_kernels
    then false
    else if not m.analyzes
    then false
    else m.traced

abbrev pub export_run : Text → Text → List Text → Scan → Scan
export_run cfg name clients s = record s {
  exportable = record { cfg = cfg; name = name; clients = clients } ∷ s.exportable;
}

-- Whether the directory is a colocated run, and the scan after it.
abbrev pub scan_colocated : Text → Text → Option ModeDir → Scan → Bool × Scan
scan_colocated cfg name none s = (false, s)
scan_colocated cfg name (some m) s =
    if not (ensure_trace m)
    then (true, record s { skipped = (cfg, name) ∷ s.skipped })
    else (true, export_run cfg name m.clients s)

unfoldable pub scan_run : Text → RunDir → Scan → Bool × Scan
scan_run cfg r s = scan_colocated cfg r.name r.colocated s

abbrev pub throttle_none : Text
throttle_none = codes "throttle_none"

abbrev pub solo : Text
solo = codes "solo"

abbrev pub scan_seq : Text → Option ModeDir → Scan → Scan
scan_seq name none s = s
scan_seq name (some m) s =
    if not (length m.clients == 1)
    then s
    else if not (ensure_trace m)
    then s
    else export_run solo name m.clients s

unfoldable pub scan_solo : RunDir → Scan → Scan
scan_solo r s = scan_seq r.name r.seq s

abbrev pub is_config : Text → Bool
is_config name = begins (codes "throttle_") name || begins (codes "smlimit_") name

unfoldable pub scan_config : Text → List RunDir → Scan → Scan
unfolding scan_run
scan_config cfg [] s = s
scan_config cfg (r ∷ runs) s = scan_config cfg runs (scan_run cfg r s).1

-- The body of the loop over the entries.
unfoldable pub scan_entry : Entry → Scan → Scan
unfolding scan_run scan_config scan_solo
scan_entry e s =
    let (colocated, s') = scan_run throttle_none e.run s in
    if not e.is_dir
    then s
    else if colocated
    then s'
    else if is_config e.run.name
    then scan_config e.run.name e.runs s'
    else scan_solo e.run s'

unfoldable pub scan_entries : List Entry → Scan → Scan
unfolding scan_entry
scan_entries [] s = s
scan_entries (e ∷ entries) s = scan_entries entries (scan_entry e s)

unfoldable pub page_name : Text → Text → Text
page_name cfg name = name ++ (codes "." ++ (cfg ++ codes ".html"))

-- `a <= b` on texts.
abbrev pub leb_text : Text → Text → Bool
leb_text [] b = true
leb_text (c ∷ a) [] = false
leb_text (c ∷ a) (d ∷ b) = ltb c d || (c == d && leb_text a b)

-- `sep.join(sorted(cn)) if len(cn) == 2 else cn[0]`, an IndexError of no clients.
pub data NavError : Type 0 where
  index_error : NavError

unfoldable pub joined : Text → List Text → Outcome NavError Text
joined sep [] = raises index_error
joined sep (a ∷ []) = returns a
joined sep (a ∷ b ∷ []) = returns (if leb_text a b then a ++ (sep ++ b) else b ++ (sep ++ a))
joined sep (a ∷ b ∷ c ∷ rest) = returns a

abbrev pub Pairs : Type 0
Pairs = Dict (Dict Text)

abbrev pub slot_of : Option (Dict Text) → Dict Text
slot_of none = []
slot_of (some slot) = slot

abbrev pub is_some : Option Text → Bool
is_some none = false
is_some (some page) = true

-- `slot = pair_map.setdefault(key, {})` and the `if` on it.
unfoldable pub add_page : Text → Text → Run → Pairs → Pairs
add_page key canonical r pairs =
    let slot = slot_of (get key pairs) in
    if not (is_some (get r.cfg slot)) || same_text r.name canonical
    then put key (put r.cfg (page_name r.cfg r.name) slot) pairs
    else put key slot pairs

abbrev pub is_skipped : Run → Bool
is_skipped r = ltb 2 (length r.clients) || same_text r.cfg solo

-- The loop that builds `pair_map`.
unfoldable pub pair_map : List Run → Pairs → Outcome NavError Pairs
pair_map [] pairs = returns pairs
pair_map (r ∷ runs) pairs =
    let skipped = pair_map runs pairs in
    let added = (do
      key ← joined (codes "|") r.clients
      canonical ← joined (codes "__") r.clients
      pair_map runs (add_page key canonical r pairs)) in
    if is_skipped r then skipped else added

-- `cfg.split("+")`
abbrev pub cons_part : ℕ → List Text → List Text
cons_part c [] = (c ∷ []) ∷ []
cons_part c (part ∷ parts) = (c ∷ part) ∷ parts

unfoldable pub split_plus : Text → List Text
split_plus [] = [] ∷ []
split_plus (c ∷ text) =
    let parts = split_plus text in if c == b'+' then [] ∷ parts else cons_part c parts

unfoldable pub first_with : Text → List Text → Option Text
first_with prefix [] = none
first_with prefix (part ∷ parts) = if begins prefix part then some part else first_with prefix parts

abbrev pub or_text : Text → Option Text → Text
or_text text none = text
or_text text (some part) = part

-- The two axes of a configuration: the throttle, and the SM limit if it has one.
unfoldable pub cfg_axes : Text → Text × Option Text
cfg_axes cfg =
    let parts = split_plus cfg in
    (
      or_text throttle_none (first_with (codes "throttle_") parts),
      first_with (codes "smlimit_") parts,
    )
