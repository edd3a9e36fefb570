-- ===== src/Registry/Examples.antt =====
-- Files of which two define a workload of one name.
use cuda_schedule_project.Prelude.{
  ℕ, ◌-◌, ◌≤◌, true, false, length, arith, ◌≡◌, refl, Option, none, some, List, [], ◌∷◌,
}
use cuda_schedule_project.Prelude.Text.{codes, begins}
use cuda_schedule_project.Prelude.Dict.{Text, get, put}
use cuda_schedule_project.Prelude.Outcome.{Outcome, raises, returns}
use cuda_schedule_project.Workload.{new_workload, calibrate}
use cuda_schedule_project.Workload.Slots.{new_workload-IsPipelined}
use cuda_schedule_project.Registry.Script.{ScriptError, check_failed, Timing, script}
use cuda_schedule_project.Registry.Timed.{script-returns}
use cuda_schedule_project.Registry.{DefFile, ends, load_files, load_all}

abbrev file : Text → Option (Text × ℕ) → DefFile ℕ
file name workload = record { file_name = name; workload = workload }

abbrev files : List (DefFile ℕ)
files =
    file (codes "_probe_common.py") (some (codes "fma", 1))
    ∷ file (codes "base.py") none
    ∷ file (codes "fma.py") (some (codes "fma", 2))
    ∷ file (codes "fma2.py") (some (codes "fma", 3))
    ∷ []

last_fma : get (codes "fma") (load_all files) ≡ some 3
unfolding load_all load_files get put ends begins
last_fma = refl

-- A workload of two forced iterations, on a GPU that ends nothing by itself.
abbrev slow : ℕ → ℕ
slow n = 0

abbrev lap : ℕ → ℕ
lap i = 20 - i

script-returns_example :
    (t : Timing) × Path
      (Outcome ScriptError Timing)
      (script slow lap 500 1 (some (1, true)) (new_workload (some 2)))
      (returns t)
    × (length t.lat ≡ 2)
    × (t.percentiles.0 ≤ t.percentiles.1)
    × (t.final.stream.pending ≡ [])
unfolding calibrate new_workload
script-returns_example =
    script-returns slow lap 500 1 2 (some (1, true)) (new_workload (some 2))
      (new_workload-IsPipelined (some 2)) refl (omega arith) refl

failing_check :
    script slow lap 500 1 (some (1, false)) (new_workload (some 2)) ≡ raises check_failed
unfolding script
failing_check = refl
