-- ===== src/Analyze/Durations.antt =====
-- `kernel_durations_by_mode`: the durations of the kernels of a mode, by class.
use cuda_schedule_project.Prelude.{ℕ, String, Option, none, some, List, map, select}
use cuda_schedule_project.Prelude.Int.{ℤ}
use cuda_schedule_project.Analyze.Records.{KernelRecord}
use cuda_schedule_project.Analyze.Kinds.{kernel_class}
use cuda_schedule_project.Analyze.Trace.{RunData, duration}
use cuda_schedule_project.Analyze.SelfCheck.{in_mode}

-- Whether obs_kernels.csv is there is an argument. A duration is in ns; the table has it in us.
unfoldable pub kernel_durations :
    (recorded : Option RunData) → Option (ℕ × ℕ) → Option (List (String × ℤ))
kernel_durations none window = none
kernel_durations (some md) window = some (
    map (λ (k : KernelRecord). (kernel_class k.name, duration k))
      (select (in_mode md window) md.kernels))
