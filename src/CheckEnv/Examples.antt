-- ===== src/CheckEnv/Examples.antt =====
-- A machine with all that is asked for, and one without a CUDA device.
use cuda_schedule_project.Prelude.{
  ◌≡◌, refl, ◌↔◌, true, false, none, some, [], ◌∷◌, ◌++◌, if◌then◌else◌,
}
use cuda_schedule_project.Prelude.Text.{codes, same_text}
use cuda_schedule_project.CheckEnv.{
  Machine, tool_path, check_tools, first_there, failures, is_ready,
}
use cuda_schedule_project.CheckEnv.Ready.{HasTool, InOneOf, is_ready_iff}

abbrev machine : Machine
machine = record {
  torch = some true;
  which = λ tool. if same_text tool (codes "nvcc") then none else some (codes "/usr/bin/" ++ tool);
  exists = λ path. true;
  cuda_home = codes "/usr/local/cuda";
}

all_there : is_ready machine ≡ true
unfolding is_ready failures check_tools tool_path first_there
all_there = refl

-- All failures are listed, not the first alone.
four_missing :
    failures (record machine { torch = some false; exists = λ path. same_text path [] })
    ≡ codes "torch CUDA available"
      ∷ codes "nvcc"
      ∷ codes "CUPTI header"
      ∷ codes "CUPTI library"
      ∷ []
unfolding failures check_tools tool_path first_there
four_missing = refl

is_ready_iff_example : (is_ready machine ≡ true) ↔ (
    (machine.torch ≡ some true)
    × (HasTool machine (codes "g++")
        × HasTool machine (codes "make")
        × HasTool machine (codes "nvcc"))
    × InOneOf machine
        (codes "/include/cupti.h")
        (codes "/targets/x86_64-linux/include/cupti.h")
        (codes "/extras/CUPTI/include/cupti.h")
    × InOneOf machine
        (codes "/lib64/libcupti.so")
        (codes "/targets/x86_64-linux/lib/libcupti.so")
        (codes "/extras/CUPTI/lib64/libcupti.so"))
is_ready_iff_example = is_ready_iff machine
