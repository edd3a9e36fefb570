-- ===== src/CheckEnv.antt =====
-- colocator/tools/check_env.py: the check of the machine's software.
--
-- What is installed is an argument: whether torch can be imported and has CUDA, the tools on the
-- path, and the files that exist.
pub mod Ready
pub mod Examples
use cuda_schedule_project.Prelude.{
  Bool, true, false, not, ◌||◌, Option, none, some, List, [], ◌∷◌, ◌++◌, map, any, if◌then◌else◌,
}
use cuda_schedule_project.Prelude.Text.{codes}
use cuda_schedule_project.Prelude.Dict.{Text}

pub record Machine : Type 0 where
  -- `torch.cuda.is_available()`, if torch can be imported
  pub torch : Option Bool
  -- `shutil.which(tool)`
  pub which : Text → Option Text
  pub exists : Text → Bool
  pub cuda_home : Text

-- `os.path.join` of more than one part.
abbrev pub join_path : Text → List Text → Text
join_path path [] = path
join_path path (part ∷ parts) = join_path (path ++ (b'/' ∷ part)) parts

-- `check`: the name goes to the failures unless it is ok.
abbrev pub check : Text → Bool → List Text
check name ok = if ok then [] else name ∷ []

abbrev pub check_torch : Option Bool → List Text
check_torch none = check (codes "torch import") false
check_torch (some available) =
    check (codes "torch import") true ++ check (codes "torch CUDA available") available

-- The path of a tool, on the PATH or in CUDA_HOME.
unfoldable pub tool_path : Machine → Text → Option Text
tool_path m tool = or_home (m.which tool)
  where
    or_home : Option Text → Option Text
    or_home none =
        let path = join_path m.cuda_home (codes "bin" ∷ tool ∷ []) in
        if m.exists path then some path else none
    or_home (some []) =
        let path = join_path m.cuda_home (codes "bin" ∷ tool ∷ []) in
        if m.exists path then some path else none
    or_home (some (c ∷ path)) = some (c ∷ path)

abbrev pub is_there : Option Text → Bool
is_there none = false
is_there (some path) = true

abbrev pub tools : List Text
tools = codes "g++" ∷ codes "make" ∷ codes "nvcc" ∷ []

unfoldable pub check_tools : Machine → List Text → List Text
check_tools m [] = []
check_tools m (tool ∷ rest) = check tool (is_there (tool_path m tool)) ++ check_tools m rest

-- `next((p for p in paths if os.path.exists(p)), None)`
unfoldable pub first_there : Machine → List Text → Option Text
first_there m [] = none
first_there m (path ∷ paths) =
    let rest = first_there m paths in if m.exists path then some path else rest

abbrev pub cupti_hdr : Machine → List Text
cupti_hdr m = map (join_path m.cuda_home) (
    (codes "include" ∷ codes "cupti.h" ∷ [])
    ∷ (codes "targets" ∷ codes "x86_64-linux" ∷ codes "include" ∷ codes "cupti.h" ∷ [])
    ∷ (codes "extras" ∷ codes "CUPTI" ∷ codes "include" ∷ codes "cupti.h" ∷ [])
    ∷ [])

abbrev pub cupti_lib : Machine → List Text
cupti_lib m = map (join_path m.cuda_home) (
    (codes "lib64" ∷ codes "libcupti.so" ∷ [])
    ∷ (codes "targets" ∷ codes "x86_64-linux" ∷ codes "lib" ∷ codes "libcupti.so" ∷ [])
    ∷ (codes "extras" ∷ codes "CUPTI" ∷ codes "lib64" ∷ codes "libcupti.so" ∷ [])
    ∷ [])

-- `_failures` at the end of `main`.
unfoldable pub failures : Machine → List Text
failures m =
    check_torch m.torch
    ++ (check_tools m tools
        ++ (check (codes "CUPTI header") (is_there (first_there m (cupti_hdr m)))
            ++ check (codes "CUPTI library") (is_there (first_there m (cupti_lib m)))))

abbrev pub none_failed : List Text → Bool
none_failed [] = true
none_failed (name ∷ names) = false

-- Whether `main` returns rather than exits with 1.
unfoldable pub is_ready : Machine → Bool
unfolding failures
is_ready m = none_failed (failures m)
