-- ===== src/Registry.antt =====
-- colocator/demo/workloads.py: the registry of the workloads, `_load_all`.
pub mod Loaded
pub mod Script
pub mod Timed
pub mod Examples
use cuda_schedule_project.Prelude.{
  Bool, true, false, not, ◌||◌, Option, none, some, List, [], ◌∷◌, ◌++◌, if◌then◌else◌,
}
use cuda_schedule_project.Prelude.Text.{codes, begins, same_text}
use cuda_schedule_project.Prelude.Dict.{Text, Dict, put}

-- A file of the definitions' directory: its name, and the class and its `name` that the module has
-- as WORKLOAD, if it has one. `Class` stands for the classes.
pub record DefFile (Class : Type 0) : Type 0 where
  pub file_name : Text
  pub workload : Option (Text × Class)

-- `fname.endswith(suffix)`
unfoldable pub ends : Text → Text → Bool
ends suffix [] = same_text suffix []
ends suffix (c ∷ text) = let rest = ends suffix text in same_text suffix (c ∷ text) || rest

abbrev pub is_private : Text → Bool
is_private name =
    not (ends (codes ".py") name) || begins (codes "_") name || same_text name (codes "base.py")

module _ {Class : Type 0} where
  abbrev pub register : Option (Text × Class) → Dict Class → Dict Class
  register none registry = registry
  register (some (name, class)) registry = put name class registry

  -- The loop over the files in the order of their names.
  unfoldable pub load_files : List (DefFile Class) → Dict Class → Dict Class
  unfolding ends
  load_files [] registry = registry
  load_files (f ∷ files) registry =
      let skipped = load_files files registry in
      let loaded = load_files files (register f.workload registry) in
      if is_private f.file_name then skipped else loaded

  unfoldable pub load_all : List (DefFile Class) → Dict Class
  load_all files = load_files files []
