-- ===== src/Registry/Loaded.antt =====
-- What the registry holds.
use cuda_schedule_project.Prelude.{
  ◌≡◌, refl, inl, inr, Bool-cases, Option, none, some, List, [], ◌∷◌, subst, if◌then◌else◌,
}
use cuda_schedule_project.Prelude.Text.{same_text, same_text→≡}
use cuda_schedule_project.Prelude.Dict.{Text, Dict, get, put, get-put, get-put_other}
use cuda_schedule_project.Registry.{DefFile, is_private, register, load_files, load_all}

module _ {Class : Type 0} where
  abbrev pub takes : Text → Option (Text × Class) → Option Class → Option Class
  takes name none old = old
  takes name (some (other, class)) old = if same_text other name then some class else old

  -- The last class of a file that is not private under this name.
  abbrev pub last_named : Text → List (DefFile Class) → Option Class → Option Class
  last_named name [] old = old
  last_named name (f ∷ files) old =
      last_named name files (if is_private f.file_name then old else takes name f.workload old)

  get-register :
      (name : Text) (w : Option (Text × Class)) (registry : Dict Class)
      → get name (register w registry) ≡ takes name w (get name registry)
  get-register name none registry = refl
  get-register name (some (other, class)) registry = elim (Bool-cases (same_text other name)) [
    | inl e ↦ rw e (
        subst (λ x. get x (put other class registry) ≡ some class) (same_text→≡ other name e)
          (get-put other class registry))
    | inr e ↦ rw e (get-put_other other name class registry e)
  ]

  get-load_files :
      (name : Text) (files : List (DefFile Class)) (registry : Dict Class)
      → get name (load_files files registry) ≡ last_named name files (get name registry)
  unfolding load_files
  get-load_files name [] registry = refl
  get-load_files name (f ∷ files) registry = elim (Bool-cases (is_private f.file_name)) [
    | inl e ↦ rw e (get-load_files name files registry)
    | inr e ↦
        rw
          (
            e,
            get-load_files name files (register f.workload registry),
            get-register name f.workload registry,
          )
          refl
  ]

  -- Under each name the registry has the class of the last file, in the order of the files' names,
  -- whose WORKLOAD has that name; files that are not Python, that start with an underscore, and
  -- base.py do not count.
  pub load_all-last_named :
      (name : Text) (files : List (DefFile Class))
      → get name (load_all files) ≡ last_named name files none
  unfolding load_all get
  load_all-last_named name files = get-load_files name files []
