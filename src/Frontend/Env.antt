-- ===== src/Frontend/Env.antt =====
-- `ensure_managed_env`: the re-execution of the interpreter under the interceptor.
use cuda_schedule_project.Prelude.{
  ◌≡◌, refl, ◌∙◌, subst, Bool, true, false, ◌&&◌, inl, inr, Bool-cases, Option, none, some, [], ◌∷◌,
  ◌++◌, if◌then◌else◌,
}
use cuda_schedule_project.Prelude.Text.{codes, contains, contains-append, same_text}
use cuda_schedule_project.Prelude.Dict.{Text, Dict, get, put, get-put, get-put_other}

-- `reexec env` is `os.execve` with this environment, and `too_late` the RuntimeError.
pub data Managed : Type 0 where
  kept too_late : Managed
  reexec : Dict Text → Managed

abbrev pub ld_preload : Text
ld_preload = codes "LD_PRELOAD"

abbrev pub colocator_mode : Text
colocator_mode = codes "COLOCATOR_MODE"

abbrev pub managed : Text
managed = codes "managed"

-- `os.environ.get(name, "")`
abbrev pub or_empty : Option Text → Text
or_empty none = []
or_empty (some text) = text

-- `LIBCOL + (":" + prev if prev else "")`
abbrev pub preloads : Text → Text → Text
preloads libcol [] = libcol ++ []
preloads libcol (c ∷ prev) = libcol ++ (b':' ∷ c ∷ prev)

abbrev pub is_mode : Option Text → Bool
is_mode none = false
is_mode (some text) = same_text text managed

module _ (libcol : Text) where
  unfoldable pub is_managed : Dict Text → Bool
  is_managed env =
      contains libcol (or_empty (get ld_preload env)) && is_mode (get colocator_mode env)

  unfoldable pub managed_env : Dict Text → Dict Text
  managed_env env =
      put colocator_mode managed
        (put ld_preload (preloads libcol (or_empty (get ld_preload env))) env)

  -- `torch_loaded` is `"torch" in sys.modules`.
  unfoldable pub ensure_managed_env : (torch_loaded : Bool) → Dict Text → Managed
  ensure_managed_env torch_loaded env =
      if is_managed env then kept else if torch_loaded then too_late else reexec (managed_env env)

  contains-preloads : (prev : Text) → contains libcol (preloads libcol prev) ≡ true
  contains-preloads [] = contains-append libcol []
  contains-preloads (c ∷ prev) = contains-append libcol (b':' ∷ c ∷ prev)

  get_preload :
      (env : Dict Text)
      → get ld_preload (managed_env env) ≡ some (preloads libcol (or_empty (get ld_preload env)))
  unfolding managed_env
  get_preload env =
      rw
        (get-put_other colocator_mode ld_preload managed
          (put ld_preload (preloads libcol (or_empty (get ld_preload env))) env) refl)
        (get-put ld_preload (preloads libcol (or_empty (get ld_preload env))) env)

  get_mode : (env : Dict Text) → get colocator_mode (managed_env env) ≡ some managed
  unfolding managed_env
  get_mode env =
      get-put colocator_mode managed
        (put ld_preload (preloads libcol (or_empty (get ld_preload env))) env)

  managed_env-is_managed : (env : Dict Text) → is_managed (managed_env env) ≡ true
  unfolding is_managed
  managed_env-is_managed env =
      rw (get_preload env, contains-preloads (or_empty (get ld_preload env)), get_mode env) refl

  get_other :
      (env : Dict Text) (name : Text)
      → same_text ld_preload name ≡ false
      → same_text colocator_mode name ≡ false
      → get name (managed_env env) ≡ get name env
  unfolding managed_env
  get_other env name h h' =
      get-put_other colocator_mode name managed
        (put ld_preload (preloads libcol (or_empty (get ld_preload env))) env) h'
      ∙ get-put_other ld_preload name (preloads libcol (or_empty (get ld_preload env))) env h

  reexec_env :
      (torch_loaded : Bool) (env env' : Dict Text)
      → ensure_managed_env torch_loaded env ≡ reexec env'
      → env' ≡ managed_env env
  unfolding ensure_managed_env
  reexec_env true env env' h = elim (Bool-cases (is_managed env)) [
    | inl e ↦
        let f : kept ≡ reexec env' =
          subst (λ b. (if b then kept else too_late) ≡ reexec env') e h in
        cc
    | inr e ↦
        let f : too_late ≡ reexec env' =
          subst (λ b. (if b then kept else too_late) ≡ reexec env') e h in
        cc
  ]
  reexec_env false env env' h = elim (Bool-cases (is_managed env)) [
    | inl e ↦
        let f : kept ≡ reexec env' =
          subst (λ b. (if b then kept else reexec (managed_env env)) ≡ reexec env') e h in
        cc
    | inr e ↦
        let f : reexec (managed_env env) ≡ reexec env' =
          subst (λ b. (if b then kept else reexec (managed_env env)) ≡ reexec env') e h in
        cc
  ]

  ensure-is_managed :
      (torch_loaded : Bool) (env : Dict Text)
      → is_managed env ≡ true
      → ensure_managed_env torch_loaded env ≡ kept
  unfolding ensure_managed_env
  ensure-is_managed torch_loaded env e = rw e refl

  -- A process that is executed again finds its environment managed, whether or not it has loaded
  -- torch, so that there is no second re-execution. It preloads the interceptor before what was
  -- preloaded, and has every variable but LD_PRELOAD and COLOCATOR_MODE as it was.
  pub ensure_managed_env-reexec :
      (torch_loaded : Bool) (env env' : Dict Text)
      → ensure_managed_env torch_loaded env ≡ reexec env'
      → ((torch_loaded' : Bool) → ensure_managed_env torch_loaded' env' ≡ kept)
        × (get ld_preload env' ≡ some (preloads libcol (or_empty (get ld_preload env))))
        × ((name : Text)
            → same_text ld_preload name ≡ false
            → same_text colocator_mode name ≡ false
            → get name env' ≡ get name env)
  ensure_managed_env-reexec torch_loaded env env' h = rw (reexec_env torch_loaded env env' h) (
    λ torch_loaded'. ensure-is_managed torch_loaded' (managed_env env) (managed_env-is_managed env),
    get_preload env,
    get_other env,
  )
