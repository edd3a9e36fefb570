-- ===== src/CheckEnv/Ready.antt =====
-- When the environment is ready.
use cuda_schedule_project.Prelude.{
  ◌≡◌, refl, ◌∙◌, ◌↔◌, ◌⊎◌, inl, inr, Bool, true, false, Bool-cases, Option, none, some, List, [],
  ◌∷◌, ◌++◌, All, append_assoc, ℕ, if◌then◌else◌,
}
use cuda_schedule_project.Prelude.Text.{codes}
use cuda_schedule_project.Prelude.Dict.{Text}
use cuda_schedule_project.CheckEnv.{
  Machine, check, check_torch, tool_path, is_there, tools, check_tools, first_there, cupti_hdr,
  cupti_lib, join_path, failures, none_failed, is_ready,
}

-- One of the paths exists.
abbrev pub SomeExists : Machine → List Text → Type 0
SomeExists m [] = ⊥
SomeExists m (path ∷ paths) = (m.exists path ≡ true) ⊎ SomeExists m paths

append-nil_iff : (xs ys : List Text) → ((xs ++ ys) ≡ []) ↔ ((xs ≡ []) × (ys ≡ []))
append-nil_iff [] ys = (λ h. (refl, h), λ h. h.1)
append-nil_iff (x ∷ xs) ys = (λ h. cc, λ h. let e = h.0 in cc)

check-nil_iff : (name : Text) (ok : Bool) → (check name ok ≡ []) ↔ (ok ≡ true)
check-nil_iff name true = (λ h. refl, λ h. refl)
check-nil_iff name false = (λ h. cc, λ h. cc)

none_failed_iff : (names : List Text) → (none_failed names ≡ true) ↔ (names ≡ [])
none_failed_iff [] = (λ h. refl, λ h. refl)
none_failed_iff (name ∷ names) = (λ h. cc, λ h. cc)

check_torch-nil_iff : (torch : Option Bool) → (check_torch torch ≡ []) ↔ (torch ≡ some true)
check_torch-nil_iff none = (λ h. cc, λ h. cc)
check_torch-nil_iff (some true) = (λ h. refl, λ h. refl)
check_torch-nil_iff (some false) = (λ h. cc, λ h. cc)

module _ (m : Machine) where
  check_tools-nil_iff :
      (names : List Text)
      → (check_tools m names ≡ []) ↔ All (λ (t : Text). is_there (tool_path m t) ≡ true) names
  unfolding check_tools
  check_tools-nil_iff [] = (λ h. tt, λ h. refl)
  check_tools-nil_iff (t ∷ names) =
      let a = append-nil_iff (check t (is_there (tool_path m t))) (check_tools m names) in
      let c = check-nil_iff t (is_there (tool_path m t)) in
      let r = check_tools-nil_iff names in
      (λ h. let (e, f) = a.0 h in (c.0 e, r.0 f), λ h. a.1 (c.1 h.0, r.1 h.1))

  first_there_iff :
      (paths : List Text) → (is_there (first_there m paths) ≡ true) ↔ SomeExists m paths
  unfolding first_there
  first_there_iff [] = (λ h. cc, λ h. absurd h)
  first_there_iff (p ∷ paths) = elim (Bool-cases (m.exists p)) [
    | inl e ↦ rw e (λ h. inl refl, λ h. refl)
    | inr e ↦
        let r = first_there_iff paths in
        rw e (λ h. inr (r.0 h), λ h. elim h [ inl f ↦ cc | inr later ↦ r.1 later ])
  ]

  parts_iff : (is_ready m ≡ true) ↔ (
      (m.torch ≡ some true)
      × All (λ (t : Text). is_there (tool_path m t) ≡ true) tools
      × SomeExists m (cupti_hdr m)
      × SomeExists m (cupti_lib m))
  unfolding is_ready failures
  parts_iff =
      let header = check (codes "CUPTI header") (is_there (first_there m (cupti_hdr m))) in
      let library = check (codes "CUPTI library") (is_there (first_there m (cupti_lib m))) in
      let none = none_failed_iff (failures m) in
      let a = append-nil_iff (check_torch m.torch) (check_tools m tools ++ (header ++ library)) in
      let b = append-nil_iff (check_tools m tools) (header ++ library) in
      let c = append-nil_iff header library in
      let h = check-nil_iff (codes "CUPTI header") (is_there (first_there m (cupti_hdr m))) in
      let l = check-nil_iff (codes "CUPTI library") (is_there (first_there m (cupti_lib m))) in
      let torch = check_torch-nil_iff m.torch in
      let tool = check_tools-nil_iff tools in
      (
        λ ready.
            let (e, f) = a.0 (none.0 ready) in
            let (g, k) = b.0 f in
            let (n, o) = c.0 k in
            (
              torch.0 e,
              tool.0 g,
              (first_there_iff (cupti_hdr m)).0 (h.0 n),
              (first_there_iff (cupti_lib m)).0 (l.0 o),
            ),
        λ (t, all, hdr, lib). none.1 (
            a.1 (
              torch.1 t,
              b.1 (
                tool.1 all,
                c.1 (
                  h.1 ((first_there_iff (cupti_hdr m)).1 hdr),
                  l.1 ((first_there_iff (cupti_lib m)).1 lib),
                ),
              ),
            )),
      )

  -- A file of CUDA_HOME, by the rest of its path.
  abbrev pub InHome : Text → Type 0
  InHome rest = m.exists (m.cuda_home ++ rest) ≡ true

  -- On the PATH, or in the bin directory of CUDA_HOME.
  abbrev pub HasTool : Text → Type 0
  HasTool tool =
      ((c : ℕ) × (path : Text) × (m.which tool ≡ some (c ∷ path))) ⊎ InHome (codes "/bin/" ++ tool)

  home_eq :
      (tool : Text)
      → join_path m.cuda_home (codes "bin" ∷ tool ∷ []) ≡ m.cuda_home ++ (codes "/bin/" ++ tool)
  home_eq tool = append_assoc m.cuda_home (codes "/bin") (b'/' ∷ tool)

  -- The path that `or` gives.
  or_home_iff :
      (tool : Text)
      → (is_there (
            let path = join_path m.cuda_home (codes "bin" ∷ tool ∷ []) in
            if m.exists path then some path else none)
          ≡ true)
        ↔ InHome (codes "/bin/" ++ tool)
  or_home_iff tool =
      rw (home_eq tool) (elim (Bool-cases (m.exists (m.cuda_home ++ (codes "/bin/" ++ tool)))) [
        | inl e ↦ rw e (λ h. refl, λ h. refl)
        | inr e ↦ rw e (λ h. cc, λ h. cc)
      ])

  tool_path_iff :
      (tool : Text) (found : Option Text)
      → m.which tool ≡ found
      → (is_there (tool_path m tool) ≡ true) ↔ HasTool tool
  unfolding tool_path
  tool_path_iff tool none e =
      let (to, from) = or_home_iff tool in
      rw e (λ h. inr (to h), λ o. elim o [ inl (c, path, f) ↦ cc | inr p ↦ from p ])
  tool_path_iff tool (some []) e =
      let (to, from) = or_home_iff tool in
      rw e (λ h. inr (to h), λ o. elim o [ inl (c, path, f) ↦ cc | inr p ↦ from p ])
  tool_path_iff tool (some (c ∷ path)) e = rw e (λ h. inl (c, path, refl), λ o. refl)

  -- One of three files of CUDA_HOME.
  abbrev pub InOneOf : (first second third : Text) → Type 0
  InOneOf first second third = InHome first ⊎ (InHome second ⊎ InHome third)

  in_home : (path rest : Text) → path ≡ m.cuda_home ++ rest → (m.exists path ≡ true) ↔ InHome rest
  in_home path rest e = rw e (λ h. h, λ h. h)

  SomeExists-iff :
      (p q r first second third : Text)
      → p ≡ m.cuda_home ++ first
      → q ≡ m.cuda_home ++ second
      → r ≡ m.cuda_home ++ third
      → SomeExists m (p ∷ q ∷ r ∷ []) ↔ InOneOf first second third
  SomeExists-iff p q r first second third e f g =
      rw (e, f, g)
        (
          λ s. elim s [
            | inl a ↦ inl a
            | inr t ↦ elim t [
              | inl b ↦ inr (inl b)
              | inr u ↦ elim u [ inl c ↦ inr (inr c) | inr v ↦ absurd v ]
            ]
          ],
          λ s. elim s [
            | inl a ↦ inl a
            | inr t ↦ elim t [ inl b ↦ inr (inl b) | inr c ↦ inr (inr (inl c)) ]
          ],
        )

  -- `os.path.join` puts a slash between the parts.
  join_two : (path a b : Text) → join_path path (a ∷ b ∷ []) ≡ path ++ ((b'/' ∷ a) ++ (b'/' ∷ b))
  join_two path a b = append_assoc path (b'/' ∷ a) (b'/' ∷ b)

  join_four :
      (path a b c d : Text)
      → join_path path (a ∷ b ∷ c ∷ d ∷ [])
        ≡ path ++ ((b'/' ∷ a) ++ ((b'/' ∷ b) ++ ((b'/' ∷ c) ++ (b'/' ∷ d))))
  join_four path a b c d =
      let ab = path ++ (b'/' ∷ a) in
      append_assoc (ab ++ (b'/' ∷ b)) (b'/' ∷ c) (b'/' ∷ d)
      ∙ append_assoc ab (b'/' ∷ b) ((b'/' ∷ c) ++ (b'/' ∷ d))
      ∙ append_assoc path (b'/' ∷ a) ((b'/' ∷ b) ++ ((b'/' ∷ c) ++ (b'/' ∷ d)))

  -- The check passes just if torch can be imported and has CUDA; each of g++, make and nvcc is on the
  -- PATH or is a file of CUDA_HOME/bin; and CUPTI's header and its library are each one of the three
  -- files of CUDA_HOME that are looked for, which are spelled out.
  pub is_ready_iff : (is_ready m ≡ true) ↔ (
      (m.torch ≡ some true)
      × (HasTool (codes "g++") × HasTool (codes "make") × HasTool (codes "nvcc"))
      × InOneOf
          (codes "/include/cupti.h")
          (codes "/targets/x86_64-linux/include/cupti.h")
          (codes "/extras/CUPTI/include/cupti.h")
      × InOneOf
          (codes "/lib64/libcupti.so")
          (codes "/targets/x86_64-linux/lib/libcupti.so")
          (codes "/extras/CUPTI/lib64/libcupti.so"))
  is_ready_iff =
      let (to, from) = parts_iff in
      let gpp = tool_path_iff (codes "g++") _ refl in
      let make = tool_path_iff (codes "make") _ refl in
      let nvcc = tool_path_iff (codes "nvcc") _ refl in
      let two = join_two m.cuda_home in
      let four = join_four m.cuda_home in
      let hdr : SomeExists m (cupti_hdr m)
          ↔ InOneOf (codes "/include/cupti.h") (codes "/targets/x86_64-linux/include/cupti.h")
              (codes "/extras/CUPTI/include/cupti.h") =
        SomeExists-iff _ _ _ _ _ _ (two (codes "include") (codes "cupti.h"))
          (four (codes "targets") (codes "x86_64-linux") (codes "include") (codes "cupti.h"))
          (four (codes "extras") (codes "CUPTI") (codes "include") (codes "cupti.h")) in
      let lib : SomeExists m (cupti_lib m)
          ↔ InOneOf (codes "/lib64/libcupti.so") (codes "/targets/x86_64-linux/lib/libcupti.so")
              (codes "/extras/CUPTI/lib64/libcupti.so") =
        SomeExists-iff _ _ _ _ _ _ (two (codes "lib64") (codes "libcupti.so"))
          (four (codes "targets") (codes "x86_64-linux") (codes "lib") (codes "libcupti.so"))
          (four (codes "extras") (codes "CUPTI") (codes "lib64") (codes "libcupti.so")) in
      (
        λ ready.
            let (torch, (g, (k, (n, _))), h, l) = to ready in
            (torch, (gpp.0 g, make.0 k, nvcc.0 n), hdr.0 h, lib.0 l),
        λ (torch, (g, k, n), h, l).
            from (torch, (gpp.1 g, (make.1 k, (nvcc.1 n, tt))), hdr.1 h, lib.1 l),
      )
