-- ===== src/Analyze/Kinds.antt =====
-- The kinds of operations that the analysis tells apart, and the classes of kernels that it reads
-- off their names.
use cuda_schedule_project.Prelude.{
  ℕ, String, Bool, true, false, List, [], ◌∷◌, any, ◌≡◌, refl, if◌then◌else◌,
}
use cuda_schedule_project.Prelude.Text.{codes, contains, lower}
use cuda_schedule_project.Analyze.Records.{
  OpKind, kernel_launch, memcpy, memcpy_async, cublas_gemm_ex, cublas_sgemm, KernelRecord,
}

abbrev pub cbid_launch : ℕ
cbid_launch = 211

abbrev pub cbid_memcpy_async : ℕ
cbid_memcpy_async = 41

-- `kind in MEMCPY_KINDS`
abbrev pub in_memcpy_kinds : OpKind → Bool
in_memcpy_kinds memcpy = true
in_memcpy_kinds memcpy_async = true
in_memcpy_kinds _ = false

-- `kind in KERNEL_KINDS`
abbrev pub in_kernel_kinds : OpKind → Bool
in_kernel_kinds kernel_launch = true
in_kernel_kinds cublas_gemm_ex = true
in_kernel_kinds cublas_sgemm = true
in_kernel_kinds _ = false

-- `kind == "cudaLaunchKernel"`
abbrev pub is_launch : OpKind → Bool
is_launch kernel_launch = true
is_launch _ = false

-- `tag in text`
abbrev pub has_tag : List ℕ → String → Bool
has_tag text tag = contains (codes tag) text

-- The first label whose tag the text holds, or else the last argument.
unfoldable pub first_label : List ℕ → List (String × String) → String → String
unfolding contains
first_label text [] otherwise = otherwise
first_label text ((tag, label) ∷ rest) otherwise =
    if has_tag text tag then label else first_label text rest otherwise

abbrev pub exact_tags : List (String × String)
exact_tags =
    ("sgemm_tiled", "sgemm")
    ∷ ("reduce", "reduce")
    ∷ ("elementwise", "elementwise")
    ∷ ("Functor", "elementwise")
    ∷ ("k_sleep", "sleep")
    ∷ ("k_copy_tb", "blockcopy")
    ∷ ("k_copy", "streamcopy")
    ∷ ("k_fma32", "fma32")
    ∷ ("k_fma64", "fma64")
    ∷ []

abbrev pub lower_tags : List (String × String)
lower_tags =
    ("flash", "attention")
    ∷ ("fmha", "attention")
    ∷ ("attention", "attention")
    ∷ ("nvjet", "gemm")
    ∷ ("cutlass", "gemm")
    ∷ ("gemv", "gemm")
    ∷ ("gemm", "gemm")
    ∷ ("splitksum", "gemm")
    ∷ ("softmax", "reduce")
    ∷ ("norm", "elementwise")
    ∷ ("catarray", "elementwise")
    ∷ ("index", "elementwise")
    ∷ ("gather", "elementwise")
    ∷ []

unfoldable pub kernel_class : String → String
unfolding first_label lower
kernel_class mangled =
    first_label (codes mangled) exact_tags (first_label (lower (codes mangled)) lower_tags "other")

abbrev pub cublas_partner_tags : List String
cublas_partner_tags = "splitkreduce" ∷ "splitk_reduce" ∷ "splitksum" ∷ []

-- A kernel that cuBLAS launches behind the main kernel of one call.
unfoldable pub is_partner : KernelRecord → Bool
unfolding contains lower
is_partner k = let low = lower (codes k.name) in any (has_tag low) cublas_partner_tags

-- The longer tag is tested before the shorter one that it contains.
kernel_class-blockcopy : kernel_class "_Z9k_copy_tbPKfPfi" ≡ "blockcopy"
unfolding kernel_class
kernel_class-blockcopy = refl

kernel_class-cutlass : kernel_class "void Cutlass_80_tensorop" ≡ "gemm"
unfolding kernel_class
kernel_class-cutlass = refl
