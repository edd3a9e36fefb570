-- ===== src/Analyze/Records.antt =====
-- The rows of a run's CSV files, with the columns that the analysis reads: the scheduler's issue log
-- and the observer's records. Times and ids are unsigned in the files.
use cuda_schedule_project.Prelude.{ℕ, String}

pub data OpKind : Type 0 where
  kernel_launch kernel_launch_ex_c malloc free memcpy memcpy_async memset memset_async : OpKind
  stream_sync event_record cublas_gemm_ex cublas_sgemm : OpKind

unfoldable pub op_kind_name : OpKind → String
op_kind_name kernel_launch = "cudaLaunchKernel"
op_kind_name kernel_launch_ex_c = "cudaLaunchKernelExC"
op_kind_name malloc = "cudaMalloc"
op_kind_name free = "cudaFree"
op_kind_name memcpy = "cudaMemcpy"
op_kind_name memcpy_async = "cudaMemcpyAsync"
op_kind_name memset = "cudaMemset"
op_kind_name memset_async = "cudaMemsetAsync"
op_kind_name stream_sync = "cudaStreamSynchronize"
op_kind_name event_record = "cudaEventRecord"
op_kind_name cublas_gemm_ex = "cublasGemmEx"
op_kind_name cublas_sgemm = "cublasSgemm"

pub record Dim3 : Type 0 where
  pub x : ℕ
  pub y : ℕ
  pub z : ℕ

-- issue_log.csv
pub record IssueRow : Type 0 where
  pub client : ℕ
  pub op_id : ℕ
  pub kind : OpKind
  pub t_intercept_ns : ℕ
  pub t_issue_ns : ℕ
  pub t_returned_ns : ℕ
  pub grid : Dim3
  pub block : Dim3
  pub bytes : ℕ

-- obs_kernels.csv
pub record KernelRecord : Type 0 where
  pub correlation : ℕ
  pub start_ns : ℕ
  pub end_ns : ℕ
  pub stream : ℕ
  pub grid : Dim3
  pub block : Dim3
  pub name : String

-- obs_memcpys.csv
pub record MemcpyRecord : Type 0 where
  pub correlation : ℕ
  pub start_ns : ℕ
  pub end_ns : ℕ
  pub stream : ℕ
  pub bytes : ℕ

-- obs_runtime.csv
pub record RuntimeRecord : Type 0 where
  pub correlation : ℕ
  pub cbid : ℕ
  pub thread_id : ℕ
  pub start_ns : ℕ

-- obs_calib.csv
pub record CalibSample : Type 0 where
  pub cupti_ns : ℕ
  pub mono_ns : ℕ
