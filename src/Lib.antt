-- ===== src/Lib.antt =====
-- Verification of the colocator's Python code: the analysis of its runs, the workloads that its
-- demos run, the drivers and the page exporter (colocator/).
--
-- A run of the colocator lets the clients' threads hand their CUDA calls to one scheduler thread.
-- Two native libraries record it: the scheduler's issue log, and the CUPTI observer's csv files
-- of GPU activities and host launches. The Python code drives the runs (colocator/demo,
-- colocator/python), joins and checks their records (colocator/analysis) and exports them as a
-- page (colocator/visualizer).
--
-- Parts, by file:
--   Prelude: the shared names of the library, tests on naturals, lists, integers (Prelude/Int)
--     and text.
--   Analyze: colocator/analysis/analyze.py. Records has the rows of the csv files, Kinds the
--     tables of kinds and kernel classes, Clock the map from CUPTI's clock, Join
--     assign_kernels, Trace build_colocated_trace (Kernels and Copies have what its rows tell,
--     Foreign the kernels that it leaves out, Accounts the account of a whole run), Solo
--     build_seq_trace, SelfCheck self_check, Intervals busy_intervals and overlap_ns,
--     Concurrency the report of metrics_colocated on them, Durations the rows of
--     kernel_durations_by_mode, Driver main over the mode directories.
--   Workload: colocator/demo/workload_defs/base.py, the pipelined loop of a workload and its
--     calibration. Slots has the well-formed pipelines, Pipeline what each method does, Calls
--     the methods in any order.
--   Frontend: colocator/python/colocator.py. Env has ensure_managed_env, Barrier the threads
--     that meet at a threading.Barrier as a step relation, with an executable step of one
--     thread, and Launch the constructor's checks and what launch does with the finished
--     threads.
--   Demo: colocator/demo/run_demo.py. Body has the body of a client over the workload's
--     pipeline, Modes make_clients and run_colocated over the frontend, Summary the
--     percentiles, Driver run_seq, summarize and main, Windows the windows of the modes on the
--     clock, Ends how main ends.
--   Export: colocator/visualizer/export.py. Trim has the trim to the last load mark, Ops the
--     operations of the page, Total the operations that have the times a page needs, Data the
--     whole of build_data, Whole the runs that are exported, Perf the latencies of their pages
--     beside those of the baseline.
--   Pairs: colocator/demo/run_pairs.py. Config has the directory of a configuration and the
--     checks of the names, Main the whole of main over the runs of run_demo.py, Measured its
--     iterations, Returned what it runs and returns.
--   Pages: colocator/visualizer/export_all.py. Layouts has the runs that a directory is scanned
--     for, Scanned the scan of them all, Written the lists of the navigation and the pages,
--     Links the pages that its links lead to, Navigation the page that each pair of workloads
--     and each configuration leads to.
--   Registry: colocator/demo/workloads.py, the registry of the workloads, with Script for the
--     run of one of them and Timed for what it reports. Server: colocator/visualizer/server.py,
--     the answers of the page server.
--   Decode: colocator/demo/workload_defs/llmdecode.py. The caches are cells of a heap; Cells
--     has its laws, Methods the base class's methods and check, Tokens the abstract view of a
--     decoder as a snapshot and a number of passes, Passes the invariant that relates the two,
--     Refines the calls in any order, Snapshots the file of the snapshot, Checked the result of
--     check.
--   Timeline: colocator/analysis/plot_timeline.py. Clients has the ids of the clients, Lanes
--     the rows in the lanes, Curves the curves of the latencies.
--   CheckEnv: colocator/tools/check_env.py, with Ready for the machines that pass it.
--
-- Numbers. Times are unsigned 64-bit nanosecond stamps in the csv files, and are naturals here;
-- what the code subtracts is an integer (Prelude/Int). The mean offset of the clocks is a
-- quotient, so Analyze/Clock keeps all times as multiples of one over the number of samples,
-- which makes the sums exact; int() is rounding to zero there. The code computes these with
-- floats of 53 bits, and the rounding of floats is not modelled. Ids, sizes and counts are
-- naturals.
--
-- Fuel. No definition runs on fuel: each loop is structural recursion on the list that it walks
-- or on the count that it counts.
--
-- Parameters. What is not in the repository is an argument: the sort of a pandas table
-- (Analyze/Pandas, with the laws that pandas documents and an insertion sort that meets them),
-- the GPU's progress, the contents of the files that are read, and the calls of the native
-- libraries.
--
-- Not modelled: the native libraries and the CUDA extension (colocator/src, colocator/ext), whose
-- records are inputs here; the workloads other than the language model's, which are calls of
-- torch and of that extension; the smoke test; the drawing of plots, the page's script and
-- template, printed text, the parsing of arguments and of files.
pub mod Prelude
pub mod Analyze
pub mod CheckEnv
pub mod Decode
pub mod Demo
pub mod Export
pub mod Frontend
pub mod Pages
pub mod Pairs
pub mod Registry
pub mod Server
pub mod Timeline
pub mod Workload
