-- ===== src/Analyze.antt =====
-- colocator/analysis/analyze.py: the join of the issue log with the observer's records, its checks,
-- and the metrics.
pub mod Records
pub mod Kinds
pub mod Clock
pub mod Pandas
pub mod Join
pub mod Trace
pub mod Solo
pub mod SelfCheck
pub mod Intervals
pub mod Concurrency
pub mod Durations
pub mod Driver
