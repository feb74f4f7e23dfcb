-- ===== src/Benchmarks.antt =====
-- Benchmarks: the statistics of a scenario, and the run of a benchmark.
pub mod Statistics
pub mod Runner
mod Examples
