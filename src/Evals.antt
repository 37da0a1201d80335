-- ===== src/Evals.antt =====
-- The summary of a benchmark run, hydralisk/evals/terminal_bench.py.
pub mod Values
pub mod TaskId
pub mod Tasks
pub mod Tally
pub mod Summary
pub mod Report
pub mod Harbor
pub mod Job
pub mod Tests
