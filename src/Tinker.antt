-- ===== src/Tinker.antt =====
-- hatchery/core/tinker_compat.py: the futures that stand for jobs, and the sequence numbers that make a
-- repeated request return the first future.
pub mod Futures
pub mod Records
pub mod Retries
mod Examples
