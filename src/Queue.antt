-- ===== src/Queue.antt =====
-- The in-process job queue, hatchery/core/backends/queue/memory.py.
pub mod State
pub mod Dequeue
pub mod Settle
pub mod Invariant
pub mod Lines
pub mod Priority
pub mod Requeue
pub mod Candidates
pub mod Selection
pub mod Settlement
pub mod Runs
pub mod Waits
pub mod Samples
mod Examples
