-- ===== src/Worker.antt =====
-- hatchery/core/worker.py: the part of the worker that takes jobs and answers them.
pub mod Payload
pub mod Jobs
pub mod Answers
pub mod Pins
mod Examples
