-- ===== src/SqliteQueue.antt =====
-- hatchery/core/backends/queue/sqlite.py: the job queue on a database. A table is the list of its rows;
-- `UPDATE ... WHERE` changes the rows that pass the test. Each method holds the lock, and what it
-- reads and writes is one transaction, so it is one step. SQLite itself is not modelled.
pub mod Table
pub mod Methods
pub mod Invariant
pub mod Taking
pub mod Single
pub mod Heads
pub mod Outcomes
mod Examples
