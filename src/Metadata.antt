-- ===== src/Metadata.antt =====
-- hatchery/core/backends/metadata/memory.py: the metadata store of a single process. Each method runs
-- under one lock, so it is one step; records are copied on the way in and out, so they are values.
pub mod Fields
pub mod Sessions
pub mod Jobs
pub mod Checkpoints
pub mod Queries
pub mod Listing
pub mod Counts
pub mod Updates
mod Examples
