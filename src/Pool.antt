-- ===== src/Pool.antt =====
-- hatchery/core/model_pool.py: the base models resident on a worker, least recently used first.
pub mod Slot
pub mod Rewrap
pub mod Tiered
pub mod Rooms
pub mod Recency
pub mod Tiers
pub mod Residency
mod Examples
