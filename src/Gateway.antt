-- ===== src/Gateway.antt =====
-- hatchery/core/gateway.py: the routes of sessions, checkpoints and jobs, and the helpers that put an
-- operation into the queue and wait for its result; hatchery/core/plugins.py: the hooks they run.
pub mod State
pub mod Ownership
pub mod Views
pub mod Routes
pub mod Jobs
pub mod Admission
pub mod Operations
pub mod Delivery
pub mod Requests
pub mod Owners
pub mod Lifecycle
pub mod Changes
pub mod Served
pub mod Events
pub mod Admitted
mod Examples
pub mod Quotas
pub mod Refusals
