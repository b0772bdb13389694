-- ===== src/Labels.antt =====
-- The labels of an entity: osprey_worker/src/osprey/worker/lib/osprey_shared/labels.py (their
-- statuses, reasons and states) and osprey_worker/src/osprey/worker/lib/storage/labels.py (the
-- provider that applies mutations to them). The definitions stand in Status, Reasons, State,
-- Mutations, Provider and Serial; the other modules prove.
pub mod Status
pub mod Reasons
pub mod State
pub mod Merging
pub mod Expiry
pub mod Applying
pub mod Mutations
pub mod Provider
pub mod Survivors
pub mod Conflicts
pub mod Desired
pub mod Computing
pub mod Manual
pub mod Serial
pub mod RoundTrip
mod Examples
