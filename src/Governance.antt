-- ===== src/Governance.antt =====
-- The governance of the models: wq_workflow/governance.
pub mod Lifecycle
pub mod Gate
pub mod Permits
pub mod Allowed
pub mod Flags
pub mod Effects
pub mod Retrain
pub mod Guard
pub mod Holds
pub mod Retrained
pub mod Recorded
pub mod Fallback
