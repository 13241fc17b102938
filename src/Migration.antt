-- ===== src/Migration.antt =====
-- The migration of the reward from the legacy engine to V2: wq_workflow/reward_migration, and the
-- controller of the adaptive weights in wq_workflow/core/evolution.
pub mod Reals
pub mod State
pub mod Scheduler
pub mod Controller
pub mod Steps
pub mod Histories
pub mod Bounds
