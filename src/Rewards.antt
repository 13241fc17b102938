-- ===== src/Rewards.antt =====
-- Delayed rewards: wq_workflow/core/evolution/pending_reward_manager.py.
pub mod State
pub mod Injection
pub mod Settlement
pub mod Once
pub mod Settled
pub mod History
