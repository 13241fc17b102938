-- ===== src/Strategy.antt =====
-- The strategies of wq_workflow/strategy: their roles, the promotion to champion, the way back, and
-- the states that the portfolio recommends.
pub mod Table
pub mod Promotion
pub mod Rollback
pub mod Demotion
pub mod Champion
pub mod Gates
pub mod Transition
pub mod Recommended
