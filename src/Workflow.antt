-- ===== src/Workflow.antt =====
-- The state machine of one simulation: wq_workflow/workflow_state.py.
pub mod State
pub mod Fsm
pub mod Spec
pub mod Order
