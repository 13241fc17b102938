-- ===== src/Examples/Simulation.antt =====
-- The state machine of wq_workflow/workflow_state.py in two environments.
use worldquant_workflow_v2_r.Workflow.State.{WorkflowState, state_policy, state_order, wait_result}
use worldquant_workflow_v2_r.Workflow.Fsm.{
  Environment, run, new_fsm, Event, Attempt, done, timed_out, completed,
}
use worldquant_workflow_v2_r.Common.{
  List, Option, some, ℕ, true, ◌≡◌, ◌++◌, if◌then◌else◌, ◌↔◌, refl, ◌==◌, All, [], none,
}
use worldquant_workflow_v2_r.Workflow.Order.{
  Exits, SurvivesState, StopsAt, run_returns_iff, run_order,
}

-- The result is slow once, and everything else completes.
abbrev slow_result : WorkflowState → Option (ℕ → Attempt)
slow_result wait_result = some (λ retry. if retry == 0 then timed_out else completed)
slow_result _ = none

abbrev one_timeout : Environment
one_timeout = record { handlers = slow_result; recover = some (λ _ _. true) }

one_timeout_done : (run one_timeout new_fsm).1 ≡ done
unfolding run state_policy
one_timeout_done = refl

run_returns_iff_example :
    ((run one_timeout new_fsm).1 ≡ done) ↔ All (SurvivesState one_timeout) state_order
run_returns_iff_example = run_returns_iff one_timeout new_fsm

run_order_example :
    (before after : List WorkflowState) × (es : List Event) × (state_order ≡ before ++ after)
    × Exits before es
    × ((run one_timeout new_fsm).0.trace ≡ [] ++ es)
    × StopsAt one_timeout after (run one_timeout new_fsm).1
run_order_example = run_order one_timeout new_fsm
