-- ===== src/Workflow/State.antt =====
-- `WorkflowState`, `STATE_POLICIES` and `STATE_ORDER` of wq_workflow/workflow_state.py, and
-- `RecoveryLevel` of wq_workflow/recovery.py.
use worldquant_workflow_v2_r.Common.{ℕ, Option, List, some, ◌∷◌, none, []}

pub data WorkflowState : Type 0 where
  init auth_check open_simulate editor_ready write_code write_name click_run : WorkflowState
  wait_queue wait_result parse_result quality_check add_favorite finished : WorkflowState
  recover_page rebuild_context restart_browser restart_task fatal_error : WorkflowState

pub data RecoveryLevel : Type 0 where
  reload_page_level recreate_page_level rebuild_context_level : RecoveryLevel
  restart_browser_level kill_chromium_level : RecoveryLevel

-- Timeouts are whole seconds.
pub record StatePolicy : Type 0 where
  pub timeout : ℕ
  pub max_retry : ℕ
  pub recovery : WorkflowState
  pub recovery_level : RecoveryLevel

abbrev policy : ℕ → ℕ → WorkflowState → RecoveryLevel → StatePolicy
policy timeout max_retry recovery level = record {
  timeout = timeout;
  max_retry = max_retry;
  recovery = recovery;
  recovery_level = level;
}

abbrev restart : ℕ → ℕ → StatePolicy
restart timeout max_retry = policy timeout max_retry restart_browser restart_browser_level

abbrev rebuild : ℕ → ℕ → StatePolicy
rebuild timeout max_retry = policy timeout max_retry rebuild_context rebuild_context_level

abbrev reload : ℕ → ℕ → StatePolicy
reload timeout max_retry = policy timeout max_retry recover_page reload_page_level

-- `STATE_POLICIES[state]`; `none` is the KeyError of a state that has no policy.
unfoldable pub state_policy : WorkflowState → Option StatePolicy
state_policy init = some (restart 10 0)
state_policy auth_check = some (rebuild 120 1)
state_policy open_simulate = some (rebuild 90 1)
state_policy editor_ready = some (rebuild 150 1)
state_policy write_code = some (reload 90 1)
state_policy write_name = some (reload 60 1)
state_policy click_run = some (reload 45 1)
state_policy wait_queue = some (rebuild 60 1)
state_policy wait_result = some (rebuild 300 2)
state_policy parse_result = some (rebuild 60 1)
state_policy quality_check = some (policy 30 0 restart_task rebuild_context_level)
state_policy add_favorite = some (rebuild 90 1)
state_policy finished = some (restart 10 0)
state_policy _ = none

abbrev pub state_order : List WorkflowState
state_order =
    init ∷ auth_check ∷ open_simulate ∷ editor_ready ∷ write_code ∷ write_name ∷ click_run
    ∷ wait_queue ∷ wait_result ∷ parse_result ∷ quality_check ∷ add_favorite ∷ finished ∷ []
