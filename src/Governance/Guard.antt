-- ===== src/Governance/Guard.antt =====
-- `LongTermGuard` of wq_workflow/governance/long_term_guard.py. The registry, the online evaluation
-- and the scheduler are other parts: each call of them returns or throws.
use worldquant_workflow_v2_r.Common.{
  [], ◌∷◌, Text, Option, List, Bool, String, false, true, codes, if◌then◌else◌, some, text_eq, ◌||◌,
  none, mem_text, not, ◌++◌,
}
use worldquant_workflow_v2_r.Migration.Reals.{Reals}
use worldquant_workflow_v2_r.Governance.Retrain.{Scheduler, run_retrain}
use worldquant_workflow_v2_r.Governance.Effects.{
  TaskGovernanceState, Attempt, Action, returned, calling, pure, weighed, ◌>>=◌, disabled_active,
  rolled_to_previous, ◌>>◌, CheckResult, asking, tell, Effect, wrote, recover, check_result,
  asked_repair,
}

-- What the guard reads of the active model
pub record ActiveModel : Type 0 where
  pub model_version : Text
  pub expired : Bool

pub record AdapterCalls (R : Type 0) : Type 0 where
  pub get_active_metadata : Text → Attempt (Option ActiveModel)
  pub check_registry_consistency : Text → Attempt Bool
  pub repair_registry : Text → Attempt Bool
  pub disable_active_model : Text → Attempt Bool
  pub update_model_weight : Text → Text → R → Attempt Bool
  pub rollback_to_previous_active : Text → Attempt Bool

pub record GuardParts (R : Type 0) : Type 0 where
  pub adapter : Option (AdapterCalls R)
  -- `online_evaluator.evaluate_task`: the recommended action, if the evaluation is enabled
  pub evaluate : Option (Text → Text → Attempt Text)
  pub scheduler : Option Scheduler

abbrev pub known_actions : List String
known_actions =
    "reduce_weight" ∷ "retrain" ∷ "rollback" ∷ "disable_model" ∷ "force_legacy" ∷ "keep_shadow"
    ∷ "keep_active" ∷ []

module _ (rs : Reals) where
  open rs use {R, lit}

  abbrev pub state_of : Text → Option Text → String → R → Bool → TaskGovernanceState R
  state_of task version status weight fallback = record {
    task_name = task;
    active_model_version = version;
    lifecycle_status = codes status;
    model_weight = weight;
    fallback_active = fallback;
  }

  -- The status, the weight and whether the fallback is active, which an action sets
  abbrev pub Settings : Type 0
  Settings = String × R × Bool

  abbrev pub after_rollback : Bool → Settings
  after_rollback true = ("rolled_back", lit 25 2, false)
  after_rollback false = ("disabled", lit 0 0, true)

  abbrev pub stay_active : Settings
  stay_active = ("active", lit 1 0, false)

  -- The last branches, which need no other part
  abbrev pub without_parts : Text → Action R Settings
  without_parts action =
      if text_eq action (codes "force_legacy") || text_eq action (codes "keep_shadow")
      then pure ("shadow", lit 0 0, true)
      else pure stay_active

  abbrev pub retrained_with : Text → Text → Option Scheduler → Action R Settings
  retrained_with task action none = without_parts action
  retrained_with task action (some s) =
      let (r, done) = run_retrain task s in (returned ("shadow", lit 0 0, true), done)

  abbrev pub adapter_action :
      Text → Text → Text → AdapterCalls R → Action R Settings → Action R Settings
  adapter_action task version action a otherwise =
      if text_eq action (codes "reduce_weight")
      then calling (weighed task version (lit 5 2)) (a.update_model_weight task version (lit 5 2))
        >>= (λ _. pure ("degraded", lit 5 2, false))
      else if text_eq action (codes "disable_model")
      then calling (disabled_active task) (a.disable_active_model task)
        >>= (λ _. pure ("disabled", lit 0 0, true))
      else if text_eq action (codes "rollback")
      then calling (rolled_to_previous task) (a.rollback_to_previous_active task)
        >>= (λ ok. pure (after_rollback ok))
      else otherwise

  abbrev pub chosen_action :
      Text → Text → Text → Option (AdapterCalls R) → Option Scheduler → Action R Settings
  chosen_action task version action adapter s =
      let otherwise =
        if text_eq action (codes "retrain")
        then retrained_with task action s
        else without_parts action in
      elim adapter [ none ↦ otherwise | some a ↦ adapter_action task version action a otherwise ]

  -- The `try` block of `apply_model_action`
  abbrev pub action_block :
      Text → Text → Text → Option (AdapterCalls R) → Option Scheduler → Action R CheckResult
  action_block task version action adapter s = do
    (status, weight, fallback) ← chosen_action task version action adapter s
    tell (wrote (state_of task (some version) status weight fallback))
    pure (record {
      ok = not (text_eq action (codes "disable_model") || text_eq action (codes "force_legacy"));
      task_name = task;
      recommended_action = action;
      reason = codes "action_applied:" ++ action;
      warnings = [];
    })

  -- `apply_model_action`
  unfoldable pub apply_model_action :
      GuardParts R → Text → Text → Text → CheckResult × List (Effect R)
  apply_model_action p task version action =
      recover (λ e. (check_result false task "force_legacy" (codes "action_failed:" ++ e), []))
        (action_block task version action p.adapter p.scheduler)

  -- A call that catches its own exceptions, in a `try` block
  abbrev pub inner : CheckResult × List (Effect R) → Action R CheckResult
  inner (r, done) = (returned r, done)

  abbrev pub evaluated : Text → Text → Option (Text → Text → Attempt Text) → Action R Text
  evaluated task version none = pure (codes "keep_active")
  evaluated task version (some evaluate) = asking (evaluate task version)

  -- `check_model_freshness`, `check_online_performance` and `decide_model_action`
  abbrev pub decided : GuardParts R → Text → ActiveModel → Action R Text
  decided p task m =
      if m.expired
      then pure (codes "retrain")
      else (evaluated task m.model_version p.evaluate >>= (λ action.
          pure (if mem_text action known_actions then action else codes "keep_active")))

  abbrev pub act_on : GuardParts R → Text → ActiveModel → Action R CheckResult
  act_on p task m = do
    action ← decided p task m
    inner (apply_model_action p task m.model_version action)

  abbrev pub repair_failed : AdapterCalls R → Text → ActiveModel → Action R CheckResult
  repair_failed a task m = do
    _ ← calling (disabled_active task) (a.disable_active_model task)
    tell (wrote (state_of task (some m.model_version) "disabled" (lit 0 0) true))
    pure (check_result false task "force_legacy" (codes "registry_inconsistent_repair_failed"))

  -- `check_registry`, and the repair
  abbrev pub consistent_then :
      GuardParts R → AdapterCalls R → Text → ActiveModel → Action R CheckResult
  consistent_then p a task m = do
    ok ← asking (a.check_registry_consistency task)
    repaired ← (if ok then pure true else calling (asked_repair task) (a.repair_registry task))
    if repaired then act_on p task m else repair_failed a task m

  abbrev pub no_active_model : Text → Action R CheckResult
  no_active_model task = do
    tell (wrote (state_of task none "shadow" (lit 0 0) true))
    pure (check_result true task "force_legacy" (codes "no_active_model"))

  abbrev pub with_model :
      GuardParts R → AdapterCalls R → Text → Option ActiveModel → Action R CheckResult
  with_model p a task none = no_active_model task
  with_model p a task (some m) = consistent_then p a task m

  abbrev pub task_block : GuardParts R → Text → Option (AdapterCalls R) → Action R CheckResult
  task_block p task none = no_active_model task
  task_block p task (some a) = do
    meta ← asking (a.get_active_metadata task)
    with_model p a task meta

  -- `check_task`
  unfoldable pub check_task : GuardParts R → Text → CheckResult × List (Effect R)
  unfolding apply_model_action
  check_task p task =
      recover (λ e. (check_result false task "force_legacy" (codes "guard_exception:" ++ e), []))
        (task_block p task p.adapter)
