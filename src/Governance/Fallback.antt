-- ===== src/Governance/Fallback.antt =====
-- About failures in wq_workflow/governance/long_term_guard.py.
use worldquant_workflow_v2_r.Migration.Reals.{Reals}
use worldquant_workflow_v2_r.Governance.Effects.{
  Action, Attempt, wrote, weighed, disabled_active, pure, rolled_to_previous, calling, asked_repair,
}
use worldquant_workflow_v2_r.Governance.Holds.{
  on_return, Holds, Kept, IsCautious, recover-Kept, if-Holds, bind-Holds, told-Holds, IsSafeEffect,
  calling-Holds, asking-Holds,
}
use worldquant_workflow_v2_r.Governance.Guard.{
  Settings, apply_model_action, GuardParts, check_task, after_rollback, AdapterCalls, ActiveModel,
  without_parts, decided, act_on, repair_failed, consistent_then, no_active_model, task_block,
  retrained_with, adapter_action, chosen_action, action_block, evaluated, with_model, state_of,
}
use worldquant_workflow_v2_r.Common.{
  Text, Bool, mem_text, ◌≡◌, Option, not, false, inl, text_eq, All, ◌⊎◌, if◌then◌else◌, inr, codes,
  some, ◌||◌, refl, true, none, ◌∷◌, [], arith,
}
use worldquant_workflow_v2_r.Governance.Retrain.{Scheduler}
use worldquant_workflow_v2_r.Governance.Retrained.{run_retrain-Kept}

module _ (rs : Reals) where
  open rs use {R, lit}

  abbrev IsSafeSettings : Settings rs → Type 0
  IsSafeSettings (status, weight, fallback) = (fallback ≡ false) ⊎ (weight ≡ lit 0 0)

  without_parts-Holds : (action : Text) → Holds rs IsSafeSettings (without_parts rs action)
  without_parts-Holds action =
      if-Holds rs (text_eq action (codes "force_legacy") || text_eq action (codes "keep_shadow"))
        (λ _. on_return (inr refl) tt) (λ _. on_return (inl refl) tt)

  retrained_with-Holds :
      (task action : Text) (o : Option Scheduler)
      → Holds rs IsSafeSettings (retrained_with rs task action o)
  retrained_with-Holds task action none = without_parts-Holds action
  retrained_with-Holds task action (some s) = on_return (inr refl) (run_retrain-Kept rs task s).1

  otherwise-Holds :
      (task action : Text) (o : Option Scheduler)
      → Holds rs IsSafeSettings (
          if text_eq action (codes "retrain")
          then retrained_with rs task action o
          else without_parts rs action)
  otherwise-Holds task action o =
      if-Holds rs (text_eq action (codes "retrain")) (λ _. retrained_with-Holds task action o)
        (λ _. without_parts-Holds action)

  after_rollback-safe : (ok : Bool) → IsSafeSettings (after_rollback rs ok)
  after_rollback-safe true = inl refl
  after_rollback-safe false = inr refl

  adapter_action-Holds :
      (task version action : Text) (a : AdapterCalls R) (otherwise : Action R (Settings rs))
      → Holds rs IsSafeSettings otherwise
      → Holds rs IsSafeSettings (adapter_action rs task version action a otherwise)
  adapter_action-Holds task version action a otherwise h =
      if-Holds rs (text_eq action (codes "reduce_weight"))
        (λ _.
          bind-Holds rs _ _ (calling-Holds rs (weighed task version (lit 5 2)) _ refl)
            λ _ _. on_return (inl refl) tt)
        λ _.
          if-Holds rs (text_eq action (codes "disable_model"))
            (λ _.
              bind-Holds rs _ _ (calling-Holds rs (disabled_active task) _ tt)
                λ _ _. on_return (inr refl) tt)
            λ _.
              if-Holds rs (text_eq action (codes "rollback"))
                (λ _.
                  bind-Holds rs _ _ (calling-Holds rs (rolled_to_previous task) _ tt)
                    λ ok _. on_return (after_rollback-safe ok) tt)
                (λ _. h)

  chosen_action-Holds :
      (task version action : Text) (adapter : Option (AdapterCalls R)) (o : Option Scheduler)
      → Holds rs IsSafeSettings (chosen_action rs task version action adapter o)
  chosen_action-Holds task version action none o = otherwise-Holds task action o
  chosen_action-Holds task version action (some a) o =
      adapter_action-Holds task version action a _ (otherwise-Holds task action o)

  applied_cautious :
      (action : Text)
      → (not (text_eq action (codes "disable_model") || text_eq action (codes "force_legacy"))
          ≡ true)
        ⊎ (mem_text action ("force_legacy" ∷ "disable_model" ∷ "keep_shadow" ∷ []) ≡ true)
  unfolding mem_text
  applied_cautious action = ground arith

  action_block-Holds :
      (task version action : Text) (adapter : Option (AdapterCalls R)) (o : Option Scheduler)
      → Holds rs IsCautious (action_block rs task version action adapter o)
  action_block-Holds task version action adapter o =
      bind-Holds rs (chosen_action rs task version action adapter o) _
        (chosen_action-Holds task version action adapter o)
        λ (status, weight, fallback) h.
          told-Holds rs (wrote (state_of rs task (some version) status weight fallback)) _ h
            (applied_cautious action)

  apply_model_action-Kept :
      (p : GuardParts R) (task version action : Text)
      → Kept rs IsCautious (apply_model_action rs p task version action)
  unfolding apply_model_action mem_text
  apply_model_action-Kept p task version action =
      recover-Kept rs _ (action_block rs task version action p.adapter p.scheduler)
        (action_block-Holds task version action p.adapter p.scheduler) (λ e. (inr refl, tt))

  decided-Holds :
      (p : GuardParts R) (task : Text) (m : ActiveModel)
      → Holds rs (λ _. Unit {0}) (decided rs p task m)
  decided-Holds p task m =
      if-Holds rs m.expired (λ _. on_return tt tt)
        (λ _.
          bind-Holds rs (evaluated rs task m.model_version p.evaluate) _ (evaluated_any p.evaluate)
            λ _ _. on_return tt tt)
    where
      evaluated_any :
          (o : Option (Text → Text → Attempt Text))
          → Holds rs (λ _. Unit {0}) (evaluated rs task m.model_version o)
      evaluated_any none = on_return tt tt
      evaluated_any (some evaluate) = asking-Holds rs (evaluate task m.model_version)

  act_on-Holds :
      (p : GuardParts R) (task : Text) (m : ActiveModel) → Holds rs IsCautious (act_on rs p task m)
  act_on-Holds p task m = bind-Holds rs (decided rs p task m) _ (decided-Holds p task m) λ action _.
      let (c, h) = apply_model_action-Kept p task m.model_version action in on_return c h

  repair_failed-Holds :
      (a : AdapterCalls R) (task : Text) (m : ActiveModel)
      → Holds rs IsCautious (repair_failed rs a task m)
  unfolding mem_text
  repair_failed-Holds a task m =
      bind-Holds rs _ _ (calling-Holds rs (disabled_active task) (a.disable_active_model task) tt)
        λ _ _.
          told-Holds rs (wrote (state_of rs task (some m.model_version) "disabled" (lit 0 0) true))
            _ (inr refl) (inr refl)

  consistent_then-Holds :
      (p : GuardParts R) (a : AdapterCalls R) (task : Text) (m : ActiveModel)
      → Holds rs IsCautious (consistent_then rs p a task m)
  consistent_then-Holds p a task m =
      bind-Holds rs _ _ (asking-Holds rs (a.check_registry_consistency task)) λ ok _.
        bind-Holds rs _ _
          (if-Holds rs ok {x = pure true} {y = calling (asked_repair task) (a.repair_registry task)}
            (λ _. on_return tt tt)
            (λ _. calling-Holds rs (asked_repair task) (a.repair_registry task) tt))
          λ repaired _.
            if-Holds rs repaired (λ _. act_on-Holds p task m) (λ _. repair_failed-Holds a task m)

  no_active_model-Holds : (task : Text) → Holds rs IsCautious (no_active_model rs task)
  no_active_model-Holds task =
      told-Holds rs (wrote (state_of rs task none "shadow" (lit 0 0) true)) _ (inr refl) (inl refl)

  task_block-Holds :
      (p : GuardParts R) (task : Text) (o : Option (AdapterCalls R))
      → Holds rs IsCautious (task_block rs p task o)
  task_block-Holds p task none = no_active_model-Holds task
  task_block-Holds p task (some a) =
      bind-Holds rs _ _ (asking-Holds rs (a.get_active_metadata task)) λ meta _. with_any meta
    where
      with_any : (meta : Option ActiveModel) → Holds rs IsCautious (with_model rs p a task meta)
      with_any none = no_active_model-Holds task
      with_any (some m) = consistent_then-Holds p a task m

  -- Whatever the registry, the evaluation and the retraining return or throw, a check of a task has
  -- a result; one that is not good recommends the legacy way, the disabling of the model or to keep
  -- it a shadow. Every state that the check writes with an active fallback gives the model no
  -- weight; where the check itself calls `mark_lifecycle` it is for the status of a shadow, and
  -- where it calls `update_model_weight` it is for a weight of 0.05.
  pub check_task-IsCautious :
      (p : GuardParts R) (task : Text)
      → let (r, done) = check_task rs p task in IsCautious r × All (IsSafeEffect rs) done
  unfolding check_task mem_text
  check_task-IsCautious p task =
      recover-Kept rs _ (task_block rs p task p.adapter) (task_block-Holds p task p.adapter)
        (λ e. (inr refl, tt))
