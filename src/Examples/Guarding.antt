-- ===== src/Examples/Guarding.antt =====
-- The governance of wq_workflow/governance with weights in millionths.
use worldquant_workflow_v2_r.Governance.Gate.{
  ModelMetadata, Registry, GateConfig, allow_hard_decision, measured, flag_of, or_config,
}
use worldquant_workflow_v2_r.Common.{
  ℕ, codes, if◌then◌else◌, true, some, false, text_eq, none, ◌≡◌, mem_text, ◌↔◌, All, refl,
  find_text, Text, Bool, not,
}
use worldquant_workflow_v2_r.Governance.Flags.{
  guard_config, IsGuarded, guarded_tasks, IsWeaker, guard_config-IsGuarded, Guarded,
}
use worldquant_workflow_v2_r.Governance.Guard.{AdapterCalls, GuardParts, check_task}
use worldquant_workflow_v2_r.Governance.Lifecycle.{is_hard_decision_allowed_status, status_of}
use worldquant_workflow_v2_r.Examples.Rewards.{units}
use worldquant_workflow_v2_r.Governance.Effects.{returned, threw}
use worldquant_workflow_v2_r.Governance.Fallback.{check_task-IsCautious}
use worldquant_workflow_v2_r.Governance.Holds.{IsCautious, IsSafeEffect}
use worldquant_workflow_v2_r.Governance.Allowed.{RegistryPermits, allow_hard_decision_iff}
use worldquant_workflow_v2_r.Governance.Retrain.{Scheduler, run_retrain, report}
use worldquant_workflow_v2_r.Governance.Recorded.{Recorded}

abbrev champion_model : ModelMetadata ℕ
champion_model = record {
  model_version = codes "v7";
  raw_status = codes "champion";
  meta_status = codes "champion";
  model_weight = 600_000;
  meta_weight = 600_000;
  expired = false;
  recommended_action = codes "keep_active";
  has_decision_snapshot_history = true;
  false_skip_rate = measured 10_000;
}

-- Only the policy has a model.
abbrev policy_registry : Registry ℕ
policy_registry = record {
  get_active_metadata = λ task. if text_eq task (codes "policy") then some champion_model else none;
  is_consistent = λ task. true;
}

abbrev all_flags : GateConfig ℕ
all_flags = record {
  flags = λ flag. true;
  force_enable_unsafe_ml_decisions = false;
  min_legacy_baseline_budget = 100_000;
  simulator_max_false_skip_rate = 20_000;
  simulator_validation_backtest_budget = 50_000;
}

policy_allowed :
    (allow_hard_decision units true
      (some policy_registry)
      (some all_flags)
      (codes "policy")
      (codes "mutation_policy")
      none).allowed
    ≡ true
unfolding allow_hard_decision is_hard_decision_allowed_status text_eq mem_text flag_of find_text
    status_of
policy_allowed = refl

parent_denied :
    (allow_hard_decision units true
      (some policy_registry)
      (some all_flags)
      (codes "parent")
      (codes "parent_selection")
      none).reason
    ≡ codes "no_active_model"
unfolding allow_hard_decision is_hard_decision_allowed_status text_eq mem_text flag_of find_text
parent_denied = refl

allow_hard_decision_iff_example :
    ((allow_hard_decision units true
        (some policy_registry)
        (some all_flags)
        (codes "policy")
        (codes "mutation_policy")
        none).allowed
      ≡ true)
    ↔ ((r : Registry ℕ) × (c : GateConfig ℕ) × (true ≡ true)
        × (some policy_registry ≡ some r)
        × (or_config none (some all_flags) ≡ some c)
        × (c.flags (flag_of (codes "policy")) ≡ true)
        × RegistryPermits units (codes "policy") r c)
allow_hard_decision_iff_example =
    allow_hard_decision_iff units true (some policy_registry) (some all_flags) (codes "policy")
      (codes "mutation_policy") none

-- Only the flag of the simulator cannot be set.
abbrev settable : Text → Bool
settable flag = not (text_eq flag (codes "enable_simulator_model_skip"))

abbrev guarded_config : Guarded ℕ
guarded_config = guard_config units true (some policy_registry) none settable all_flags

guard_config-IsGuarded_example :
    All (IsGuarded units true (some policy_registry) none settable guarded_config) guarded_tasks
    × IsWeaker units true
        (some policy_registry)
        none
        settable
        guarded_config.effective_config
        all_flags
guard_config-IsGuarded_example =
    guard_config-IsGuarded units true (some policy_registry) none settable all_flags

guarded_off : guarded_config.effective_config.flags (codes "enable_parent_model_decision") ≡ false
unfolding guard_config allow_hard_decision find_text status_of text_eq
guarded_off = refl

left_on : guarded_config.effective_config.flags (codes "enable_simulator_model_skip") ≡ true
unfolding guard_config allow_hard_decision find_text status_of text_eq
left_on = refl

-- The registry is inconsistent, the repair throws.
abbrev broken_calls : AdapterCalls ℕ
broken_calls = record {
  get_active_metadata =
      λ task. returned (some (record { model_version = codes "v7"; expired = false }));
  check_registry_consistency = λ task. returned false;
  repair_registry = λ task. threw (codes "disk full");
  disable_active_model = λ task. returned true;
  update_model_weight = λ task version weight. returned true;
  rollback_to_previous_active = λ task. returned false;
}

abbrev broken_parts : GuardParts ℕ
broken_parts = record { adapter = some broken_calls; evaluate = none; scheduler = none }

repair_thrown :
    (check_task units broken_parts (codes "parent")).0.reason ≡ codes "guard_exception:disk full"
unfolding check_task
repair_thrown = refl

check_task-IsCautious_example :
    let (r, done) = check_task units broken_parts (codes "parent") in
    IsCautious r × All (IsSafeEffect units) done
check_task-IsCautious_example = check_task-IsCautious units broken_parts (codes "parent")

-- The trainer returns a report that says that it failed.
abbrev failing_trainer : Scheduler
failing_trainer = record {
  quality = λ task. none;
  trainer = λ task. some (
      returned (
        report (record {
          model_version = codes "v8";
          status = codes "failed";
          not_ok = false;
          reason = codes "no samples";
        })));
  mark_lifecycle = none;
}

retraining_failed :
    (run_retrain {R = ℕ} (codes "parent") failing_trainer).0.reason
    ≡ codes "retrain_failed:no samples"
unfolding run_retrain mem_text
retraining_failed = refl
