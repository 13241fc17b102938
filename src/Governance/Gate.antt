-- ===== src/Governance/Gate.antt =====
-- `GovernancePolicyGate` of wq_workflow/governance/policy_gate.py. The registry is what
-- `RegistryAdapter` answers, which catches its own exceptions; whether a model has expired is a
-- comparison with the clock.
use worldquant_workflow_v2_r.Common.{
  [], ◌∷◌, Text, Bool, List, Option, String, codes, find_text, some, false, if◌then◌else◌, not,
  ◌++◌, ◌||◌, none, true, text_eq, mem_text, ◌&&◌,
}
use worldquant_workflow_v2_r.Migration.Reals.{Reals}
use worldquant_workflow_v2_r.Governance.Lifecycle.{is_hard_decision_allowed_status}

-- `false_skip_rate`: missing, no number, or a number
pub data Rate (R : Type 0) : Type 0 where
  unknown : Rate R
  invalid : Rate R
  measured : R → Rate R

-- What the gate reads of a model's metadata
pub record ModelMetadata (R : Type 0) : Type 0 where
  pub model_version : Text
  pub raw_status : Text
  pub meta_status : Text
  pub model_weight : R
  -- the weight outside the raw payload
  pub meta_weight : R
  pub expired : Bool
  -- `last_online_eval.recommended_action`
  pub recommended_action : Text
  pub has_decision_snapshot_history : Bool
  pub false_skip_rate : Rate R

pub record Registry (R : Type 0) : Type 0 where
  pub get_active_metadata : Text → Option (ModelMetadata R)
  pub is_consistent : Text → Bool

pub record GateConfig (R : Type 0) : Type 0 where
  -- `getattr(cfg, flag, False)`
  pub flags : Text → Bool
  pub force_enable_unsafe_ml_decisions : Bool
  pub min_legacy_baseline_budget : R
  pub simulator_max_false_skip_rate : R
  pub simulator_validation_backtest_budget : R

pub record GovernanceDecision (R : Type 0) : Type 0 where
  pub allowed : Bool
  pub reason : Text
  pub task_name : Text
  pub decision_type : Text
  pub model_version : Option Text
  pub lifecycle_status : Option Text
  pub model_weight : R
  pub fallback_required : Bool
  pub warnings : List Text

-- FLAG_BY_TASK
abbrev pub flag_by_task : List (String × Text)
flag_by_task =
    ("sc", codes "enable_sc_model_fallback")
    ∷ ("parent", codes "enable_parent_model_decision")
    ∷ ("policy", codes "enable_policy_model_decision")
    ∷ ("simulator", codes "enable_simulator_model_skip")
    ∷ ("outcome", codes "enable_simulator_model_skip")
    ∷ []

abbrev pub or_flag : Text → Option Text → Text
or_flag task none = codes "enable_" ++ (task ++ codes "_model_decision")
or_flag task (some flag) = flag

unfoldable pub flag_of : Text → Text
flag_of task = or_flag task (find_text task flag_by_task)

abbrev pub blocking_actions : List String
blocking_actions = "reduce_weight" ∷ "disable_model" ∷ "rollback" ∷ "force_legacy" ∷ []

-- `a or b`, for texts
abbrev pub or_else : Text → Text → Text
or_else [] b = b
or_else (c ∷ s) b = c ∷ s

module _ {R : Type 0} where
  -- `raw.get("lifecycle_status") or meta.get("lifecycle_status") or "shadow"`
  abbrev pub status_in : ModelMetadata R → Text
  status_in m = or_else m.raw_status (or_else m.meta_status (codes "shadow"))

  abbrev pub or_config : Option (GateConfig R) → Option (GateConfig R) → Option (GateConfig R)
  or_config none own = own
  or_config (some c) own = some c

module _ (rs : Reals) where
  open rs use {R, lit, lt}

  -- `x or default`
  abbrev pub or_value : R → R → R
  or_value x default = if lt x (lit 0 0) || lt (lit 0 0) x then x else default

  -- `x <= 0`
  abbrev pub at_most_zero : R → Bool
  at_most_zero x = not (lt (lit 0 0) x)

  module _ (task : Text) (decision_type : Text) where
    -- A decision without a model
    abbrev pub denied : Text → GovernanceDecision R
    denied why = record {
      allowed = false;
      reason = why;
      task_name = task;
      decision_type = decision_type;
      model_version = none;
      lifecycle_status = none;
      model_weight = lit 0 0;
      fallback_required = true;
      warnings = [];
    }

    abbrev pub about : ModelMetadata R → Bool → Text → GovernanceDecision R
    about m allowed why = record {
      allowed = allowed;
      reason = why;
      task_name = task;
      decision_type = decision_type;
      model_version = some m.model_version;
      lifecycle_status = some (status_in m);
      model_weight = m.model_weight;
      fallback_required = not allowed;
      warnings = [];
    }

    abbrev pub unsafe_warning : Text
    unsafe_warning =
        codes "UNSAFE force_enable_unsafe_ml_decisions=true; governance checks bypassed"

    abbrev pub forced : Option (ModelMetadata R) → GovernanceDecision R
    forced none = record (denied (codes "force_unsafe_allowed")) {
      allowed = true;
      fallback_required = false;
      warnings = unsafe_warning ∷ [];
    }
    forced (some m) = record (about m true (codes "force_unsafe_allowed")) {
      lifecycle_status = some m.meta_status;
      model_weight = m.meta_weight;
      warnings = unsafe_warning ∷ [];
    }

    abbrev pub simulator_checks : GateConfig R → ModelMetadata R → Rate R → GovernanceDecision R
    simulator_checks c m unknown = about m false (codes "simulator_false_skip_risk_unknown")
    simulator_checks c m invalid = about m false (codes "simulator_false_skip_risk_invalid")
    simulator_checks c m (measured x) =
        if lt (or_value c.simulator_max_false_skip_rate (lit 2 2)) x
        then about m false (codes "simulator_false_skip_risk_too_high")
        else if at_most_zero (or_value c.simulator_validation_backtest_budget (lit 0 0))
        then about m false (codes "simulator_validation_budget_missing")
        else about m true (codes "hard_decision_allowed")

    -- The tests of one task
    abbrev pub task_checks : GateConfig R → ModelMetadata R → GovernanceDecision R
    task_checks c m =
        if text_eq task (codes "parent")
          && at_most_zero (or_value c.min_legacy_baseline_budget (lit 1 1))
        then about m false (codes "legacy_baseline_budget_missing")
        else if text_eq task (codes "policy") && not m.has_decision_snapshot_history
        then about m false (codes "no_decision_snapshot_history")
        else if mem_text task ("simulator" ∷ "outcome" ∷ [])
        then simulator_checks c m m.false_skip_rate
        else about m true (codes "hard_decision_allowed")

    -- The tests of a model
    abbrev pub model_checks : GateConfig R → Bool → Option (ModelMetadata R) → GovernanceDecision R
    model_checks c consistent none = denied (codes "no_active_model")
    model_checks c consistent (some m) =
        if not consistent
        then about m false (codes "registry_inconsistent")
        else if not (is_hard_decision_allowed_status (status_in m))
        then about m false (codes "lifecycle_status_not_allowed:" ++ status_in m)
        else if m.expired
        then about m false (codes "model_expired")
        else if mem_text m.recommended_action blocking_actions
        then about m false (codes "online_evaluation_blocks:" ++ m.recommended_action)
        else task_checks c m

    abbrev pub flag_checks : Registry R → GateConfig R → GovernanceDecision R
    flag_checks r c =
        if not (c.flags (flag_of task))
        then denied (flag_of task ++ codes "_disabled")
        else if c.force_enable_unsafe_ml_decisions
        then forced (r.get_active_metadata task)
        else model_checks c (r.is_consistent task) (r.get_active_metadata task)

    abbrev pub configured : Registry R → Option (GateConfig R) → GovernanceDecision R
    configured r none = denied (flag_of task ++ codes "_disabled")
    configured r (some c) = flag_checks r c

    abbrev pub registered : Option (Registry R) → Option (GateConfig R) → GovernanceDecision R
    registered none c = record (denied (codes "governance_unavailable")) {
      warnings = codes "governance unavailable" ∷ [];
    }
    registered (some r) c = configured r c

  -- `allow_hard_decision`
  unfoldable pub allow_hard_decision :
      Bool
      → Option (Registry R)
      → Option (GateConfig R)
      → Text
      → Text
      → Option (GateConfig R)
      → GovernanceDecision R
  unfolding flag_of is_hard_decision_allowed_status text_eq mem_text
  allow_hard_decision available registry config task decision_type effective =
      registered task decision_type (if available then registry else none)
        (or_config effective config)
