-- ===== src/Strategy/Promotion.antt =====
-- `PromotionPolicy` of wq_workflow/strategy/promotion.py. What the replays, the support checker, the
-- model registry and the drift monitor report is the input `Evidence`; a configured value that is
-- missing or zero has its default already.
use worldquant_workflow_v2_r.Common.{
  Text, Bool, List, ℕ, ◌∷◌, true, if◌then◌else◌, false, Option, starts_with, some, not, [], ◌++◌,
  codes, none, ◌&&◌, ltb,
}
use worldquant_workflow_v2_r.Strategy.Table.{
  Table, Role, update_role, Row, get_strategy, champion, previous_champion, is_active, list_by_role,
  same_role, challenger,
}
use worldquant_workflow_v2_r.Migration.Reals.{Reals}

pub data Refusal : Type 0 where
  strategy_not_found strategy_not_active strategy_not_challenger : Refusal
  validation_fail offline_replay_fail support_insufficient : Refusal
  sample_count_below_minimum support_coverage_below_minimum : Refusal
  reward_improvement_below_minimum sc_risk_delta_above_maximum : Refusal
  failure_delta_above_maximum severe_drift : Refusal

-- `insert_allocation({…})`, with the budget 1.0
pub record Allocation : Type 0 where
  pub strategy_id : Text
  pub role : Role

-- `save_model_safety_report({…})`
pub record SafetyReport : Type 0 where
  pub strategy_id : Text
  pub promotion_pass : Bool
  pub safety_pass : Bool

pub record Store : Type 0 where
  pub strategies : Table
  pub allocations : List Allocation
  pub reports : List SafetyReport

-- `if failed: reasons.append(why)`, before the reasons that follow
abbrev pub refuse_if : Bool → Refusal → List Refusal → List Refusal
refuse_if true why rest = why ∷ rest
refuse_if false why rest = rest

abbrev pub is_empty : List Refusal → Bool
is_empty [] = true
is_empty (r ∷ rs) = false

-- The loop over the champions
unfoldable pub demote : ℕ → Role → List Row → Table → Table
demote now role [] t = t
demote now role (r ∷ rows) t = demote now role rows (update_role now r.strategy_id role t)

abbrev pub crown : ℕ → Text → Table → Table
crown now id t =
    update_role now id champion (demote now previous_champion (list_by_role champion t) t)

-- `_task_from_strategy`
unfoldable pub task_from_strategy : Text → Text
task_from_strategy id =
    if starts_with (codes "parent") id
    then codes "parent"
    else if starts_with (codes "policy") id
    then codes "policy"
    else if starts_with (codes "simulator") id
    then codes "simulator"
    else if starts_with (codes "sc") id
    then codes "sc"
    else []

-- `strategy.get("task_name") or self._task_from_strategy(strategy_id)`
abbrev task_or : Text → Text → Text
task_or id [] = task_from_strategy id
task_or id (c ∷ task) = c ∷ task

abbrev pub task_of : Text → Row → Text
task_of id r = task_or id r.task_name

module _ (rs : Reals) where
  open rs use {R, lt, lit}

  -- The numbers that are read of an offline replay report. `{}` is all zeros and no pass.
  pub record Replay : Type 0 where
    pub replay_pass : Bool
    pub sample_count : ℕ
    pub support_coverage : R
    pub estimated_reward_delta : R
    pub estimated_sc_risk_delta : R
    pub estimated_failure_delta : R

  abbrev no_replay : Replay
  no_replay = record {
    replay_pass = false;
    sample_count = 0;
    support_coverage = lit 0 0;
    estimated_reward_delta = lit 0 0;
    estimated_sc_risk_delta = lit 0 0;
    estimated_failure_delta = lit 0 0;
  }

  pub record PromotionConfig : Type 0 where
    pub require_model_validation_pass : Bool
    pub require_offline_replay_pass : Bool
    pub min_samples : ℕ
    pub min_support_coverage : R
    pub min_reward_improvement : R
    pub max_sc_risk_delta : R
    pub max_failure_rate_delta : R

  -- The latest report that is stored, if there is one; what `evaluate_task` returns for a task, if
  -- there is an offline replay; `support_pass`, and `_validation_pass` for a task and a version.
  pub record Evidence : Type 0 where
    pub stored_replay : Option Replay
    pub offline_replay : Option (Text → Text → Replay)
    pub support_pass : Bool
    pub validation_pass : Text → Text → Bool
    pub has_severe_drift : Bool

  -- The replay report, evaluated anew when none is stored, there is a task and an offline replay
  abbrev replay_of : Option Replay → Option (Text → Text → Replay) → Text → Text → Replay
  replay_of (some report) offline task version = report
  replay_of none (some evaluate) (c ∷ task) version = evaluate (c ∷ task) version
  replay_of none _ task version = no_replay

  abbrev pub report_of : Evidence → Text → Row → Replay
  report_of e id r = replay_of e.stored_replay e.offline_replay (task_of id r) r.model_version

  -- The checks of `evaluate_promotion` on a strategy that was found
  abbrev pub refusals : PromotionConfig → Evidence → Text → Row → List Refusal
  refusals c e id r =
      let replay = report_of e id r in
      let validated = e.validation_pass (task_of id r) r.model_version in
      refuse_if (not (is_active r)) strategy_not_active (
        refuse_if (not (same_role r.role challenger)) strategy_not_challenger (
          refuse_if (c.require_model_validation_pass && not validated) validation_fail (
            refuse_if (c.require_offline_replay_pass && not replay.replay_pass) offline_replay_fail
              (refuse_if (not e.support_pass) support_insufficient (
                refuse_if (ltb replay.sample_count c.min_samples) sample_count_below_minimum (
                  refuse_if (lt replay.support_coverage c.min_support_coverage)
                    support_coverage_below_minimum
                    (refuse_if (lt replay.estimated_reward_delta c.min_reward_improvement)
                      reward_improvement_below_minimum
                      (refuse_if (lt c.max_sc_risk_delta replay.estimated_sc_risk_delta)
                        sc_risk_delta_above_maximum
                        (refuse_if (lt c.max_failure_rate_delta replay.estimated_failure_delta)
                          failure_delta_above_maximum
                          (refuse_if e.has_severe_drift severe_drift []))))))))))

  abbrev refusals_of : PromotionConfig → Evidence → Text → Option Row → List Refusal
  refusals_of c e id none = strategy_not_found ∷ []
  refusals_of c e id (some r) = refusals c e id r

  -- `evaluate_promotion`: its reasons
  unfoldable pub evaluate_promotion : PromotionConfig → Evidence → Text → Table → List Refusal
  evaluate_promotion c e id t = refusals_of c e id (get_strategy id t)

  -- `promotion_pass`
  abbrev pub promotion_pass : PromotionConfig → Evidence → Text → Table → Bool
  promotion_pass c e id t = is_empty (evaluate_promotion c e id t)

  -- `promote_if_eligible`, with its `promoted`
  unfoldable pub promote_if_eligible : PromotionConfig → Evidence → ℕ → Text → Store → Store × Bool
  promote_if_eligible c e now id s =
      let report : Bool → SafetyReport =
        λ passed. record { strategy_id = id; promotion_pass = passed; safety_pass = passed } in
      let granted : Allocation = record { strategy_id = id; role = champion } in
      let promoted : Store = record {
        strategies = crown now id s.strategies;
        allocations = s.allocations ++ granted ∷ [];
        reports = s.reports ++ report true ∷ [];
      } in
      let refused : Store = record s { reports = s.reports ++ report false ∷ [] } in
      if promotion_pass c e id s.strategies then (promoted, true) else (refused, false)
