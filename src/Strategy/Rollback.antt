-- ===== src/Strategy/Rollback.antt =====
-- `RollbackPolicy` of wq_workflow/strategy/rollback.py. The comparison of the performance tracker and
-- the latest safety report are inputs.
use worldquant_workflow_v2_r.Common.{
  Bool, Text, List, ℕ, ◌∷◌, codes, Option, some, none, not, keep, ◌++◌, true, false, [], text_eq,
  ◌||◌, if◌then◌else◌,
}
use worldquant_workflow_v2_r.Migration.Reals.{Reals}
use worldquant_workflow_v2_r.Strategy.Table.{
  Row, Table, list_by_role, update_role, champion, has_id, previous_champion, get_strategy,
  challenger,
}
use worldquant_workflow_v2_r.Strategy.Promotion.{Store, demote}

pub data Alarm : Type 0 where
  recent_reward_drop sc_risk_increase failure_rate_increase safety_report_invalidated : Alarm

abbrev alarm_if : Bool → Alarm → List Alarm → List Alarm
alarm_if true why rest = why ∷ rest
alarm_if false why rest = rest

abbrev legacy_champion : Text
legacy_champion = codes "legacy_champion"

-- `str((row or {}).get("strategy_id") or "legacy_champion")`
abbrev pub id_or_legacy : Option Row → Text
id_or_legacy none = legacy_champion
id_or_legacy (some r) = elim r.strategy_id [ [] ↦ legacy_champion | c ∷ id ↦ c ∷ id ]

-- `rows[0] if rows else None`
abbrev pub first_of : List Row → Option Row
first_of [] = none
first_of (r ∷ rs) = some r

-- The strategy that `evaluate_rollback` looks at: the one that was asked for, or the champion.
abbrev pub strategy_under_review : Text → Table → Option Row
strategy_under_review [] t = first_of (list_by_role champion t)
strategy_under_review (c ∷ id) t = get_strategy (c ∷ id) t

module _ (rs : Reals) where
  open rs use {R, lt, lit, sub}

  pub record RollbackConfig : Type 0 where
    pub reward_drop_threshold : R
    pub sc_risk_increase_threshold : R
    pub failure_rate_increase_threshold : R

  pub record Comparison : Type 0 where
    pub reward_delta : R
    pub sc_risk_delta : R
    pub failure_rate_delta : R

  -- `evaluate_rollback`: its reasons. `rollback_pass` says that there are some.
  unfoldable pub evaluate_rollback :
      RollbackConfig → (Text → Comparison) → (Text → Option Text) → Text → Table → List Alarm
  evaluate_rollback c compare latest_status asked t =
      let id = id_or_legacy (strategy_under_review asked t) in
      let deltas = compare id in
      let reached = λ (threshold x : R). not (lt x threshold) in
      let invalidated : Bool = elim (latest_status id) [
        | none ↦ false
        | some status ↦ text_eq status (codes "invalid") || text_eq status (codes "fail")
      ] in
      if text_eq id legacy_champion
      then []
      else alarm_if (reached c.reward_drop_threshold (sub (lit 0 0) deltas.reward_delta))
          recent_reward_drop
          (alarm_if (reached c.sc_risk_increase_threshold deltas.sc_risk_delta) sc_risk_increase (
            alarm_if (reached c.failure_rate_increase_threshold deltas.failure_rate_delta)
              failure_rate_increase (alarm_if invalidated safety_report_invalidated [])))

-- The champions of the loop of `_rollback`: those that are not the target
abbrev pub others : Text → List Row → List Row
others target rows = keep (λ r. not (has_id target r)) rows

abbrev pub restore : ℕ → Text → Table → Table
restore now target t =
    update_role now target champion
      (demote now challenger (others target (list_by_role champion t)) t)

-- `_rollback`
unfoldable pub roll_back_to : ℕ → Text → Store → Store
roll_back_to now target s = record {
  strategies = restore now target s.strategies;
  allocations = s.allocations ++ record { strategy_id = target; role = champion } ∷ [];
  reports =
      s.reports ++ record { strategy_id = target; promotion_pass = true; safety_pass = true } ∷ [];
}

-- `rollback_to_legacy`
unfoldable pub return_to_legacy : ℕ → Store → Store
return_to_legacy now s = roll_back_to now legacy_champion s

-- `rollback_to_previous_champion`
unfoldable pub rollback_to_previous_champion : ℕ → Store → Store
rollback_to_previous_champion now s =
    roll_back_to now (id_or_legacy (first_of (list_by_role previous_champion s.strategies))) s
