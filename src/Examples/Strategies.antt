-- ===== src/Examples/Strategies.antt =====
-- The strategies of wq_workflow/strategy: a promotion, a rollback and a recommendation.
use worldquant_workflow_v2_r.Strategy.Transition.{
  champion, challenger, disabled, limited_active, RulesConfig, Score, recommend_state, is_blocked,
  has_sufficient_evidence, can_recommend_limited_active, has_high_sc_risk, is_default_champion,
  can_promote_to_challenger, normalize_state, unique,
}
use worldquant_workflow_v2_r.Strategy.Table.{Row, get_strategy, Role}
use worldquant_workflow_v2_r.Strategy.Promotion.{
  Store, PromotionConfig, Evidence, evaluate_promotion, promote_if_eligible, promotion_pass,
}
use worldquant_workflow_v2_r.Common.{
  Text, List, codes, ◌∷◌, ℕ, [], true, some, text_eq, ◌≡◌, refl, none, ◌↔◌, false, mem_text, ◌≤◌,
  find_text,
}
use worldquant_workflow_v2_r.Strategy.Rollback.{roll_back_to}
use worldquant_workflow_v2_r.Strategy.Demotion.{OnlyChampion, IsActive, IsChampion}
use worldquant_workflow_v2_r.Strategy.Champion.{
  HasOneChampion, Operation, after, roll_back_to-IsChampion, promote, after-HasOneChampion,
  promote_if_eligible-IsChampion, back_to_previous, deactivate, back_to_legacy,
}
use worldquant_workflow_v2_r.Examples.Rewards.{units}
use worldquant_workflow_v2_r.Strategy.Gates.{Eligible, promotion_pass_iff}
use worldquant_workflow_v2_r.Strategy.Recommended.{recommend_state_lem}
use worldquant_workflow_v2_r.Expr.Printer.{strip}
use worldquant_workflow_v2_r.Governance.Lifecycle.{
  can_transition, is_terminal_status, status_of, model_weight,
}

abbrev legacy_row : Row
legacy_row = record {
  strategy_id = codes "legacy_champion";
  role = Role.champion;
  task_name = [];
  model_version = [];
  status = codes "active";
  updated_at = 1;
}

abbrev learner_row : Row
learner_row = record {
  strategy_id = codes "parent_learning_challenger";
  role = Role.challenger;
  task_name = codes "parent";
  model_version = codes "v1";
  status = codes "active";
  updated_at = 2;
}

abbrev registered : Store
registered = record { strategies = legacy_row ∷ learner_row ∷ []; allocations = []; reports = [] }

abbrev thresholds : PromotionConfig units
thresholds = record {
  require_model_validation_pass = true;
  require_offline_replay_pass = true;
  min_samples = 200;
  min_support_coverage = 650_000;
  min_reward_improvement = 50_000;
  max_sc_risk_delta = 30_000;
  max_failure_rate_delta = 30_000;
}

abbrev convincing : Evidence units
convincing = record {
  stored_replay = some (record {
    replay_pass = true;
    sample_count = 400;
    support_coverage = 800_000;
    estimated_reward_delta = 100_000;
    estimated_sc_risk_delta = 10_000;
    estimated_failure_delta = 0;
  });
  offline_replay = none;
  support_pass = true;
  validation_pass = λ task version. true;
  has_severe_drift = false;
}

abbrev learner : Text
learner = codes "parent_learning_challenger"

passes_all : promotion_pass units thresholds convincing learner registered.strategies ≡ true
unfolding evaluate_promotion get_strategy text_eq
passes_all = refl

promotion_pass_iff_example :
    (promotion_pass units thresholds convincing learner registered.strategies ≡ true) ↔ (
      (r : Row) × (get_strategy learner registered.strategies ≡ some r)
      × Eligible units thresholds convincing learner r)
promotion_pass_iff_example =
    promotion_pass_iff units thresholds convincing learner registered.strategies

promote_if_eligible-IsChampion_example :
    let (s, promoted) = promote_if_eligible units thresholds convincing 3 learner registered in
    (promoted ≡ promotion_pass units thresholds convincing learner registered.strategies)
    × (promoted ≡ true
        → OnlyChampion learner s.strategies
          × IsChampion learner s.strategies
          × (s.allocations ≡ record { strategy_id = learner; role = Role.champion } ∷ []))
    × (promoted ≡ false
        → (s.strategies ≡ registered.strategies)
          × (s.allocations ≡ [])
          × (s.reports
              ≡ record { strategy_id = learner; promotion_pass = false; safety_pass = false } ∷ []))
promote_if_eligible-IsChampion_example =
    promote_if_eligible-IsChampion units thresholds convincing 3 learner registered

roll_back_to-IsChampion_example :
    let t = (roll_back_to 4 learner registered).strategies in
    OnlyChampion learner t × (IsActive learner registered.strategies → IsChampion learner t)
roll_back_to-IsChampion_example = roll_back_to-IsChampion 4 learner registered

abbrev a_month : List (ℕ × Operation units)
a_month =
    (3, promote convincing learner)
    ∷ (4, back_to_previous)
    ∷ (5, deactivate learner)
    ∷ (6, back_to_legacy)
    ∷ []

one_to_start : OnlyChampion (codes "legacy_champion") registered.strategies
one_to_start = ((λ _. refl), ((λ h. absurd (cc h)), tt))

after-HasOneChampion_example :
    HasOneChampion units (after units thresholds a_month registered).strategies
after-HasOneChampion_example =
    after-HasOneChampion units thresholds a_month registered (_, one_to_start)

abbrev rules : RulesConfig
rules = record {
  default_champion = [];
  allow_auto_champion_promotion = true;
  challenger_min_samples = 100;
  challenger_min_confidence = codes "medium";
  limited_active_min_samples = 500;
  limited_active_min_confidence = codes "high";
  block_high_sc_risk = true;
}

abbrev well_scored : Score
well_scored = record {
  strategy_id = codes "ml_parent_policy";
  strategy_type = codes "ml_parent_policy";
  sample_count = 900;
  confidence = codes "high";
  risk_level = codes "low";
  reason_codes = [];
  risk_flags = [];
  governance_status = [];
  governance_decision = [];
}

recommended : (recommend_state rules well_scored (codes " Champion")).to_state ≡ limited_active
unfolding recommend_state is_blocked has_sufficient_evidence can_recommend_limited_active
    has_high_sc_risk text_eq mem_text find_text normalize_state unique strip
recommended = refl

recommend_state_lem_example :
    let t = recommend_state rules well_scored (codes " Champion") in
    ((t.to_state ≡ champion) ↔ (is_default_champion rules (codes "ml_parent_policy") ≡ true))
    × ((t.allowed ≡ false)
        ↔ (is_default_champion rules (codes "ml_parent_policy") ≡ false)
          × (is_blocked well_scored ≡ true))
    × (t.allowed ≡ false → t.to_state ≡ disabled)
    × (t.to_state ≡ limited_active
        → (is_blocked well_scored ≡ false)
          × (codes "low" ≡ codes "low")
          × (has_high_sc_risk rules well_scored ≡ false)
          × (500 ≤ 900))
    × (t.to_state ≡ challenger → can_promote_to_challenger rules well_scored ≡ true)
recommend_state_lem_example = recommend_state_lem rules well_scored (codes " Champion")

-- A disabled model may be marked as rolled back, not as a shadow, and has no weight.
disabled_to_rolled_back : can_transition (codes "disabled") (codes "rolled_back") ≡ true
unfolding can_transition status_of find_text text_eq
disabled_to_rolled_back = refl

disabled_to_shadow : can_transition (codes "disabled") (codes "shadow") ≡ false
unfolding can_transition status_of find_text text_eq
disabled_to_shadow = refl

disabled_weight : model_weight units (codes "disabled") (some 250_000) ≡ 0
unfolding model_weight is_terminal_status status_of find_text text_eq
disabled_weight = refl
