-- ===== src/Rewards/Settlement.antt =====
-- `settle_rewards` of wq_workflow/core/evolution/pending_reward_manager.py. What the survival memory
-- says of a candidate is the function `survived`. The store is written as a whole at the end: where
-- nothing was changed, that is what it was.
use worldquant_workflow_v2_r.Common.{
  [], ◌∷◌, Dict, ℕ, String, if◌then◌else◌, Bool, same_key, ◌||◌, ltb, leb, ◌+◌, ◌-◌, max,
}
use worldquant_workflow_v2_r.Migration.Reals.{Reals}
use worldquant_workflow_v2_r.Rewards.State.{
  Injections, ManagerConfig, PendingReward, Store, or_text, cancel_reward, release_reward,
}
use worldquant_workflow_v2_r.Rewards.Injection.{
  settlement_factor, direction_adjustment, decay_injections, value_at, inject_reinforcement,
}

module _ (rs : Reals) (pow_half : rs.R → rs.R) where
  open rs use {R, lit, add, mul, round_six}

  -- The variables of the loop
  pub record Progress : Type 0 where
    pub rows : Dict (PendingReward R)
    pub injections : Injections R
    pub released_total : R
    pub canceled_total : R
    pub released_count : ℕ
    pub canceled_count : ℕ

  -- The arguments of `settle_rewards`
  pub record Round : Type 0 where
    pub current_generation : ℕ
    pub survived : String → ℕ
    pub current_behavior_family : String
    pub current_template : String
    pub current_operator : String
    pub current_lineage : String

  pub record Snapshot : Type 0 where
    pub lineage_score : R
    pub family_weight : R
    pub operator_credibility : R
    pub global_reward_bias : R

  pub record SettlementReport : Type 0 where
    pub released_total : R
    pub canceled_total : R
    pub released_count : ℕ
    pub canceled_count : ℕ
    pub adjustment : R
    pub injection : Snapshot

  abbrev score_at : String → Dict R → R
  score_at key values = if same_key key "" then lit 0 0 else value_at rs pow_half key values

  -- `_direction_snapshot`
  unfoldable pub direction_snapshot : Injections R → String → String → String → Snapshot
  direction_snapshot i lineage family operator = record {
    lineage_score = score_at lineage i.lineage_score;
    family_weight = score_at family i.family_weight;
    operator_credibility = score_at operator i.operator_credibility;
    global_reward_bias = i.global_reward_bias;
  }

  -- `_empty_settlement`
  abbrev pub empty_settlement : Injections R → SettlementReport
  empty_settlement i = record {
    released_total = lit 0 0;
    canceled_total = lit 0 0;
    released_count = 0;
    canceled_count = 0;
    adjustment = lit 0 0;
    injection = direction_snapshot i "" "" "";
  }

  module _ (c : ManagerConfig rs) (round : Round) where
    -- The branch that releases
    abbrev pub visit_released : String → PendingReward R → Progress → Progress
    visit_released alpha_id r p =
        let generation = round.current_generation in
        let reward = mul r.pending_reward (settlement_factor rs pow_half c r generation) in
        record p {
          rows = release_reward alpha_id generation p.rows;
          released_total = add p.released_total reward;
          released_count = p.released_count + 1;
          injections = inject_reinforcement rs pow_half c r reward generation p.injections;
        }

    -- The branch that cancels
    abbrev pub visit_canceled : String → PendingReward R → Progress → Progress
    visit_canceled alpha_id r p = record p {
      rows = cancel_reward alpha_id round.current_generation p.rows;
      canceled_total = add p.canceled_total r.pending_reward;
      canceled_count = p.canceled_count + 1;
    }

    abbrev pub is_settled : PendingReward R → Bool
    is_settled r = r.released || r.canceled

    abbrev pub is_young : PendingReward R → Bool
    is_young r = ltb (round.current_generation - r.created_generation) (max 1 r.settle_after)

    abbrev pub has_survived : String → Bool
    has_survived alpha_id = leb c.release_survival_rounds (round.survived alpha_id)

    -- A round of the loop
    unfoldable pub visit : String → PendingReward R → Progress → Progress
    visit alpha_id r p =
        if is_settled r
        then p
        else if is_young r
        then p
        else if has_survived alpha_id
        then visit_released alpha_id r p
        else visit_canceled alpha_id r p

    -- The loop over the records that were loaded
    unfoldable pub visit_all : Dict (PendingReward R) → Progress → Progress
    unfolding visit
    visit_all [] p = p
    visit_all ((alpha_id, r) ∷ todo) p = visit_all todo (visit alpha_id r p)

    abbrev pub started : Store R → Progress
    started s = record {
      rows = s.rows;
      injections = s.injections;
      released_total = lit 0 0;
      canceled_total = lit 0 0;
      released_count = 0;
      canceled_count = 0;
    }

    abbrev pub report_of : Progress → Injections R → SettlementReport
    report_of p i =
        let family = or_text round.current_behavior_family round.current_template in
        record {
          released_total = round_six p.released_total;
          canceled_total = round_six p.canceled_total;
          released_count = p.released_count;
          canceled_count = p.canceled_count;
          adjustment = round_six (
              direction_adjustment rs pow_half c round.current_lineage family round.current_operator
                i);
          injection = direction_snapshot i round.current_lineage family round.current_operator;
        }

    abbrev pub settle_all : Store R → Store R × SettlementReport
    settle_all s =
        let p = visit_all s.rows (started s) in
        let i = decay_injections rs pow_half c round.current_generation p.injections in
        (record { rows = p.rows; injections = i }, report_of p i)

    abbrev pub settle_from : Dict (PendingReward R) → Store R → Store R × SettlementReport
    settle_from [] s = (s, empty_settlement s.injections)
    settle_from (_ ∷ _) s = settle_all s

    -- `settle_rewards`: the store that it saves and the report that it returns
    unfoldable pub settle_rewards : Store R → Store R × SettlementReport
    unfolding visit_all
    settle_rewards s = settle_from s.rows s
