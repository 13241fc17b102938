-- ===== src/Rewards/State.antt =====
-- The stored data of `PendingRewardManager` of wq_workflow/core/evolution/pending_reward_manager.py,
-- over an abstract type of finite floats, and the operations on one record.
use worldquant_workflow_v2_r.Common.{
  ℕ, Dict, String, Option, Bool, if◌then◌else◌, some, max, true, lookup, same_key, ◌==◌, not, false,
  none, ◌||◌, insert,
}
use worldquant_workflow_v2_r.Migration.Reals.{Reals, max_of, min_of}

-- A record of `data`, as `_normalize_record` returns it
pub record PendingReward (R : Type 0) : Type 0 where
  pub pending_reward : R
  pub created_generation : ℕ
  pub settle_after : ℕ
  pub released : Bool
  pub canceled : Bool
  pub behavior_family : String
  pub operator : String
  pub lineage_root : String
  pub lineage_depth : ℕ
  pub settled_generation : Option ℕ

-- The payload's `injections`
pub record Injections (R : Type 0) : Type 0 where
  pub lineage_score : Dict R
  pub family_weight : Dict R
  pub operator_credibility : Dict R
  pub global_reward_bias : R
  pub last_generation : ℕ
  pub last_decay_generation : ℕ

pub record Store (R : Type 0) : Type 0 where
  pub rows : Dict (PendingReward R)
  pub injections : Injections R

-- `value or default`, for a text and for a number
abbrev pub or_text : String → String → String
or_text value default = if same_key value "" then default else value

abbrev pub or_number : Option ℕ → ℕ → ℕ
or_number none default = default
or_number (some n) default = if n == 0 then default else n

-- The arguments of `register_pending_reward` behind the reward
pub record Registration : Type 0 where
  pub created_generation : ℕ
  pub settle_after : Option ℕ
  pub behavior_family : String
  pub template : String
  pub operator : String
  pub lineage_depth : ℕ
  pub lineage_root : String

module _ (rs : Reals) where
  open rs use {R, lit, mul, lt, round_six}

  pub record ManagerConfig : Type 0 where
    pub settle_after : ℕ
    pub release_survival_rounds : ℕ
    pub injection_weight : R
    pub max_injection_per_round : R
    pub injection_ema_alpha : R
    pub decay_halflife_generations : R

  -- The bounds that `__init__` puts on its arguments
  unfoldable pub new_config : ℕ → ℕ → R → R → R → R → ManagerConfig
  new_config after rounds weight most alpha halflife = record {
    settle_after = max 1 after;
    release_survival_rounds = max 1 rounds;
    injection_weight = max_of rs (lit 0 0) weight;
    max_injection_per_round = max_of rs (lit 0 0) most;
    injection_ema_alpha = min_of rs (lit 1 0) (max_of rs (lit 0 0) alpha);
    decay_halflife_generations = max_of rs (lit 1 0) halflife;
  }

  -- `x <= 0`
  abbrev pub not_positive : R → Bool
  not_positive x = not (lt (lit 0 0) x)

  abbrev pub pending_record : ManagerConfig → R → Registration → PendingReward R
  pending_record c reward a = record {
    pending_reward = round_six (mul reward (lit 7 1));
    created_generation = a.created_generation;
    settle_after = max 1 (or_number a.settle_after c.settle_after);
    released = false;
    canceled = false;
    behavior_family = or_text a.behavior_family (or_text a.template "legacy");
    operator = or_text a.operator "unknown";
    lineage_root = a.lineage_root;
    lineage_depth = a.lineage_depth;
    settled_generation = none;
  }

  -- `register_pending_reward`: the store that it saves
  unfoldable pub register_pending_reward :
      ManagerConfig → String → R → Registration → Store R → Store R
  register_pending_reward c alpha_id reward a s =
      if same_key alpha_id "" || not_positive reward
      then s
      else record s { rows = insert alpha_id (pending_record c reward a) s.rows }

  -- `immediate_reward`
  unfoldable pub immediate_reward : R → R
  immediate_reward reward = if not_positive reward then reward else round_six (mul reward (lit 3 1))

module _ {R : Type 0} where
  abbrev pub as_released : ℕ → PendingReward R → PendingReward R
  as_released generation r = record r {
    released = true;
    canceled = false;
    settled_generation = some generation;
  }

  abbrev pub as_canceled : ℕ → PendingReward R → PendingReward R
  as_canceled generation r = record r {
    canceled = true;
    released = false;
    settled_generation = some generation;
  }

  abbrev pub change_at :
      String → (PendingReward R → PendingReward R) → Dict (PendingReward R) → Dict (PendingReward R)
  change_at alpha_id f rows = elim (lookup alpha_id rows) [
    | none ↦ rows
    | some r ↦ insert alpha_id (f r) rows
  ]

  -- `release_reward` and `cancel_reward`: the rows that they leave
  unfoldable pub release_reward : String → ℕ → Dict (PendingReward R) → Dict (PendingReward R)
  release_reward alpha_id generation rows = change_at alpha_id (as_released generation) rows

  unfoldable pub cancel_reward : String → ℕ → Dict (PendingReward R) → Dict (PendingReward R)
  cancel_reward alpha_id generation rows = change_at alpha_id (as_canceled generation) rows
