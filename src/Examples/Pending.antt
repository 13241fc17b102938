-- ===== src/Examples/Pending.antt =====
-- The pending rewards of wq_workflow/core/evolution/pending_reward_manager.py in millionths, with two
-- candidates of which one survives.
use mathlib.Core.Option
use worldquant_workflow_v2_r.Rewards.State.{
  ManagerConfig, Injections, Store, Registration, register_pending_reward,
}
use worldquant_workflow_v2_r.Common.{
  ℕ, ◌≡◌, insert, lookup, ◌+◌, ◌/◌, [], none, IsDict, refl, ◌^◌, if◌then◌else◌, ◌≤◌, same_key,
}
use worldquant_workflow_v2_r.Examples.Rewards.{units}
use worldquant_workflow_v2_r.Rewards.Settlement.{SettlementReport, Round, settle_rewards}
use worldquant_workflow_v2_r.Rewards.Once.{pending_count, outcome}
use worldquant_workflow_v2_r.Rewards.History.{
  settle_rewards-pending_count, History, IsExclusive, settles, History-settled_once, registers,
  empty, settle_rewards-lookup,
}

abbrev halves : ℕ → ℕ
halves x = 1_000_000 / 2 ^ (x / 1_000_000)

abbrev manager : ManagerConfig units
manager = record {
  settle_after = 3;
  release_survival_rounds = 2;
  injection_weight = 50_000;
  max_injection_per_round = 200_000;
  injection_ema_alpha = 300_000;
  decay_halflife_generations = 8_000_000;
}

abbrev nothing_injected : Injections ℕ
nothing_injected = record {
  lineage_score = [];
  family_weight = [];
  operator_credibility = [];
  global_reward_bias = 0;
  last_generation = 0;
  last_decay_generation = 0;
}

abbrev in_generation : ℕ → Registration
in_generation n = record {
  created_generation = n;
  settle_after = none;
  behavior_family = "momentum";
  template = "";
  operator = "rank";
  lineage_depth = 1;
  lineage_root = "root";
}

-- Only the first candidate has survived.
abbrev fourth : Round units halves
fourth = record {
  current_generation = 4;
  survived = λ k. if same_key k "a" then 2 else 0;
  current_behavior_family = "momentum";
  current_template = "";
  current_operator = "rank";
  current_lineage = "root";
}

abbrev empty_store : Store ℕ
empty_store = record { rows = []; injections = nothing_injected }

abbrev one_pending : Store ℕ
one_pending = register_pending_reward units manager "a" 900_000 (in_generation 0) empty_store

abbrev two_pending : Store ℕ
two_pending = register_pending_reward units manager "b" 400_000 (in_generation 1) one_pending

abbrev reported : SettlementReport units halves
reported = (settle_rewards units halves manager fourth two_pending).1

counted_once : (reported.released_count ≡ 1) × (reported.canceled_count ≡ 1)
unfolding settle_rewards register_pending_reward insert
counted_once = (refl, refl)

both_distinct : IsDict two_pending.rows
unfolding register_pending_reward insert lookup
both_distinct = (refl, (refl, tt))

settle_rewards-lookup_example :
    lookup "a" (settle_rewards units halves manager fourth two_pending).0.rows
    ≡ Option.map (outcome units halves manager fourth "a") (lookup "a" two_pending.rows)
settle_rewards-lookup_example =
    settle_rewards-lookup units halves manager fourth two_pending "a" both_distinct

settle_rewards-pending_count_example :
    pending_count units halves manager
        (settle_rewards units halves manager fourth two_pending).0.rows
      + reported.released_count
      + reported.canceled_count
    ≡ pending_count units halves manager two_pending.rows
settle_rewards-pending_count_example =
    settle_rewards-pending_count units halves manager fourth two_pending both_distinct

two_settled :
    History units halves manager nothing_injected 2 2
      (settle_rewards units halves manager fourth two_pending).0
unfolding settle_rewards register_pending_reward insert
two_settled =
    settles fourth refl
      (registers "b" 400_000 (in_generation 1) (registers "a" 900_000 (in_generation 0) empty))

History-settled_once_example :
    (2
        + pending_count units halves manager
            (settle_rewards units halves manager fourth two_pending).0.rows
      ≤ 2)
    × IsExclusive units halves manager
        (settle_rewards units halves manager fourth two_pending).0.rows
History-settled_once_example = History-settled_once units halves manager two_settled
