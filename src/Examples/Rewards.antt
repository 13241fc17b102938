-- ===== src/Examples/Rewards.antt =====
-- The migration of wq_workflow/reward_migration with weights counted in millionths.
use worldquant_workflow_v2_r.Common.{
  ℕ, ◌^◌, ap, ltb, ◌*◌, ◌+◌, arith, true, ◌∷◌, ◌≡◌, ◌-◌, [], false, refl, ◌/◌, ◌≤◌, ◌≢◌, ◌<◌,
}
use worldquant_workflow_v2_r.Migration.Reals.{Reals, OrderLaws}
use worldquant_workflow_v2_r.Migration.Controller.{
  Observation, Config, blend_reward, move, settle, reward_cap, should_rollback, with_streaks,
  is_healthy, chosen_weights,
}
use worldquant_workflow_v2_r.Migration.State.{
  Snapshot, new_snapshot, shadow, reload, rollback, full_v2, with_weights, normalize_weights,
  transition, early_hybrid,
}
use worldquant_workflow_v2_r.Migration.Steps.{level, Edge, blend_reward_moves}
use worldquant_workflow_v2_r.Migration.Histories.{
  history, healthy_calls, history-level_bound, history-ne-full_v2,
}
use worldquant_workflow_v2_r.Migration.Bounds.{is_hybrid, blend_reward_bounds, blend_reward_shadow}
use worldquant_workflow_v2_r.Migration.Scheduler.{intersects, mem}

abbrev millionths : ℕ → ℕ → ℕ
millionths m d = m * 10 ^ 6 / 10 ^ d

abbrev pub units : Reals
units = record {
  R = ℕ;
  lit = millionths;
  add = λ x y. x + y;
  sub = λ x y. x - y;
  mul = λ x y. x * y / 1_000_000;
  div = λ x y. x * 1_000_000 / y;
  lt = ltb;
  round_six = λ x. x;
}

units_laws : OrderLaws units
units_laws = record {
  irreflexive = λ x. ground arith;
  asymmetric = λ x y h. ground arith;
  round_monotone = λ x y h. h;
  round_low = refl;
  round_high = refl;
  low_high = refl;
}

abbrev passing : Observation units
passing = record {
  now = "2026-01-01T00:00:00";
  legacy_reward = 400_000;
  v2_reward = 800_000;
  health = record {
    healthy = true;
    risk_flags = [];
    sample_count = 20;
    future_correlation = 300_000;
    lineage_entropy = 700_000;
    mutation_success_rate = 500_000;
    diversity_index = 900_000;
  };
  stability = record {
    stable = true;
    risk_flags = [];
    sample_count = 20;
    reward_variance = 100_000;
  };
  template_diversity = 900_000;
}

abbrev config : Config units
config = record {
  enable_adaptive_legacy = true;
  min_hybrid_samples = 12;
  healthy_streak_to_advance = 3;
  scheduler = record {
    max_step_up = 50_000;
    moderate_step_down = 100_000;
    severe_step_down = 250_000;
  };
  adaptive = record { min_legacy_weight = 150_000; max_legacy_weight = 850_000 };
}

-- Two passing calls are behind it.
abbrev almost : Snapshot units
almost = record (new_snapshot units) { healthy_streak = 2 }

third_call : (blend_reward units config passing almost).0.state ≡ early_hybrid
unfolding blend_reward move settle reload with_streaks with_weights normalize_weights transition
    intersects mem chosen_weights
third_call = refl

first_call : (blend_reward units config passing (new_snapshot units)).0.state ≡ shadow
unfolding blend_reward move settle reload with_streaks with_weights normalize_weights transition
    intersects mem chosen_weights
first_call = refl

blend_reward_moves_example :
    let t = (blend_reward units config passing almost).0 in
    Edge shadow t.state
    × (should_rollback units passing ≡ true → t.state ≡ rollback)
    × (level shadow < level t.state
        → (is_healthy units passing ≡ true) × (12 ≤ 20) × (level t.state * 3 ≤ 3))
blend_reward_moves_example = blend_reward_moves units config passing almost

history-level_bound_example :
    level (history units config (passing ∷ passing ∷ passing ∷ []) (new_snapshot units)).state * 3
    ≤ healthy_calls units (passing ∷ passing ∷ passing ∷ [])
history-level_bound_example = history-level_bound units config (passing ∷ passing ∷ passing ∷ [])

history-ne-full_v2_example : (history units config (passing ∷ []) almost).state ≢ full_v2
history-ne-full_v2_example = history-ne-full_v2 units config passing [] almost

blend_reward_bounds_example :
    (ltb (blend_reward units config passing almost).0.legacy_weight 150_000 ≡ false)
    × (ltb 850_000 (blend_reward units config passing almost).0.legacy_weight ≡ false)
blend_reward_bounds_example =
    blend_reward_bounds units units_laws config passing almost (ap is_hybrid third_call)

blend_reward_shadow_example :
    let (t, decision) = blend_reward units config passing (new_snapshot units) in
    (t.legacy_weight ≡ 1_000_000)
    × (t.v2_weight ≡ 0)
    × (decision.final_reward ≡ reward_cap units 400_000)
blend_reward_shadow_example =
    blend_reward_shadow units config passing (new_snapshot units) first_call
