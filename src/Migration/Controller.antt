-- ===== src/Migration/Controller.antt =====
-- `MigrationController` of wq_workflow/reward_migration/migration_controller.py: the state machine
-- that `blend_reward` drives. What the monitors evaluate, the rewards, the time and the context's
-- diversity are inputs of a step; the logs and metrics files that it writes are left out.
use text.Mathlib.Text.{◌==◌ as str_eq}
use worldquant_workflow_v2_r.Common.{
  List, String, Bool, ℕ, ◌∷◌, ◌&&◌, if◌then◌else◌, [], ◌+◌, leb, not, true, ltb, keep, max, ◌*◌,
  false,
}
use worldquant_workflow_v2_r.Migration.Reals.{Reals, min_of, max_of}
use worldquant_workflow_v2_r.Migration.State.{
  MigrationState, Snapshot, Reason, reload, rollback_snapshot, shadow, rolled_back, rollback,
  retained, with_weights, manual, early_hybrid, transition, advanced, mid_hybrid, late_hybrid,
  full_v2,
}
use worldquant_workflow_v2_r.Migration.Scheduler.{
  SchedulerConfig, Health, all_flags, intersects, legacy_weight_of, next_weights, AdaptiveConfig,
  Stability, severe_flags, v2_weight_of,
}

abbrev very_severe_flags : List String
very_severe_flags = "diversity_collapse" ∷ "correlation_explosion" ∷ "population_survival_low" ∷ []

pub data Action : Type 0 where
  rollback_hold rolled transitioned observe blend : Action

module _ (rs : Reals) where
  open rs use {R, lit, add, sub, mul, round_six}

  pub record Config : Type 0 where
    pub enable_adaptive_legacy : Bool
    pub min_hybrid_samples : ℕ
    pub healthy_streak_to_advance : ℕ
    pub scheduler : SchedulerConfig rs
    pub adaptive : AdaptiveConfig rs

  -- One call of `blend_reward`
  pub record Observation : Type 0 where
    pub now : String
    pub legacy_reward : R
    pub v2_reward : R
    pub health : Health rs
    pub stability : Stability rs
    pub template_diversity : R

  pub record Decision : Type 0 where
    pub final_reward : R
    pub state : MigrationState
    pub legacy_weight : R
    pub v2_weight : R
    pub action : Action
    pub reason : Reason

  -- `health.healthy and stability.stable`
  abbrev pub is_healthy : Observation → Bool
  is_healthy o = o.health.healthy && o.stability.stable

  abbrev pub flags_of : Observation → List String
  flags_of o = all_flags rs o.health o.stability

  -- `_with_streaks`
  unfoldable pub with_streaks : Observation → Snapshot rs → Snapshot rs
  with_streaks o s =
      if is_healthy o
      then record s { healthy_streak = s.healthy_streak + 1; unstable_streak = 0 }
      else record s { healthy_streak = 0; unstable_streak = s.unstable_streak + 1 }

  -- `_next_state`, by the state: the tests behind the guards that all hybrid states share
  abbrev advance : ℕ → ℕ → MigrationState → MigrationState
  advance unit streak shadow = if leb unit streak then early_hybrid else shadow
  advance unit streak early_hybrid = if leb (unit * 2) streak then mid_hybrid else early_hybrid
  advance unit streak mid_hybrid = if leb (unit * 3) streak then late_hybrid else mid_hybrid
  advance unit streak state = state

  abbrev guarded : Config → Observation → ℕ → MigrationState → MigrationState
  guarded c o streak state =
      if not (is_healthy o)
      then state
      else if ltb o.health.sample_count c.min_hybrid_samples
      then state
      else advance c.healthy_streak_to_advance streak state

  abbrev next_from : Config → Observation → ℕ → MigrationState → MigrationState
  next_from c o streak rollback =
      if leb c.healthy_streak_to_advance streak then shadow else rollback
  next_from c o streak state = guarded c o streak state

  -- `_next_state`
  unfoldable pub next_state : Config → Observation → Snapshot rs → MigrationState
  next_state c o s = next_from c o s.healthy_streak s.state

  -- `_should_rollback`, `_severe`
  unfoldable pub should_rollback : Observation → Bool
  should_rollback o = intersects (flags_of o) severe_flags

  abbrev is_severe : Observation → Bool
  is_severe o = intersects (flags_of o) very_severe_flags

  -- `_rollback_reason`: the flags that it names, which the program sorts without repeats
  abbrev rollback_reason : Observation → Reason
  rollback_reason o = rolled_back (keep (λ f. not (str_eq f "insufficient_samples")) (flags_of o))

  abbrev same_state : MigrationState → MigrationState → Bool
  same_state shadow shadow = true
  same_state early_hybrid early_hybrid = true
  same_state mid_hybrid mid_hybrid = true
  same_state late_hybrid late_hybrid = true
  same_state full_v2 full_v2 = true
  same_state rollback rollback = true
  same_state _ _ = false

  -- What the branches of `blend_reward` set: the snapshot, the action and the reason.
  pub record Move : Type 0 where
    pub snapshot : Snapshot rs
    pub action : Action
    pub reason : Reason

  abbrev roll_back : Observation → Snapshot rs → Move
  roll_back o s =
      let reason = rollback_reason o in
      if same_state s.state rollback
      then record {
        snapshot = record s { reason = reason };
        action = rollback_hold;
        reason = reason;
      }
      else record {
        snapshot = rollback_snapshot rs o.now reason (is_severe o) s;
        action = rolled;
        reason = reason;
      }

  abbrev proceed : Config → Observation → Snapshot rs → Move
  proceed c o s =
      let target = next_state c o s in
      if same_state target s.state
      then record {
        snapshot = s;
        action = if same_state s.state shadow then observe else blend;
        reason = retained;
      }
      else record {
        snapshot = transition rs o.now target (advanced target) s;
        action = transitioned;
        reason = advanced target;
      }

  unfoldable pub move : Config → Observation → Snapshot rs → Move
  unfolding next_state should_rollback
  move c o s = if should_rollback o then roll_back o s else proceed c o s

  abbrev adaptive_weights : Config → Observation → Snapshot rs → R × R
  adaptive_weights c o s =
      let legacy =
        legacy_weight_of rs c.adaptive o.health.future_correlation o.health.lineage_entropy
          s.rollback_count o.health.mutation_success_rate o.stability.reward_variance
          o.template_diversity in
      (legacy, v2_weight_of rs legacy)

  abbrev weights_from : Config → Observation → Snapshot rs → MigrationState → R × R
  weights_from c o s shadow = (lit 1 0, lit 0 0)
  weights_from c o s rollback =
      next_weights rs c.scheduler rollback o.health o.stability s.v2_weight
  weights_from c o s state =
      if not c.enable_adaptive_legacy
      then next_weights rs c.scheduler state o.health o.stability s.v2_weight
      else adaptive_weights c o s

  -- `_next_weights`
  unfoldable pub chosen_weights : Config → Observation → Snapshot rs → R × R
  chosen_weights c o s = weights_from c o s s.state

  -- `_reward_cap`
  abbrev pub reward_cap : R → R
  reward_cap x = min_of rs (lit 10 0) (max_of rs (sub (lit 0 0) (lit 10 0)) x)

  abbrev pub effective_from : MigrationState → R → R → Snapshot rs → R
  effective_from shadow legacy v2 s = legacy
  effective_from state legacy v2 s =
      reward_cap (add (mul s.legacy_weight legacy) (mul s.v2_weight v2))

  -- `_effective_reward`
  unfoldable pub effective_reward : R → R → Snapshot rs → R
  effective_reward legacy v2 s = effective_from s.state legacy v2 s

  -- The part of `blend_reward` that makes the snapshot that is saved
  unfoldable pub settle : Observation → R × R → Reason → Snapshot rs → Snapshot rs
  settle o (legacy, v2) reason s =
      let weighed = with_weights rs legacy v2 reason s in
      record weighed {
        sample_count =
            max (max weighed.sample_count o.health.sample_count) o.stability.sample_count;
      }

  abbrev decide : Observation → Move → Snapshot rs → Decision
  decide o m s = record {
    final_reward = round_six (reward_cap (effective_reward o.legacy_reward o.v2_reward s));
    state = s.state;
    legacy_weight = s.legacy_weight;
    v2_weight = s.v2_weight;
    action = m.action;
    reason = m.reason;
  }

  -- `blend_reward`, from the snapshot in the store to the one it saves, and its decision
  unfoldable pub blend_reward : Config → Observation → Snapshot rs → Snapshot rs × Decision
  blend_reward c o stored =
      let m = move c o (with_streaks o (reload rs stored)) in
      let saved = settle o (chosen_weights c o m.snapshot) m.reason m.snapshot in
      (saved, decide o m saved)

  -- `rollback_to_legacy`
  unfoldable pub rollback_to_legacy : String → String → Snapshot rs → Snapshot rs
  rollback_to_legacy now why stored = rollback_snapshot rs now (manual why) true (reload rs stored)
