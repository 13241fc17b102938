-- ===== src/Migration/Scheduler.antt =====
-- wq_workflow/reward_migration/adaptive_weight_scheduler.py, and the weights of
-- wq_workflow/core/evolution/adaptive_legacy_controller.py.
use text.Mathlib.Text.{◌==◌ as str_eq}
use worldquant_workflow_v2_r.Common.{
  String, List, Bool, ◌∷◌, ℕ, ◌++◌, any, [], if◌then◌else◌, not, ◌&&◌,
}
use worldquant_workflow_v2_r.Migration.Reals.{Reals, max_of, min_of}
use worldquant_workflow_v2_r.Migration.State.{
  MigrationState, normalize_weights, late_hybrid, early_hybrid, mid_hybrid, shadow, rollback,
  full_v2,
}

-- `flag in flags`
unfoldable pub mem : String → List String → Bool
mem flag flags = any (str_eq flag) flags

-- `bool(set(flags) & set(others))`
unfoldable pub intersects : List String → List String → Bool
unfolding mem
intersects flags others = any (λ f. mem f others) flags

-- `bool(set(flags) - {one})`
unfoldable pub has_other : List String → String → Bool
has_other flags one = any (λ f. not (str_eq f one)) flags

abbrev pub severe_flags : List String
severe_flags =
    "diversity_collapse" ∷ "correlation_explosion" ∷ "mutation_failure_spike"
    ∷ "population_survival_low" ∷ "reward_variance_explosion" ∷ "ranking_instability"
    ∷ "abnormal_reward_spikes" ∷ []

module _ (rs : Reals) where
  open rs use {R, lit, add, sub, mul, lt, round_six}

  -- The fields of `PopulationHealthSnapshot` and `RewardStabilitySnapshot` that the migration reads.
  pub record Health : Type 0 where
    pub healthy : Bool
    pub risk_flags : List String
    pub sample_count : ℕ
    pub future_correlation : R
    pub lineage_entropy : R
    pub mutation_success_rate : R
    pub diversity_index : R

  pub record Stability : Type 0 where
    pub stable : Bool
    pub risk_flags : List String
    pub sample_count : ℕ
    pub reward_variance : R

  pub record SchedulerConfig : Type 0 where
    pub max_step_up : R
    pub moderate_step_down : R
    pub severe_step_down : R

  pub record AdaptiveConfig : Type 0 where
    pub min_legacy_weight : R
    pub max_legacy_weight : R

  -- `compute_legacy_weight`
  unfoldable pub legacy_weight_of : AdaptiveConfig → R → R → ℕ → R → R → R → R
  legacy_weight_of c correlation entropy rollbacks success variance diversity =
      let base =
        add
          (sub (sub (sub (lit 1 0) (mul correlation (lit 4 1))) (mul entropy (lit 3 1)))
            (mul diversity (lit 2 1)))
          (mul (lit rollbacks 0) (lit 2 1)) in
      let tried = add base (mul (max_of rs (lit 0 0) (sub (lit 25 2) success)) (lit 2 1)) in
      let raw = add tried (mul (max_of rs (lit 0 0) (sub variance (lit 1 0))) (lit 5 2)) in
      round_six (max_of rs c.min_legacy_weight (min_of rs c.max_legacy_weight raw))

  -- `compute_v2_weight`
  unfoldable pub v2_weight_of : R → R
  v2_weight_of legacy = round_six (max_of rs (lit 0 0) (min_of rs (lit 1 0) (sub (lit 1 0) legacy)))

  -- The risk flags of both monitors
  abbrev pub all_flags : Health → Stability → List String
  all_flags h s = h.risk_flags ++ s.risk_flags

  -- The weight that a state starts from
  abbrev start_weight : MigrationState → R → R
  start_weight early_hybrid v2 = max_of rs v2 (lit 10 2)
  start_weight mid_hybrid v2 = max_of rs v2 (lit 30 2)
  start_weight late_hybrid v2 = max_of rs v2 (lit 60 2)
  start_weight rollback v2 = min_of rs v2 (lit 10 2)
  start_weight _ v2 = v2

  -- `_state_cap`
  abbrev state_cap : MigrationState → R
  state_cap early_hybrid = lit 30 2
  state_cap mid_hybrid = lit 60 2
  state_cap late_hybrid = lit 85 2
  state_cap rollback = lit 10 2
  state_cap _ = lit 1 0

  abbrev stepped : SchedulerConfig → MigrationState → Health → Stability → R → R
  stepped c state h s v2 =
      if intersects (all_flags h s) severe_flags
      then max_of rs (lit 0 0) (sub v2 c.severe_step_down)
      else if has_other (all_flags h s) "insufficient_samples"
      then max_of rs (lit 0 0) (sub v2 c.moderate_step_down)
      else if h.healthy && s.stable
      then min_of rs (state_cap state) (add v2 c.max_step_up)
      else v2

  abbrev scheduled : SchedulerConfig → MigrationState → Health → Stability → R → R × R
  scheduled c state h s v2 =
      let v = stepped c state h s (start_weight state v2) in
      normalize_weights rs (sub (lit 1 0) v) v state

  -- `next_weights`
  unfoldable pub next_weights : SchedulerConfig → MigrationState → Health → Stability → R → R × R
  next_weights c shadow h s v2 = (lit 1 0, lit 0 0)
  next_weights c full_v2 h s v2 = scheduled c late_hybrid h s v2
  next_weights c state h s v2 = scheduled c state h s v2
