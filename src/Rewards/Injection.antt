-- ===== src/Rewards/Injection.antt =====
-- The reinforcement of `PendingRewardManager` of
-- wq_workflow/core/evolution/pending_reward_manager.py. `pow_half x` is `0.5 ** x`.
use worldquant_workflow_v2_r.Migration.Reals.{Reals, min_of, max_of}
use worldquant_workflow_v2_r.Common.{
  String, if◌then◌else◌, Dict, lookup, same_key, ℕ, ◌||◌, ◌-◌, none, some, insert, ◌==◌, [], ◌∷◌,
}
use worldquant_workflow_v2_r.Rewards.State.{
  ManagerConfig, PendingReward, Injections, or_number, not_positive, or_text,
}

module _ (rs : Reals) (pow_half : rs.R → rs.R) where
  open rs use {R, lit, add, sub, mul, div, lt, round_six}

  -- `_ema`
  unfoldable pub ema : R → R → R → R
  ema current incoming alpha = add (mul current (sub (lit 1 0) alpha)) (mul incoming alpha)

  -- `finite_float(values.get(key))`
  abbrev pub value_at : String → Dict R → R
  value_at key values = elim (lookup key values) [ none ↦ lit 0 0 | some x ↦ x ]

  -- A round of the loop over the three parts: what remains, and the bucket
  unfoldable pub feed : R → String → R → R × Dict R → R × Dict R
  unfolding ema
  feed alpha key amount (remaining, values) =
      if same_key key "" || not_positive rs remaining
      then (remaining, values)
      else (let applied = min_of rs amount remaining in
          (
            sub remaining applied,
            insert key (round_six (ema (value_at key values) applied alpha)) values,
          ))

  abbrev pub abs_of : R → R
  abs_of x = if lt x (lit 0 0) then sub (lit 0 0) x else x

  largest : R → Dict R → R
  largest most [] = most
  largest most ((key, x) ∷ values) = largest (max_of rs most (abs_of x)) values

  abbrev pub decayed : R → Dict R → Dict R
  decayed factor [] = []
  decayed factor ((key, x) ∷ values) =
      let y = mul x factor in
      let rest = decayed factor values in
      if lt (abs_of y) (lit 1 9) then rest else (key, round_six y) ∷ rest

  -- `_decay_injections`
  unfoldable pub decay_injections : ManagerConfig rs → ℕ → Injections R → Injections R
  unfolding largest
  decay_injections c generation i =
      let previous = or_number (some i.last_decay_generation) generation in
      let most =
        largest (largest (largest (abs_of i.global_reward_bias) i.lineage_score) i.family_weight)
          i.operator_credibility in
      let elapsed = generation - previous in
      let factor = pow_half (div (lit elapsed 0) c.decay_halflife_generations) in
      if not_positive rs most || elapsed == 0
      then record i { last_decay_generation = generation }
      else record i {
        lineage_score = decayed factor i.lineage_score;
        family_weight = decayed factor i.family_weight;
        operator_credibility = decayed factor i.operator_credibility;
        global_reward_bias = round_six (mul i.global_reward_bias factor);
        last_decay_generation = generation;
      }

  -- The last part, which goes to the global bias
  abbrev pub feed_global : R → R → R → R → R
  feed_global alpha reward remaining current =
      if lt (lit 0 0) remaining
      then round_six (ema current (min_of rs (mul reward (lit 1 1)) remaining) alpha)
      else current

  -- `_inject_reinforcement`
  unfoldable pub inject_reinforcement :
      ManagerConfig rs → PendingReward R → R → ℕ → Injections R → Injections R
  unfolding feed decay_injections
  inject_reinforcement c r released generation i =
      let reward = max_of rs (lit 0 0) released in
      let alpha = c.injection_ema_alpha in
      let (left₁, lineage) =
        feed alpha r.lineage_root (mul reward (lit 4 1))
          (c.max_injection_per_round, i.lineage_score) in
      let (left₂, family) =
        feed alpha (or_text r.behavior_family "legacy") (mul reward (lit 3 1))
          (left₁, i.family_weight) in
      let (left₃, operators) =
        feed alpha (or_text r.operator "unknown") (mul reward (lit 2 1))
          (left₂, i.operator_credibility) in
      let fed : Injections R = record i {
        lineage_score = lineage;
        family_weight = family;
        operator_credibility = operators;
        global_reward_bias = feed_global alpha reward left₃ i.global_reward_bias;
        last_generation = generation;
      } in
      if not_positive rs reward then i else decay_injections c generation fed

  -- `_settlement_factor`
  unfoldable pub settlement_factor : ManagerConfig rs → PendingReward R → ℕ → R
  settlement_factor c r generation =
      round_six
        (pow_half (div (lit (generation - r.created_generation) 0) c.decay_halflife_generations))

  abbrev weighted_at : String → R → Dict R → R → R
  weighted_at key weight values adjustment =
      if same_key key "" then adjustment else add adjustment (mul (value_at key values) weight)

  -- `compute_direction_adjustment`
  unfoldable pub direction_adjustment :
      ManagerConfig rs → String → String → String → Injections R → R
  direction_adjustment c lineage family operator i = round_six (
      mul
        (weighted_at operator (lit 2 1) i.operator_credibility (
          weighted_at family (lit 3 1) i.family_weight
            (weighted_at lineage (lit 4 1) i.lineage_score (mul i.global_reward_bias (lit 1 1)))))
        c.injection_weight)
