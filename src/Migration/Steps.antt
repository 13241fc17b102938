-- ===== src/Migration/Steps.antt =====
-- About the state machine of wq_workflow/reward_migration/migration_controller.py
-- as single calls.
use worldquant_workflow_v2_r.Migration.State.{
  MigrationState, shadow, reload, early_hybrid, with_weights, Snapshot, mid_hybrid, Reason,
  transition, late_hybrid, without_full, rollback_snapshot, rollback, full_v2,
}
use worldquant_workflow_v2_r.Migration.Reals.{Reals}
use worldquant_workflow_v2_r.Common.{
  ℕ, ◌≡◌, ◌≤◌, if◌then◌else◌, refl, true, ◌+◌, ◌<◌, arith, ◌*◌, ◌∙◌, subst, ap, sym,
}
use worldquant_workflow_v2_r.Migration.Controller.{
  settle, blend_reward, with_streaks, Config, move, Observation, should_rollback, is_healthy,
}

-- A call keeps the state, advances it by one level, falls back to ROLLBACK, or leaves it for SHADOW.
pub data Edge : MigrationState → MigrationState → Type 0 where
  keeps : (s : MigrationState) → Edge s s
  to_early : Edge shadow early_hybrid
  to_mid : Edge early_hybrid mid_hybrid
  to_late : Edge mid_hybrid late_hybrid
  falls_back : (s : MigrationState) → Edge s rollback
  recovers : Edge rollback shadow

-- The streak, in units of `healthy_streak_to_advance`, that a state was entered with.
abbrev pub level : MigrationState → ℕ
level early_hybrid = 1
level mid_hybrid = 2
level late_hybrid = 3
level full_v2 = 3
level _ = 0

module _ (rs : Reals) where
  state-settle :
      (o : Observation rs) (w : rs.R × rs.R) (reason : Reason) (s : Snapshot rs)
      → (settle rs o w reason s).state ≡ s.state
  unfolding settle with_weights
  state-settle o (l, v) reason s = refl

  streak-settle :
      (o : Observation rs) (w : rs.R × rs.R) (reason : Reason) (s : Snapshot rs)
      → (settle rs o w reason s).healthy_streak ≡ s.healthy_streak
  unfolding settle with_weights
  streak-settle o (l, v) reason s = refl

  -- The state that a call leaves is the state of the branch that it takes.
  state-blend :
      (c : Config rs) (o : Observation rs) (s : Snapshot rs)
      → (blend_reward rs c o s).0.state
        ≡ (move rs c o (with_streaks rs o (reload rs s))).snapshot.state
  unfolding blend_reward
  state-blend c o s = state-settle o _ _ _

  pub streak-blend :
      (c : Config rs) (o : Observation rs) (s : Snapshot rs)
      → (blend_reward rs c o s).0.healthy_streak
        ≡ (move rs c o (with_streaks rs o (reload rs s))).snapshot.healthy_streak
  unfolding blend_reward
  streak-blend c o s = streak-settle o _ _ _

  reloaded :
      (s : Snapshot rs)
      → ((reload rs s).state ≡ without_full rs s.state)
        × ((reload rs s).healthy_streak ≡ s.healthy_streak)
  unfolding reload
  reloaded s = (refl, refl)

  streaks :
      (o : Observation rs) (s : Snapshot rs)
      → ((with_streaks rs o s).state ≡ s.state)
        × ((with_streaks rs o s).healthy_streak
            ≡ (if is_healthy rs o then s.healthy_streak + 1 else 0))
  unfolding with_streaks
  streaks o s = ground arith

  -- What one call does to the state, from a snapshot whose streak is brought up to date.
  abbrev Moved : Config rs → Observation rs → Snapshot rs → Snapshot rs → Type 0
  Moved c o s t =
      Edge s.state t.state
      × (t.healthy_streak ≤ s.healthy_streak)
      × (should_rollback rs o ≡ true → t.state ≡ rollback)
      × ((level s.state < level t.state)
          → (is_healthy rs o ≡ true)
            × (c.min_hybrid_samples ≤ o.health.sample_count)
            × (level t.state * c.healthy_streak_to_advance ≤ s.healthy_streak))

  move-Edge :
      (c : Config rs) (o : Observation rs) (s : Snapshot rs)
      → Edge s.state (move rs c o s).snapshot.state
  unfolding move transition rollback_snapshot
  move-Edge c o s = grind (arith, keeps, to_early, to_mid, to_late, falls_back, recovers)

  pub move-streak :
      (c : Config rs) (o : Observation rs) (s : Snapshot rs)
      → (move rs c o s).snapshot.healthy_streak ≤ s.healthy_streak
  unfolding move transition rollback_snapshot
  move-streak c o s = ground arith

  move-rollback :
      (c : Config rs) (o : Observation rs) (s : Snapshot rs)
      → should_rollback rs o ≡ true
      → (move rs c o s).snapshot.state ≡ rollback
  unfolding move rollback_snapshot
  move-rollback c o s h = ground arith

  move-raise :
      (c : Config rs) (o : Observation rs) (s : Snapshot rs)
      → level s.state < level (move rs c o s).snapshot.state
      → (is_healthy rs o ≡ true)
        × (c.min_hybrid_samples ≤ o.health.sample_count)
        × (level (move rs c o s).snapshot.state * c.healthy_streak_to_advance ≤ s.healthy_streak)
  unfolding move transition rollback_snapshot
  move-raise c o s h = ground arith

  -- The state that a call starts from: what the store loads, with its streak brought up to date.
  abbrev pub before : Observation rs → Snapshot rs → Snapshot rs
  before o s = with_streaks rs o (reload rs s)

  state-before :
      (o : Observation rs) (s : Snapshot rs) → (before o s).state ≡ without_full rs s.state
  state-before o s = (streaks o (reload rs s)).0 ∙ (reloaded s).0

  pub streak-before :
      (o : Observation rs) (s : Snapshot rs)
      → (before o s).healthy_streak ≡ (if is_healthy rs o then s.healthy_streak + 1 else 0)
  streak-before o s =
      (streaks o (reload rs s)).1 ∙ ap (λ n. if is_healthy rs o then n + 1 else 0) (reloaded s).1

  -- Every call moves along an edge from the state that it loads: one level up at most. A severe risk
  -- flag of either monitor leads to ROLLBACK from every state. And a level is gained only on a call
  -- whose monitors both pass, with the samples that the configuration asks for, at the end of a
  -- streak of `level * healthy_streak_to_advance` passing calls.
  pub blend_reward_moves :
      (c : Config rs) (o : Observation rs) (s : Snapshot rs)
      → let t = (blend_reward rs c o s).0 in
        Edge (without_full rs s.state) t.state
        × (should_rollback rs o ≡ true → t.state ≡ rollback)
        × (level (without_full rs s.state) < level t.state
            → (is_healthy rs o ≡ true)
              × (c.min_hybrid_samples ≤ o.health.sample_count)
              × (level t.state * c.healthy_streak_to_advance ≤ s.healthy_streak + 1))
  blend_reward_moves c o s =
      let e = state-blend c o s in
      let b = state-before o s in
      (
        subst (λ x. Edge x (blend_reward rs c o s).0.state) b
            (subst (λ x. Edge (before o s).state x) (sym e) (move-Edge c o (before o s))),
        (λ h. e ∙ move-rollback c o (before o s) h),
        (λ up.
            let (healthy, samples, streak) = move-raise c o (before o s) (
              subst (λ x. level (before o s).state < level x) e
                (subst (λ x. level x < level (blend_reward rs c o s).0.state) (sym b) up)) in
            (
              healthy,
              samples,
              subst (λ x. level x * c.healthy_streak_to_advance ≤ s.healthy_streak + 1) (sym e)
                  (subst
                    (λ n.
                      level (move rs c o (before o s)).snapshot.state * c.healthy_streak_to_advance
                      ≤ n)
                    (streak-before o s ∙ ap (λ t. if t then s.healthy_streak + 1 else 0) healthy)
                    streak),
            )),
      )
