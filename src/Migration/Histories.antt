-- ===== src/Migration/Histories.antt =====
-- About histories of calls of wq_workflow/reward_migration/migration_controller.py.
use worldquant_workflow_v2_r.Migration.Reals.{Reals}
use worldquant_workflow_v2_r.Migration.State.{
  shadow, full_v2, MigrationState, Snapshot, without_full, new_snapshot,
}
use worldquant_workflow_v2_r.Migration.Steps.{
  keeps, to_early, to_mid, to_late, falls_back, recovers, level, Edge, blend_reward_moves,
  streak-blend, move-streak, streak-before, before,
}
use worldquant_workflow_v2_r.Common.{
  [], ◌∷◌, true, false, Bool, List, ℕ, ◌≤◌, ◌≡◌, ◌+◌, ◌<◌, ◌≢◌, if◌then◌else◌, tally, ◌*◌, arith,
  refl, dec_lt, le_trans, ap,
}
use worldquant_workflow_v2_r.Migration.Controller.{Config, Observation, blend_reward, is_healthy}

omega_streak : (b : Bool) (k n : ℕ) → k ≤ n → (if b then k + 1 else 0) ≤ tally b n
omega_streak true k n h = omega arith
omega_streak false k n h = omega arith

counted : (b : Bool) (k n : ℕ) → b ≡ true → k ≤ n → k + 1 ≤ tally b n
counted b k n e h = ground arith

le-tally : (b : Bool) (n : ℕ) → n ≤ tally b n
le-tally true n = omega arith
le-tally false n = omega arith

tally-shift : (b : Bool) (n k : ℕ) → n + tally b k ≡ tally b n + k
tally-shift true n k = omega arith
tally-shift false n k = refl

module _ (rs : Reals) where
  -- The snapshot after a history of calls, and how many of them had monitors that pass.
  pub history : Config rs → List (Observation rs) → Snapshot rs → Snapshot rs
  history c [] s = s
  history c (o ∷ os) s = history c os (blend_reward rs c o s).0

  pub healthy_calls : List (Observation rs) → ℕ
  healthy_calls [] = 0
  healthy_calls (o ∷ os) = tally (is_healthy rs o) (healthy_calls os)

  -- The streak and the level never run ahead of the `n` passing calls so far.
  abbrev Earned : Config rs → ℕ → Snapshot rs → Type 0
  Earned c n s = (s.healthy_streak ≤ n) × (level s.state * c.healthy_streak_to_advance ≤ n)

  level-without_full : (s : MigrationState) → level (without_full rs s) ≡ level s
  level-without_full full_v2 = refl
  level-without_full _ = refl

  level_step :
      (a b unit streak n : ℕ)
      → (a < b → b * unit ≤ streak)
      → a * unit ≤ n
      → streak ≤ n
      → b * unit ≤ n
  level_step a b unit streak n up h k = elim (dec_lt a b) [
    | yes p ↦ le_trans (up p) k
    | no p ↦ grind arith
  ]

  blend-Earned :
      (c : Config rs) (n : ℕ) (o : Observation rs) (s : Snapshot rs)
      → Earned c n s
      → Earned c (tally (is_healthy rs o) n) (blend_reward rs c o s).0
  blend-Earned c n o s h =
      let (_, _, up) = blend_reward_moves rs c o s in
      let now = omega_streak (is_healthy rs o) s.healthy_streak n h.0 in
      let streak : (blend_reward rs c o s).0.healthy_streak ≤ tally (is_healthy rs o) n = omega (
        arith,
        streak-blend rs c o s,
        move-streak rs c o (before rs o s),
        streak-before rs o s,
        now,
      ) in
      let base = ap (λ x. x * c.healthy_streak_to_advance) (level-without_full s.state) in
      (
        streak,
        level_step (level (without_full rs s.state)) (level (blend_reward rs c o s).0.state)
            c.healthy_streak_to_advance (tally (is_healthy rs o) n) (tally (is_healthy rs o) n)
            (λ p.
              let (healthy, _, k) = up p in
              le_trans k (counted (is_healthy rs o) s.healthy_streak n healthy h.0))
            (omega (arith, base, h.1, le-tally (is_healthy rs o) n)) (omega arith),
      )

  history-Earned :
      (c : Config rs) (n : ℕ) (os : List (Observation rs)) (s : Snapshot rs)
      → Earned c n s
      → Earned c (n + healthy_calls os) (history c os s)
  unfolding history healthy_calls
  history-Earned c n [] s h = (omega (arith, h.0), omega (arith, h.1))
  history-Earned c n (o ∷ os) s h =
      let later =
        history-Earned c (tally (is_healthy rs o) n) os (blend_reward rs c o s).0
          (blend-Earned c n o s h) in
      let moved = tally-shift (is_healthy rs o) n (healthy_calls os) in
      (omega (arith, later.0, moved), omega (arith, later.1, moved))

  -- From the initial snapshot, whatever the calls: a hybrid state of level 1, 2 or 3 is reached only
  -- with at least that many times `healthy_streak_to_advance` calls whose monitors passed.
  pub history-level_bound :
      (c : Config rs) (os : List (Observation rs))
      → level (history c os (new_snapshot rs)).state * c.healthy_streak_to_advance
        ≤ healthy_calls os
  history-level_bound c os =
      omega (arith, (history-Earned c 0 os (new_snapshot rs) (omega arith, omega arith)).1)

  Edge-ne-full_v2 : (s t : MigrationState) → s ≢ full_v2 → Edge s t → t ≢ full_v2
  Edge-ne-full_v2 s _ h (keeps _) = h
  Edge-ne-full_v2 _ _ h to_early = cc
  Edge-ne-full_v2 _ _ h to_mid = cc
  Edge-ne-full_v2 _ _ h to_late = cc
  Edge-ne-full_v2 _ _ h (falls_back _) = cc
  Edge-ne-full_v2 _ _ h recovers = cc

  without_full-ne : (s : MigrationState) → without_full rs s ≢ full_v2
  without_full-ne shadow = cc
  without_full-ne _ = cc

  -- Whatever the store held, also FULL_V2: after a call, and after any further calls, the state is
  -- not FULL_V2.
  pub history-ne-full_v2 :
      (c : Config rs) (o : Observation rs) (os : List (Observation rs)) (s : Snapshot rs)
      → (history c (o ∷ os) s).state ≢ full_v2
  unfolding history
  history-ne-full_v2 c o [] s =
      Edge-ne-full_v2 _ _ (without_full-ne s.state) (blend_reward_moves rs c o s).0
  history-ne-full_v2 c o (o' ∷ os) s = history-ne-full_v2 c o' os (blend_reward rs c o s).0
