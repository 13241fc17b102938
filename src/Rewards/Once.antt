-- ===== src/Rewards/Once.antt =====
-- What a settlement of wq_workflow/core/evolution/pending_reward_manager.py does to each record, and
-- how many it settles.
use worldquant_workflow_v2_r.Common.{
  [], ◌∷◌, Dict, lookup, insert, String, if◌then◌else◌, ℕ, ◌≡◌, ◌≤◌, ◌||◌, tally, some, suc, ltb,
  not, false, tally_le, ◌-◌, true, Bool-cases, same_key, ◌+◌, max, inl, leb, of_some, tally_mono,
  lookup_kept, inr, tally-suc, tally_step, refl, lookup-insert, arith,
}
use worldquant_workflow_v2_r.Migration.Reals.{Reals}
use worldquant_workflow_v2_r.Rewards.State.{
  ManagerConfig, PendingReward, release_reward, cancel_reward, as_released, as_canceled, change_at,
}
use worldquant_workflow_v2_r.Rewards.Settlement.{Round, visit, Progress, is_young, has_survived}

module _ (rs : Reals) (pow_half : rs.R → rs.R) (c : ManagerConfig rs) where
  open rs use {R}

  -- What becomes of the record of a candidate in a round
  abbrev pub outcome : Round rs pow_half → String → PendingReward R → PendingReward R
  outcome round alpha_id r =
      if r.released || r.canceled
      then r
      else if ltb (round.current_generation - r.created_generation) (max 1 r.settle_after)
      then r
      else if leb c.release_survival_rounds (round.survived alpha_id)
      then as_released round.current_generation r
      else as_canceled round.current_generation r

  -- The number of records that are neither released nor canceled
  abbrev pub pending_count : Dict (PendingReward R) → ℕ
  pending_count [] = 0
  pending_count ((k, r) ∷ rows) = tally (not (r.released || r.canceled)) (pending_count rows)

  insert-pending_count :
      (k : String) (r r' : PendingReward R) (rows : Dict (PendingReward R))
      → lookup k rows ≡ some r
      → (r.released || r.canceled) ≡ false
      → (r'.released || r'.canceled) ≡ true
      → suc (pending_count (insert k r' rows)) ≡ pending_count rows
  unfolding lookup insert
  insert-pending_count k r r' [] e h g = cc
  insert-pending_count k r r' ((j, q) ∷ rows) e h g = elim (Bool-cases (same_key j k)) [
    | inl t ↦ let same : q ≡ r = of_some (rw t at e) in rw (t, same, h, g) refl
    | inr t ↦
        let rest = insert-pending_count k r r' rows (rw t at e) h g in
        rw t (tally-suc (not (q.released || q.canceled)) _ _ rest)
  ]

  pub insert_new-pending_count :
      (k : String) (r : PendingReward R) (rows : Dict (PendingReward R))
      → pending_count (insert k r rows) ≤ suc (pending_count rows)
  unfolding insert
  insert_new-pending_count k r [] = tally_le (not (r.released || r.canceled)) 0
  insert_new-pending_count k r ((j, q) ∷ rows) = elim (Bool-cases (same_key j k)) [
    | inl t ↦ rw t (tally_mono (not (r.released || r.canceled)) (not (q.released || q.canceled)) _)
    | inr t ↦
        rw t (tally_step (not (q.released || q.canceled)) _ _ (insert_new-pending_count k r rows))
  ]

  release_present :
      (k : String) {r : PendingReward R} (generation : ℕ) (rows : Dict (PendingReward R))
      → lookup k rows ≡ some r
      → release_reward k generation rows ≡ insert k (as_released generation r) rows
  unfolding release_reward
  release_present k generation rows e = rw (e, change_at) refl

  cancel_present :
      (k : String) {r : PendingReward R} (generation : ℕ) (rows : Dict (PendingReward R))
      → lookup k rows ≡ some r
      → cancel_reward k generation rows ≡ insert k (as_canceled generation r) rows
  unfolding cancel_reward
  cancel_present k generation rows e = rw (e, change_at) refl

  module _ (round : Round rs pow_half) where
    -- A round of the loop changes the record that it visits, and no other.
    pub lookup-visit :
        (k j : String) (r : PendingReward R) (p : Progress rs pow_half)
        → lookup k p.rows ≡ some r
        → lookup j (visit rs pow_half c round k r p).rows
          ≡ (if same_key k j then some (outcome round k r) else lookup j p.rows)
    unfolding visit
    lookup-visit k j r p e = elim (Bool-cases (r.released || r.canceled)) [
      | inl a ↦ rw a (lookup_kept k j p.rows e)
      | inr a ↦ elim (Bool-cases (is_young rs pow_half c round r)) [
        | inl b ↦ rw (a, b) (lookup_kept k j p.rows e)
        | inr b ↦ elim (Bool-cases (has_survived rs pow_half c round k)) [
          | inl d ↦
              rw (a, b, d, release_present k round.current_generation p.rows e)
                (lookup-insert k j _ p.rows)
          | inr d ↦
              rw (a, b, d, cancel_present k round.current_generation p.rows e)
                (lookup-insert k j _ p.rows)
        ]
      ]
    ]

    -- A record that stops to be pending is counted.
    pub visit-pending_count :
        (k : String) (r : PendingReward R) (p : Progress rs pow_half)
        → lookup k p.rows ≡ some r
        → let q = visit rs pow_half c round k r p in
          pending_count q.rows + q.released_count + q.canceled_count
          ≡ pending_count p.rows + p.released_count + p.canceled_count
    unfolding visit
    visit-pending_count k r p e = elim (Bool-cases (r.released || r.canceled)) [
      | inl a ↦ rw a refl
      | inr a ↦ elim (Bool-cases (is_young rs pow_half c round r)) [
        | inl b ↦ rw (a, b) refl
        | inr b ↦ elim (Bool-cases (has_survived rs pow_half c round k)) [
          | inl d ↦
              rw (a, b, d, release_present k round.current_generation p.rows e)
                (omega (
                  arith,
                  insert-pending_count k r (as_released round.current_generation r) p.rows e a refl,
                ))
          | inr d ↦
              rw (a, b, d, cancel_present k round.current_generation p.rows e)
                (omega (
                  arith,
                  insert-pending_count k r (as_canceled round.current_generation r) p.rows e a refl,
                ))
        ]
      ]
    ]
