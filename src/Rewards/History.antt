-- ===== src/Rewards/History.antt =====
-- About sequences of registrations and settlements of
-- wq_workflow/core/evolution/pending_reward_manager.py.
use mathlib.Core.Option
use worldquant_workflow_v2_r.Common.{
  [], ◌∷◌, Dict, ℕ, ◌≡◌, ◌⊎◌, inl, inr, refl, lookup, IsDict, String, ◌+◌, some, ◌&&◌, Option,
  arith, false, suc, ◌∙◌, none, of_some, ◌≤◌, Bool, sym, if◌then◌else◌, Bool-cases, same_key, ◌||◌,
  insert-IsDict, lookup-insert, true,
}
use worldquant_workflow_v2_r.Migration.Reals.{Reals}
use worldquant_workflow_v2_r.Rewards.State.{
  ManagerConfig, PendingReward, Store, Injections, Registration, register_pending_reward,
  pending_record, not_positive,
}
use worldquant_workflow_v2_r.Rewards.Settlement.{
  Round, settle_rewards, SettlementReport, Progress, visit_all, empty_settlement, started,
  settle_from,
}
use worldquant_workflow_v2_r.Rewards.Once.{pending_count, outcome, insert_new-pending_count}
use worldquant_workflow_v2_r.Rewards.Settled.{
  visit_all-IsDict, settled_from, visit_all-pending_count, lookup-visit_all,
}

module _ (rs : Reals) (pow_half : rs.R → rs.R) (c : ManagerConfig rs) where
  open rs use {R}

  abbrev count_of : Dict (PendingReward R) → ℕ
  count_of = pending_count rs pow_half c

  module _ (round : Round rs pow_half) where
    abbrev settled : Store R → Store R × SettlementReport rs pow_half
    settled s = settle_rewards rs pow_half c round s

    visited : Store R → Progress rs pow_half
    visited s = visit_all rs pow_half c round s.rows (started rs pow_half c round s)

    -- A settlement without records does nothing; any other is the loop and the report.
    settle_rewards_cases :
        (s : Store R)
        → ((s.rows ≡ []) × (settled s ≡ (s, empty_settlement rs pow_half s.injections)))
          ⊎ ((settled s).0.rows ≡ (visited s).rows)
            × ((settled s).1.released_count ≡ (visited s).released_count)
            × ((settled s).1.canceled_count ≡ (visited s).canceled_count)
    unfolding settle_rewards visited
    settle_rewards_cases s = cases s.rows refl
      where
        cases :
            (rows : Dict (PendingReward R))
            → s.rows ≡ rows
            → ((s.rows ≡ []) × (settled s ≡ (s, empty_settlement rs pow_half s.injections)))
              ⊎ ((settled s).0.rows ≡ (visited s).rows)
                × ((settled s).1.released_count ≡ (visited s).released_count)
                × ((settled s).1.canceled_count ≡ (visited s).canceled_count)
        cases [] e = inl (e, rw (e, settle_from) refl)
        cases (_ ∷ _) e = inr (rw (e, settle_from) (refl, refl, refl))

    -- In a store whose candidates are distinct, a settlement leaves of each record what becomes of
    -- it by itself: it stays as it is if it was released or canceled before or is younger than its
    -- time; otherwise it is released if its candidate has survived for long enough, and canceled if
    -- not.
    pub settle_rewards-lookup :
        (s : Store R) (j : String)
        → IsDict s.rows
        → lookup j (settle_rewards rs pow_half c round s).0.rows
          ≡ Option.map (outcome rs pow_half c round j) (lookup j s.rows)
    unfolding lookup visited
    settle_rewards-lookup s j d = elim (settle_rewards_cases s) [
      | inl (e, q) ↦ rw (q, e) refl
      | inr (e, _, _) ↦ rw e (
          lookup-visit_all rs pow_half c round s.rows j (started rs pow_half c round s) d
            (λ i r h. h)
          ∙ settled_map (lookup j s.rows))
    ]
      where
        settled_map :
            (o : Option (PendingReward R))
            → settled_from rs pow_half c round j o o ≡ Option.map (outcome rs pow_half c round j) o
        settled_map none = refl
        settled_map (some r) = refl

    -- In a store whose candidates are distinct, every record that a settlement takes out of the
    -- pending ones is counted once, as released or as canceled.
    pub settle_rewards-pending_count :
        (s : Store R)
        → IsDict s.rows
        → let (s', report) = settle_rewards rs pow_half c round s in
          pending_count rs pow_half c s'.rows + report.released_count + report.canceled_count
          ≡ pending_count rs pow_half c s.rows
    unfolding visited
    settle_rewards-pending_count s d = elim (settle_rewards_cases s) [
      | inl (e, q) ↦ rw q (omega arith)
      | inr (e, f, g) ↦
          rw (e, f, g)
            (omega (
              arith,
              visit_all-pending_count rs pow_half c round s.rows (started rs pow_half c round s) d
                  (λ i r h. h),
            ))
    ]

    settle_rewards-IsDict :
        (s : Store R) → IsDict s.rows → IsDict (settle_rewards rs pow_half c round s).0.rows
    unfolding visited
    settle_rewards-IsDict s d = elim (settle_rewards_cases s) [
      | inl (e, q) ↦ rw q d
      | inr (e, _, _) ↦
          rw e (visit_all-IsDict rs pow_half c round s.rows (started rs pow_half c round s) d)
    ]

  -- No record is both released and canceled.
  abbrev pub IsExclusive : Dict (PendingReward R) → Type 0
  IsExclusive rows =
      (j : String) (r : PendingReward R)
      → lookup j rows ≡ some r
      → (r.released && r.canceled) ≡ false

  -- The stores that registrations and settlements make of an empty one, with the number of the
  -- registrations and the number of the records that the reports count.
  pub data History (i : Injections R) : ℕ → ℕ → Store R → Type 0 where
    empty : History i 0 0 (record { rows = []; injections = i })
    registers :
        {n m : ℕ} {s : Store R} (alpha_id : String) (reward : R) (a : Registration)
        → History i n m s
        → History i (suc n) m (register_pending_reward rs c alpha_id reward a s)
    settles :
        {n m k : ℕ} {s : Store R} (round : Round rs pow_half)
        → k
          ≡ m
            + (settle_rewards rs pow_half c round s).1.released_count
            + (settle_rewards rs pow_half c round s).1.canceled_count
        → History i n m s
        → History i n k (settle_rewards rs pow_half c round s).0

  outcome-exclusive :
      (round : Round rs pow_half) (j : String) (r : PendingReward R)
      → (r.released && r.canceled) ≡ false
      → let q = outcome rs pow_half c round j r in (q.released && q.canceled) ≡ false
  outcome-exclusive round j r h = ground arith

  map-exclusive :
      (round : Round rs pow_half) (j : String) (o : Option (PendingReward R))
      → ((r : PendingReward R) → o ≡ some r → (r.released && r.canceled) ≡ false)
      → (r : PendingReward R) → Option.map (outcome rs pow_half c round j) o ≡ some r
      → (r.released && r.canceled) ≡ false
  map-exclusive round j none h r e = cc
  map-exclusive round j (some q) h r e = rw (← of_some e) (outcome-exclusive round j q (h q refl))

  record IsSound (n m : ℕ) (s : Store R) : Type 0 where
    distinct : IsDict s.rows
    counted : m + pending_count rs pow_half c s.rows ≤ n
    exclusive : IsExclusive s.rows

  registers-IsSound :
      {n m : ℕ} {s : Store R} (alpha_id : String) (reward : R) (a : Registration)
      → IsSound n m s
      → IsSound (suc n) m (register_pending_reward rs c alpha_id reward a s)
  unfolding register_pending_reward
  registers-IsSound {s} alpha_id reward a h =
      elim (Bool-cases (same_key alpha_id "" || not_positive rs reward)) [
        | inl e ↦ rw e (record {
          distinct = h.distinct;
          counted = omega (arith, h.counted);
          exclusive = h.exclusive;
        })
        | inr e ↦ rw e (record {
          distinct = insert-IsDict alpha_id (pending_record rs c reward a) s.rows h.distinct;
          counted = omega (
            arith,
            h.counted,
            insert_new-pending_count rs pow_half c alpha_id (pending_record rs c reward a) s.rows,
          );
          exclusive = λ j r q.
              fresh j r (same_key alpha_id j) (h.exclusive j r)
                (rw (lookup-insert alpha_id j (pending_record rs c reward a) s.rows) at q);
        })
      ]
    where
      fresh :
          (j : String) (r : PendingReward R) (b : Bool)
          → (lookup j s.rows ≡ some r → (r.released && r.canceled) ≡ false)
          → (if b then some (pending_record rs c reward a) else lookup j s.rows) ≡ some r
          → (r.released && r.canceled) ≡ false
      fresh j r true k q = rw (← of_some q) refl
      fresh j r false k q = k q

  settles-IsSound :
      {n m k : ℕ} {s : Store R} (round : Round rs pow_half)
      → k
        ≡ m
          + (settle_rewards rs pow_half c round s).1.released_count
          + (settle_rewards rs pow_half c round s).1.canceled_count
      → IsSound n m s
      → IsSound n k (settle_rewards rs pow_half c round s).0
  settles-IsSound {s} round e h = record {
    distinct = settle_rewards-IsDict round s h.distinct;
    counted = omega (arith, h.counted, settle_rewards-pending_count round s h.distinct);
    exclusive = λ j r q.
        map-exclusive round j (lookup j s.rows) (h.exclusive j) r
          (sym (settle_rewards-lookup round s j h.distinct) ∙ q);
  }

  History-IsSound : {i : Injections R} {n m : ℕ} {s : Store R} → History i n m s → IsSound n m s
  unfolding lookup
  History-IsSound empty = record { distinct = tt; counted = omega arith; exclusive = λ j r q. cc }
  History-IsSound (registers k reward a h) = registers-IsSound k reward a (History-IsSound h)
  History-IsSound (settles round e h) = settles-IsSound round e (History-IsSound h)

  -- After any sequence of registrations and settlements from an empty store, the records counted as
  -- released or canceled and the pending ones are together no more than the registrations, and no
  -- record is both released and canceled.
  pub History-settled_once :
      {i : Injections R} {n m : ℕ} {s : Store R}
      → History i n m s
      → (m + pending_count rs pow_half c s.rows ≤ n) × IsExclusive s.rows
  History-settled_once h = let k = History-IsSound h in (k.counted, k.exclusive)
