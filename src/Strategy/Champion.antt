-- ===== src/Strategy/Champion.antt =====
-- Who is champion, by wq_workflow/strategy/promotion.py and wq_workflow/strategy/rollback.py.
use worldquant_workflow_v2_r.Common.{
  ℕ, Text, List, ◌≡◌, ◌∷◌, true, [], false, Bool-cases, inl, inr, subst, refl, sym, ◌++◌,
}
use worldquant_workflow_v2_r.Strategy.Promotion.{
  demote, promote_if_eligible, Evidence, PromotionConfig, Store, promotion_pass,
}
use worldquant_workflow_v2_r.Strategy.Rollback.{
  roll_back_to, return_to_legacy, rollback_to_previous_champion,
}
use worldquant_workflow_v2_r.Migration.Reals.{Reals}
use worldquant_workflow_v2_r.Strategy.Table.{
  Table, Role, update_role, Row, deactivate_strategy, champion, challenger, has_id,
  previous_champion, list_by_role,
}
use worldquant_workflow_v2_r.Strategy.Demotion.{
  IsActive, OnlyChampion, IsChampion, deactivate-OnlyChampion, get_strategy-update_role,
  restore-OnlyChampion, still_active, crowned, get_strategy-has_id, crown-OnlyChampion,
}
use worldquant_workflow_v2_r.Strategy.Gates.{promotion_pass_iff}

update_role-IsActive :
    (now : ℕ) (id other : Text) (role : Role) (t : Table)
    → IsActive id t
    → IsActive id (update_role now other role t)
update_role-IsActive now id other role t (r, p, q) =
    (_, get_strategy-update_role now id other role t p, still_active now role (has_id other r) r q)

demote-IsActive :
    (now : ℕ) (id : Text) (role : Role) (rows : List Row) (t : Table)
    → IsActive id t
    → IsActive id (demote now role rows t)
unfolding demote
demote-IsActive now id role [] t h = h
demote-IsActive now id role (q ∷ rows) t h =
    demote-IsActive now id role rows _ (update_role-IsActive now id q.strategy_id role t h)

-- Crowning an active strategy makes it champion.
update_role-IsChampion :
    (now : ℕ) (id : Text) (t : Table)
    → IsActive id t
    → IsChampion id (update_role now id champion t)
update_role-IsChampion now id t (r, p, q) = (
  _,
  get_strategy-update_role now id id champion t p,
  crowned now (has_id id r) r (get_strategy-has_id id t p) q,
)

-- Whether a rollback finds its target or not, nobody else is an active champion afterwards; and
-- where the target is registered and active, it is the champion.
pub roll_back_to-IsChampion :
    (now : ℕ) (target : Text) (s : Store)
    → let t = (roll_back_to now target s).strategies in
      OnlyChampion target t × (IsActive target s.strategies → IsChampion target t)
unfolding roll_back_to
roll_back_to-IsChampion now target s = (
  restore-OnlyChampion now target s.strategies,
  (λ h. update_role-IsChampion now target _ (demote-IsActive now target challenger _ _ h)),
)

module _ (rs : Reals) where
  -- `promote_if_eligible` promotes exactly what its evaluation passes. The strategy then becomes
  -- the champion, and the only active one, and an allocation is added; otherwise the roles and the
  -- allocations stay, and a failing safety report is added.
  pub promote_if_eligible-IsChampion :
      (c : PromotionConfig rs) (e : Evidence rs) (now : ℕ) (id : Text) (s : Store)
      → let (s', promoted) = promote_if_eligible rs c e now id s in
        (promoted ≡ promotion_pass rs c e id s.strategies)
        × (promoted ≡ true
            → OnlyChampion id s'.strategies
              × IsChampion id s'.strategies
              × (s'.allocations
                  ≡ s.allocations ++ record { strategy_id = id; role = champion } ∷ []))
        × (promoted ≡ false
            → (s'.strategies ≡ s.strategies)
              × (s'.allocations ≡ s.allocations)
              × (s'.reports
                  ≡ s.reports
                    ++ record { strategy_id = id; promotion_pass = false; safety_pass = false }
                      ∷ []))
  unfolding promote_if_eligible
  promote_if_eligible-IsChampion c e now id s =
      elim (Bool-cases (promotion_pass rs c e id s.strategies)) [
        | inl h ↦
            let (r, p, q) = (promotion_pass_iff rs c e id s.strategies).0 h in
            let active =
              demote-IsActive now id previous_champion (list_by_role champion s.strategies) _
                (r, p, q.0) in
            rw h (
              refl,
              (λ _. (
                crown-OnlyChampion now id s.strategies,
                update_role-IsChampion now id _ active,
                refl,
              )),
              (λ n. absurd (cc n)),
            )
        | inr h ↦ rw h (refl, (λ n. absurd (cc n)), (λ _. (refl, refl, refl)))
      ]

  -- One operation on the strategies: a promotion on some evidence, a rollback, a deactivation.
  pub data Operation : Type 0 where
    promote : Evidence rs → Text → Operation
    back_to_legacy : Operation
    back_to_previous : Operation
    deactivate : Text → Operation

  abbrev operate : PromotionConfig rs → ℕ → Operation → Store → Store
  operate c now (promote e id) s = (promote_if_eligible rs c e now id s).0
  operate c now back_to_legacy s = return_to_legacy now s
  operate c now back_to_previous s = rollback_to_previous_champion now s
  operate c now (deactivate id) s = record s {
    strategies = deactivate_strategy now id s.strategies;
  }

  -- The store behind a list of operations, each at its time.
  unfoldable pub after : PromotionConfig rs → List (ℕ × Operation) → Store → Store
  after c [] s = s
  after c ((now, o) ∷ os) s = after c os (operate c now o s)

  abbrev pub HasOneChampion : Table → Type 0
  HasOneChampion t = (id : Text) × OnlyChampion id t

  promoted-HasOneChampion :
      (c : PromotionConfig rs) (e : Evidence rs) (now : ℕ) (id : Text) (s : Store)
      → HasOneChampion s.strategies
      → HasOneChampion (promote_if_eligible rs c e now id s).0.strategies
  promoted-HasOneChampion c e now id s h =
      let (same, won, lost) = promote_if_eligible-IsChampion c e now id s in
      elim (Bool-cases (promote_if_eligible rs c e now id s).1) [
        | inl p ↦ (id, (won p).0)
        | inr p ↦ subst HasOneChampion (sym (lost p).0) h
      ]

  operate-HasOneChampion :
      (c : PromotionConfig rs) (now : ℕ) (o : Operation) (s : Store)
      → HasOneChampion s.strategies
      → HasOneChampion (operate c now o s).strategies
  unfolding return_to_legacy rollback_to_previous_champion
  operate-HasOneChampion c now (promote e id) s h = promoted-HasOneChampion c e now id s h
  operate-HasOneChampion c now back_to_legacy s h = (_, (roll_back_to-IsChampion now _ s).0)
  operate-HasOneChampion c now back_to_previous s h = (_, (roll_back_to-IsChampion now _ s).0)
  operate-HasOneChampion c now (deactivate id) s (top, h) =
      (top, deactivate-OnlyChampion now top id s.strategies h)

  -- Promotions, rollbacks and deactivations in any order keep it that at most one strategy is an
  -- active champion.
  pub after-HasOneChampion :
      (c : PromotionConfig rs) (os : List (ℕ × Operation)) (s : Store)
      → HasOneChampion s.strategies
      → HasOneChampion (after c os s).strategies
  unfolding after
  after-HasOneChampion c [] s h = h
  after-HasOneChampion c ((now, o) ∷ os) s h =
      after-HasOneChampion c os _ (operate-HasOneChampion c now o s h)
