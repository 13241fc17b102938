-- ===== src/Strategy/Recommended.antt =====
-- About `recommend_state` of wq_workflow/strategy/transition_rules.py.
use worldquant_workflow_v2_r.Strategy.Transition.{
  RulesConfig, branch_of, recommend_state, Score, Branch, StrategyState, Transition,
  is_default_champion, guard, proposal, champion, is_blocked, can_recommend_limited_active,
  disabled, can_promote_to_challenger, shadow, limited_active, challenger, baseline, governed,
  risky, exploring, unproven, limited, challenging, observing, has_sufficient_evidence,
  has_high_sc_risk, count_or,
}
use worldquant_workflow_v2_r.Common.{
  Bool, Text, ◌≡◌, true, if◌then◌else◌, false, refl, text_eq, codes, not, ◌↔◌, arith, max, ◌≤◌,
  &&-eq-true, text_eq→eq, leb→le,
}

-- The branches that end in SHADOW
data IsShadowing : Branch → Type 0 where
  at_risk : IsShadowing risky
  at_random : IsShadowing exploring
  unproven_yet : IsShadowing unproven
  observed : IsShadowing observing

-- The tests that lead to a branch
data Holds (c : RulesConfig) (s : Score) : Branch → Type 0 where
  default : is_default_champion c s.strategy_id ≡ true → Holds c s baseline
  refused : is_default_champion c s.strategy_id ≡ false → is_blocked s ≡ true → Holds c s governed
  shadowed :
      {b : Branch}
      → is_default_champion c s.strategy_id ≡ false
      → is_blocked s ≡ false
      → IsShadowing b
      → Holds c s b
  proven :
      is_default_champion c s.strategy_id ≡ false
      → is_blocked s ≡ false
      → can_recommend_limited_active c s ≡ true
      → Holds c s limited
  confident :
      is_default_champion c s.strategy_id ≡ false
      → is_blocked s ≡ false
      → can_promote_to_challenger c s ≡ true
      → Holds c s challenging

Holds-if :
    (c : RulesConfig) (s : Score) (b : Bool) (x y : Branch)
    → (b ≡ true → Holds c s x)
    → (b ≡ false → Holds c s y)
    → Holds c s (if b then x else y)
Holds-if c s true x y h k = h refl
Holds-if c s false x y h k = k refl

branch_of-Holds : (c : RulesConfig) (s : Score) → Holds c s (branch_of c s)
unfolding branch_of
branch_of-Holds c s =
    Holds-if c s _ _ _ (λ d. default d)
      (λ d.
        Holds-if c s _ _ _ (λ b. refused d b)
          (λ b.
            Holds-if c s (text_eq s.risk_level (codes "high")) risky _ (λ _. shadowed d b at_risk)
              (λ _.
                Holds-if c s (text_eq s.strategy_id (codes "random_exploration")) exploring _
                  (λ _. shadowed d b at_random)
                  (λ _.
                    Holds-if c s (not (has_sufficient_evidence c s)) unproven _
                      (λ _. shadowed d b unproven_yet)
                      (λ _.
                        Holds-if c s _ _ _ (λ l. proven d b l)
                          (λ _.
                            Holds-if c s _ _ _ (λ l. confident d b l)
                              (λ _. shadowed d b observed)))))))

-- What is recommended, the state and whether it is allowed, by the branch
data Outcome (c : RulesConfig) (s : Score) : StrategyState → Bool → Type 0 where
  stays_champion : is_default_champion c s.strategy_id ≡ true → Outcome c s champion true
  is_disabled :
      is_default_champion c s.strategy_id ≡ false → is_blocked s ≡ true → Outcome c s disabled false
  is_shadow :
      is_default_champion c s.strategy_id ≡ false → is_blocked s ≡ false → Outcome c s shadow true
  is_limited_active :
      is_default_champion c s.strategy_id ≡ false
      → is_blocked s ≡ false
      → can_recommend_limited_active c s ≡ true
      → Outcome c s limited_active true
  is_challenger :
      is_default_champion c s.strategy_id ≡ false
      → is_blocked s ≡ false
      → can_promote_to_challenger c s ≡ true
      → Outcome c s challenger true

abbrev OutcomeOf : RulesConfig → Score → Transition → Type 0
OutcomeOf c s t = Outcome c s t.to_state t.allowed

guard-Outcome :
    (c : RulesConfig) (s : Score) (from : StrategyState) (b : Branch)
    → Holds c s b
    → OutcomeOf c s (guard c (proposal c s from b))
guard-Outcome c s from _ (default d) = rw d (stays_champion d)
guard-Outcome c s from _ (refused d b) = is_disabled d b
guard-Outcome c s from _ (shadowed d b at_risk) = is_shadow d b
guard-Outcome c s from _ (shadowed d b at_random) = is_shadow d b
guard-Outcome c s from _ (shadowed d b unproven_yet) = is_shadow d b
guard-Outcome c s from _ (shadowed d b observed) = is_shadow d b
guard-Outcome c s from _ (proven d b l) = is_limited_active d b l
guard-Outcome c s from _ (confident d b l) = is_challenger d b l

recommend_state-Outcome :
    (c : RulesConfig) (s : Score) (current : Text) → OutcomeOf c s (recommend_state c s current)
unfolding recommend_state
recommend_state-Outcome c s current = guard-Outcome c s _ _ (branch_of-Holds c s)

not-true : (b : Bool) → not b ≡ true → b ≡ false
not-true b h = ground arith

-- The gates of `can_recommend_limited_active`, apart from the confidence
can_recommend_limited_active-Low :
    (c : RulesConfig) (s : Score)
    → can_recommend_limited_active c s ≡ true
    → (s.risk_level ≡ codes "low")
      × (has_high_sc_risk c s ≡ false)
      × (max 1 (count_or 500 c.limited_active_min_samples) ≤ s.sample_count)
unfolding can_recommend_limited_active
can_recommend_limited_active-Low c s h =
    let (enough, h₁) = &&-eq-true _ _ h in
    let (sure, h₂) = &&-eq-true _ _ h₁ in
    let (low, h₃) = &&-eq-true _ _ h₂ in
    let (calm, free) = &&-eq-true _ _ h₃ in
    (text_eq→eq s.risk_level (codes "low") low, not-true _ calm, leb→le _ _ enough)

Outcome-grounds :
    (c : RulesConfig) (s : Score) (state : StrategyState) (allowed : Bool)
    → Outcome c s state allowed
    → ((state ≡ champion) ↔ (is_default_champion c s.strategy_id ≡ true))
      × ((allowed ≡ false) ↔ (is_default_champion c s.strategy_id ≡ false) × (is_blocked s ≡ true))
      × (allowed ≡ false → state ≡ disabled)
      × (state ≡ limited_active
          → (is_blocked s ≡ false)
            × (s.risk_level ≡ codes "low")
            × (has_high_sc_risk c s ≡ false)
            × (max 1 (count_or 500 c.limited_active_min_samples) ≤ s.sample_count))
      × (state ≡ challenger → can_promote_to_challenger c s ≡ true)
Outcome-grounds c s _ _ (stays_champion d) = (
  ((λ _. d), (λ _. refl)),
  ((λ h. absurd (cc h)), (λ (n, _). absurd (cc (rw d at n)))),
  (λ h. absurd (cc h)),
  (λ h. absurd (cc h)),
  (λ h. absurd (cc h)),
)
Outcome-grounds c s _ _ (is_disabled d b) = (
  ((λ h. absurd (cc h)), (λ y. absurd (cc (rw d at y)))),
  ((λ _. (d, b)), (λ _. refl)),
  (λ _. refl),
  (λ h. absurd (cc h)),
  (λ h. absurd (cc h)),
)
Outcome-grounds c s _ _ (is_shadow d b) = (
  ((λ h. absurd (cc h)), (λ y. absurd (cc (rw d at y)))),
  ((λ h. absurd (cc h)), (λ (_, y). absurd (cc (rw b at y)))),
  (λ h. absurd (cc h)),
  (λ h. absurd (cc h)),
  (λ h. absurd (cc h)),
)
Outcome-grounds c s _ _ (is_limited_active d b l) = (
  ((λ h. absurd (cc h)), (λ y. absurd (cc (rw d at y)))),
  ((λ h. absurd (cc h)), (λ (_, y). absurd (cc (rw b at y)))),
  (λ h. absurd (cc h)),
  (λ _. let (low, calm, enough) = can_recommend_limited_active-Low c s l in (b, low, calm, enough)),
  (λ h. absurd (cc h)),
)
Outcome-grounds c s _ _ (is_challenger d b l) = (
  ((λ h. absurd (cc h)), (λ y. absurd (cc (rw d at y)))),
  ((λ h. absurd (cc h)), (λ (_, y). absurd (cc (rw b at y)))),
  (λ h. absurd (cc h)),
  (λ h. absurd (cc h)),
  (λ _. l),
)

-- The recommendation is CHAMPION exactly for the default champion, whatever its score; it is
-- refused, with DISABLED, exactly for another strategy that governance blocks. LIMITED_ACTIVE is
-- recommended only to a strategy that is not blocked, at low risk, without a high SC risk that
-- counts, and with the samples that the configuration asks for; CHALLENGER only to one that
-- `can_promote_to_challenger` passes.
pub recommend_state_lem :
    (c : RulesConfig) (s : Score) (current : Text)
    → let t = recommend_state c s current in
      ((t.to_state ≡ champion) ↔ (is_default_champion c s.strategy_id ≡ true))
      × ((t.allowed ≡ false)
          ↔ (is_default_champion c s.strategy_id ≡ false) × (is_blocked s ≡ true))
      × (t.allowed ≡ false → t.to_state ≡ disabled)
      × (t.to_state ≡ limited_active
          → (is_blocked s ≡ false)
            × (s.risk_level ≡ codes "low")
            × (has_high_sc_risk c s ≡ false)
            × (max 1 (count_or 500 c.limited_active_min_samples) ≤ s.sample_count))
      × (t.to_state ≡ challenger → can_promote_to_challenger c s ≡ true)
recommend_state_lem c s current = Outcome-grounds c s _ _ (recommend_state-Outcome c s current)
