-- ===== src/Strategy/Gates.antt =====
-- What `evaluate_promotion` of wq_workflow/strategy/promotion.py asks of a strategy.
use worldquant_workflow_v2_r.Migration.Reals.{Reals}
use worldquant_workflow_v2_r.Strategy.Promotion.{
  PromotionConfig, evaluate_promotion, Evidence, Refusal, is_empty, report_of, refuse_if, refusals,
  promotion_pass, task_of,
}
use worldquant_workflow_v2_r.Common.{
  Bool, ℕ, not, ◌≡◌, ◌&&◌, ltb, ◌≤◌, Text, List, false, true, arith, refl, ◌↔◌, some, Option-cases,
  inl, inr,
}
use worldquant_workflow_v2_r.Strategy.Table.{
  Row, Table, is_active, same_role, get_strategy, challenger,
}

module _ (rs : Reals) where
  open rs use {lt}

  -- The strategy is an active challenger, and the reports on it pass every gate.
  abbrev pub Eligible : PromotionConfig rs → Evidence rs → Text → Row → Type 0
  Eligible c e id r =
      let replay = report_of rs e id r in
      (is_active r ≡ true)
      × (same_role r.role challenger ≡ true)
      × (c.require_model_validation_pass ≡ true
          → e.validation_pass (task_of id r) r.model_version ≡ true)
      × (c.require_offline_replay_pass ≡ true → replay.replay_pass ≡ true)
      × (e.support_pass ≡ true)
      × (c.min_samples ≤ replay.sample_count)
      × (lt replay.support_coverage c.min_support_coverage ≡ false)
      × (lt replay.estimated_reward_delta c.min_reward_improvement ≡ false)
      × (lt c.max_sc_risk_delta replay.estimated_sc_risk_delta ≡ false)
      × (lt c.max_failure_rate_delta replay.estimated_failure_delta ≡ false)
      × (e.has_severe_drift ≡ false)

  refuse_if-empty :
      (b : Bool) (why : Refusal) (rest : List Refusal)
      → is_empty (refuse_if b why rest) ≡ true
      → (b ≡ false) × (is_empty rest ≡ true)
  refuse_if-empty true why rest h = cc
  refuse_if-empty false why rest h = (refl, h)

  empty-refuse_if :
      (b : Bool) (why : Refusal) (rest : List Refusal)
      → b ≡ false
      → is_empty rest ≡ true
      → is_empty (refuse_if b why rest) ≡ true
  empty-refuse_if true why rest h k = cc
  empty-refuse_if false why rest h k = k

  not-false : (b : Bool) → not b ≡ false → b ≡ true
  not-false b h = ground arith

  false-not : (b : Bool) → b ≡ true → not b ≡ false
  false-not b h = ground arith

  required_false : (a b : Bool) → (a && not b) ≡ false → a ≡ true → b ≡ true
  required_false a b h k = ground arith

  false_required : (a b : Bool) → (a ≡ true → b ≡ true) → (a && not b) ≡ false
  false_required true b h = rw (h refl) refl
  false_required false b h = refl

  enough : (m n : ℕ) → ltb m n ≡ false → n ≤ m
  enough m n h = ground arith

  not_less : (m n : ℕ) → n ≤ m → ltb m n ≡ false
  not_less m n h = ground arith

  passing-Eligible :
      (c : PromotionConfig rs) (e : Evidence rs) (id : Text) (r : Row)
      → is_empty (refusals rs c e id r) ≡ true
      → Eligible c e id r
  passing-Eligible c e id r h =
      let (p₁, h₁) = refuse_if-empty _ _ _ h in
      let (p₂, h₂) = refuse_if-empty _ _ _ h₁ in
      let (p₃, h₃) = refuse_if-empty _ _ _ h₂ in
      let (p₄, h₄) = refuse_if-empty _ _ _ h₃ in
      let (p₅, h₅) = refuse_if-empty _ _ _ h₄ in
      let (p₆, h₆) = refuse_if-empty _ _ _ h₅ in
      let (p₇, h₇) = refuse_if-empty _ _ _ h₆ in
      let (p₈, h₈) = refuse_if-empty _ _ _ h₇ in
      let (p₉, h₉) = refuse_if-empty _ _ _ h₈ in
      let (p₁₀, h₁₀) = refuse_if-empty _ _ _ h₉ in
      let (p₁₁, h₁₁) = refuse_if-empty _ _ _ h₁₀ in
      (
        not-false _ p₁,
        not-false _ p₂,
        required_false _ _ p₃,
        required_false _ _ p₄,
        not-false _ p₅,
        enough _ _ p₆,
        p₇,
        p₈,
        p₉,
        p₁₀,
        p₁₁,
      )

  Eligible-passing :
      (c : PromotionConfig rs) (e : Evidence rs) (id : Text) (r : Row)
      → Eligible c e id r
      → is_empty (refusals rs c e id r) ≡ true
  Eligible-passing c e id r (p₁, p₂, p₃, p₄, p₅, p₆, p₇, p₈, p₉, p₁₀, p₁₁) =
      empty-refuse_if _ _ _ (false-not _ p₁) (
        empty-refuse_if _ _ _ (false-not _ p₂) (
          empty-refuse_if _ _ _ (false_required _ _ p₃) (
            empty-refuse_if _ _ _ (false_required _ _ p₄) (
              empty-refuse_if _ _ _ (false-not _ p₅) (
                empty-refuse_if _ _ _ (not_less _ _ p₆) (
                  empty-refuse_if _ _ _ p₇ (
                    empty-refuse_if _ _ _ p₈ (
                      empty-refuse_if _ _ _ p₉
                        (empty-refuse_if _ _ _ p₁₀ (empty-refuse_if _ _ _ p₁₁ refl))))))))))

  -- `evaluate_promotion` passes a strategy exactly when it is in the table and eligible: an active
  -- challenger, with the validation and the replay passed where the configuration requires them,
  -- the support passed, the samples, the coverage and the improvement of the reward not below the
  -- minimum, the deltas of SC risk and failures not above the maximum, and no severe drift.
  pub promotion_pass_iff :
      (c : PromotionConfig rs) (e : Evidence rs) (id : Text) (t : Table)
      → (promotion_pass rs c e id t ≡ true)
        ↔ ((r : Row) × (get_strategy id t ≡ some r) × Eligible c e id r)
  unfolding evaluate_promotion
  promotion_pass_iff c e id t = (
    (λ h. elim (Option-cases (get_strategy id t)) [
      | inl n ↦ absurd (cc (rw n at h))
      | inr (r, p) ↦ (r, p, passing-Eligible c e id r (rw p at h))
    ]),
    (λ (r, p, q). rw p (Eligible-passing c e id r q)),
  )
