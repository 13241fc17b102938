-- ===== src/Governance/Permits.antt =====
-- About the tests of one task in wq_workflow/governance/policy_gate.py.
use worldquant_workflow_v2_r.Migration.Reals.{Reals}
use worldquant_workflow_v2_r.Governance.Gate.{
  unknown, invalid, measured, GovernanceDecision, GateConfig, ModelMetadata, Rate, task_checks,
  or_value, simulator_checks,
}
use worldquant_workflow_v2_r.Common.{
  Bool, Text, text_eq, ◌≢◌, ◌⊎◌, ◌≡◌, ◌&&◌, not, false, true, codes, if◌then◌else◌, inl, Bool-cases,
  mem_text, arith, text_eq_refl, text_eq→eq, inr, ◌∷◌, not-false, not-true, [], refl,
}

pub refused_if :
    {R : Type 0} (b : Bool) (x y : GovernanceDecision R)
    → x.allowed ≡ false
    → (if b then x else y).allowed ≡ true
    → (b ≡ false) × (y.allowed ≡ true)
refused_if b x y e h = ground arith

pub passed_if :
    {R : Type 0} {b : Bool} (x y : GovernanceDecision R)
    → b ≡ false
    → y.allowed ≡ true
    → (if b then x else y).allowed ≡ true
passed_if x y e h = rw e h

-- A conjunction fails where its first part is another text, or its second part fails.
differs_or : (s t : Text) (b : Bool) → (text_eq s t && b) ≡ false → (s ≢ t) ⊎ (b ≡ false)
differs_or s t true h = inl (λ e. absurd (cc (rw e at h, text_eq_refl t)))
differs_or s t false h = inr refl

differs_or_back : (s t : Text) (b : Bool) → (s ≢ t) ⊎ (b ≡ false) → (text_eq s t && b) ≡ false
differs_or_back s t b (inl n) = elim (Bool-cases (text_eq s t)) [
  | inl e ↦ absurd (n (text_eq→eq s t e))
  | inr e ↦ rw e refl
]
differs_or_back s t b (inr e) = ground arith

not-false-or {ℓ} : {A : Type ℓ} {b : Bool} → A ⊎ (not b ≡ false) → A ⊎ (b ≡ true)
not-false-or (inl a) = inl a
not-false-or (inr e) = inr (not-false _ e)

or_not {ℓ} : {A : Type ℓ} {b : Bool} → A ⊎ (b ≡ true) → A ⊎ (not b ≡ false)
or_not (inl a) = inl a
or_not (inr e) = inr (not-true _ e)

module _ (rs : Reals) where
  open rs use {R, lit, lt}

  -- What a task asks of the configuration and of the model besides
  abbrev pub TaskPermits : Text → GateConfig R → ModelMetadata R → Type 0
  TaskPermits task c m =
      ((task ≢ codes "parent")
        ⊎ (lt (lit 0 0) (or_value rs c.min_legacy_baseline_budget (lit 1 1)) ≡ true))
      × ((task ≢ codes "policy") ⊎ (m.has_decision_snapshot_history ≡ true))
      × ((mem_text task ("simulator" ∷ "outcome" ∷ []) ≡ false)
          ⊎ (x : R) × (m.false_skip_rate ≡ measured x)
            × (lt (or_value rs c.simulator_max_false_skip_rate (lit 2 2)) x ≡ false)
            × (lt (lit 0 0) (or_value rs c.simulator_validation_backtest_budget (lit 0 0)) ≡ true))

  module _ (task decision_type : Text) where
    rate_permits :
        (c : GateConfig R) (m : ModelMetadata R) (r : Rate R)
        → (simulator_checks rs task decision_type c m r).allowed ≡ true
        → (x : R) × (r ≡ measured x)
          × (lt (or_value rs c.simulator_max_false_skip_rate (lit 2 2)) x ≡ false)
          × (lt (lit 0 0) (or_value rs c.simulator_validation_backtest_budget (lit 0 0)) ≡ true)
    rate_permits c m unknown h = cc
    rate_permits c m invalid h = cc
    rate_permits c m (measured x) h =
        let (low, rest) = refused_if _ _ _ refl h in
        let (budget, _) = refused_if _ _ _ refl rest in (x, refl, low, not-false _ budget)

    rate_permits_back :
        (c : GateConfig R) (m : ModelMetadata R) {r : Rate R} (x : R)
        → r ≡ measured x
        → lt (or_value rs c.simulator_max_false_skip_rate (lit 2 2)) x ≡ false
        → lt (lit 0 0) (or_value rs c.simulator_validation_backtest_budget (lit 0 0)) ≡ true
        → (simulator_checks rs task decision_type c m r).allowed ≡ true
    rate_permits_back c m x e low budget =
        rw e (passed_if _ _ low (passed_if _ _ (not-true _ budget) refl))

    pub task_permits :
        (c : GateConfig R) (m : ModelMetadata R)
        → (task_checks rs task decision_type c m).allowed ≡ true
        → TaskPermits task c m
    task_permits c m h =
        let (parent, h₁) = refused_if _ _ _ refl h in
        let (policy, h₂) = refused_if _ _ _ refl h₁ in
        (
          not-false-or (differs_or task (codes "parent") _ parent),
          not-false-or (differs_or task (codes "policy") _ policy),
          elim (Bool-cases (mem_text task ("simulator" ∷ "outcome" ∷ []))) [
            | inl e ↦ inr (rate_permits c m m.false_skip_rate (rw e at h₂))
            | inr e ↦ inl e
          ],
        )

    pub passing_task :
        (c : GateConfig R) (m : ModelMetadata R)
        → TaskPermits task c m
        → (task_checks rs task decision_type c m).allowed ≡ true
    passing_task c m (parent, policy, rate) =
        passed_if _ _ (differs_or_back task (codes "parent") _ (or_not parent)) (
          passed_if _ _ (differs_or_back task (codes "policy") _ (or_not policy))
            (elim (Bool-cases (mem_text task ("simulator" ∷ "outcome" ∷ []))) [
              | inl e ↦ rw e (measured_rate e rate)
              | inr e ↦ rw e refl
            ]))
      where
        measured_rate :
            mem_text task ("simulator" ∷ "outcome" ∷ []) ≡ true
            → (mem_text task ("simulator" ∷ "outcome" ∷ []) ≡ false)
              ⊎ (x : R) × (m.false_skip_rate ≡ measured x)
                × (lt (or_value rs c.simulator_max_false_skip_rate (lit 2 2)) x ≡ false)
                × (lt (lit 0 0) (or_value rs c.simulator_validation_backtest_budget (lit 0 0))
                    ≡ true)
            → (simulator_checks rs task decision_type c m m.false_skip_rate).allowed ≡ true
        measured_rate e (inl n) = absurd (cc)
        measured_rate e (inr (x, k, low, budget)) = rate_permits_back c m x k low budget
