-- ===== src/Governance/Allowed.antt =====
-- About the decisions of wq_workflow/governance/policy_gate.py.
use worldquant_workflow_v2_r.Migration.Reals.{Reals}
use worldquant_workflow_v2_r.Governance.Lifecycle.{
  limited_active, champion, status_of, is_hard_decision_allowed_status,
}
use worldquant_workflow_v2_r.Common.{
  Text, Bool, ◌≡◌, Option, true, some, ◌⊎◌, inl, ◌↔◌, false, arith, inr, not-false, none, mem_text,
  not-true, Bool-cases, refl, if◌then◌else◌, of_some, subst, sym,
}
use worldquant_workflow_v2_r.Governance.Gate.{
  GateConfig, Registry, ModelMetadata, flag_checks, flag_of, allow_hard_decision, status_in,
  model_checks, forced, or_config, registered, blocking_actions,
}
use worldquant_workflow_v2_r.Governance.Permits.{
  refused_if, passed_if, task_permits, passing_task, TaskPermits,
}

module _ (rs : Reals) where
  open rs use {R, lit, lt}

  -- The model that is active may decide.
  abbrev pub ModelPermits : Text → GateConfig R → ModelMetadata R → Type 0
  ModelPermits task c m =
      ((status_of (status_in m) ≡ some limited_active) ⊎ (status_of (status_in m) ≡ some champion))
      × (m.expired ≡ false)
      × (mem_text m.recommended_action blocking_actions ≡ false)
      × TaskPermits rs task c m

  -- Either the checks are bypassed, or the active model may decide.
  abbrev pub RegistryPermits : Text → Registry R → GateConfig R → Type 0
  RegistryPermits task r c =
      (c.force_enable_unsafe_ml_decisions ≡ true)
      ⊎ (m : ModelMetadata R) × (r.get_active_metadata task ≡ some m)
        × (r.is_consistent task ≡ true)
        × ModelPermits task c m

  hard_decision_status :
      (s : Text)
      → is_hard_decision_allowed_status s ≡ true
      → (status_of s ≡ some limited_active) ⊎ (status_of s ≡ some champion)
  unfolding is_hard_decision_allowed_status
  hard_decision_status s h = ground arith

  hard_decision_back :
      (s : Text)
      → (status_of s ≡ some limited_active) ⊎ (status_of s ≡ some champion)
      → is_hard_decision_allowed_status s ≡ true
  unfolding is_hard_decision_allowed_status
  hard_decision_back s (inl e) = rw e refl
  hard_decision_back s (inr e) = rw e refl

  module _ (task decision_type : Text) where
    model_permits :
        (c : GateConfig R) (consistent : Bool) (m : ModelMetadata R)
        → (model_checks rs task decision_type c consistent (some m)).allowed ≡ true
        → (consistent ≡ true) × ModelPermits task c m
    model_permits c consistent m h =
        let (same, h₁) = refused_if _ _ _ refl h in
        let (status, h₂) = refused_if _ _ _ refl h₁ in
        let (current, h₃) = refused_if _ _ _ refl h₂ in
        let (open_action, h₄) = refused_if _ _ _ refl h₃ in
        (
          not-false _ same,
          (
            hard_decision_status (status_in m) (not-false _ status),
            current,
            open_action,
            task_permits rs task decision_type c m h₄,
          ),
        )

    passing_model :
        (c : GateConfig R) {consistent : Bool} (m : ModelMetadata R)
        → consistent ≡ true
        → ModelPermits task c m
        → (model_checks rs task decision_type c consistent (some m)).allowed ≡ true
    passing_model c m same (status, current, open_action, rest) = passed_if _ _ (not-true _ same) (
        passed_if _ _ (not-true _ (hard_decision_back (status_in m) status)) (
          passed_if _ _ current
            (passed_if _ _ open_action (passing_task rs task decision_type c m rest))))

    known_model :
        (c : GateConfig R) (consistent : Bool) (o : Option (ModelMetadata R))
        → (model_checks rs task decision_type c consistent o).allowed ≡ true
        → (m : ModelMetadata R) × (o ≡ some m) × (consistent ≡ true) × ModelPermits task c m
    known_model c consistent none h = cc
    known_model c consistent (some m) h =
        let (same, rest) = model_permits c consistent m h in (m, refl, same, rest)

    forced_allowed :
        (o : Option (ModelMetadata R)) → (forced rs task decision_type o).allowed ≡ true
    forced_allowed none = refl
    forced_allowed (some m) = refl

    flag_permits :
        (r : Registry R) (c : GateConfig R)
        → (flag_checks rs task decision_type r c).allowed ≡ true
        → (c.flags (flag_of task) ≡ true) × RegistryPermits task r c
    flag_permits r c h =
        let (flag, h₁) = refused_if _ _ _ refl h in
        (
          not-false _ flag,
          elim (Bool-cases c.force_enable_unsafe_ml_decisions) [
            | inl e ↦ inl e
            | inr e ↦
                inr (known_model c (r.is_consistent task) (r.get_active_metadata task) (rw e at h₁))
          ],
        )

    flag_permits_back :
        (r : Registry R) (c : GateConfig R)
        → c.flags (flag_of task) ≡ true
        → RegistryPermits task r c
        → (flag_checks rs task decision_type r c).allowed ≡ true
    flag_permits_back r c flag (inl e) =
        passed_if _ _ (not-true _ flag) (rw e (forced_allowed (r.get_active_metadata task)))
    flag_permits_back r c flag (inr (m, e, same, rest)) =
        passed_if _ _ (not-true _ flag) (elim (Bool-cases c.force_enable_unsafe_ml_decisions) [
          | inl k ↦ rw k (forced_allowed (r.get_active_metadata task))
          | inr k ↦ rw (k, e) (passing_model c m same rest)
        ])

  module _ (available : Bool) (registry : Option (Registry R))
      (config : Option (GateConfig R)) where
    -- A hard decision of a model is allowed exactly when the governance and a registry are there, a
    -- configuration is given or known with the task's flag on, and either that configuration
    -- bypasses the checks, or the registry is consistent and has an active model that is champion
    -- or limited, has not expired, is not blocked by its online evaluation and meets what its task
    -- asks.
    pub allow_hard_decision_iff :
        (task decision_type : Text) (effective : Option (GateConfig R))
        → ((allow_hard_decision rs available registry config task decision_type effective).allowed
            ≡ true)
          ↔ ((r : Registry R) × (c : GateConfig R) × (available ≡ true)
              × (registry ≡ some r)
              × (or_config effective config ≡ some c)
              × (c.flags (flag_of task) ≡ true)
              × RegistryPermits task r c)
    unfolding allow_hard_decision
    allow_hard_decision_iff task decision_type effective =
        iff available registry (or_config effective config)
      where
        iff :
            (a : Bool) (o : Option (Registry R)) (k : Option (GateConfig R))
            → ((registered rs task decision_type (if a then o else none) k).allowed ≡ true) ↔ (
                (r : Registry R) × (c : GateConfig R) × (a ≡ true)
                × (o ≡ some r)
                × (k ≡ some c)
                × (c.flags (flag_of task) ≡ true)
                × RegistryPermits task r c)
        iff false o k = ((λ h. cc), λ (r, c, e, _, _, _, _). cc)
        iff true none k = ((λ h. cc), λ (r, c, _, e, _, _, _). cc)
        iff true (some r) none = ((λ h. cc), λ (q, c, _, _, e, _, _). cc)
        iff true (some r) (some c) = (
          (λ h.
              let (flag, rest) = flag_permits task decision_type r c h in
              (r, c, refl, refl, refl, flag, rest)),
          λ (q, d, _, e, g, flag, rest).
              flag_permits_back task decision_type r c (rw (of_some g) flag) (
                subst (λ x. RegistryPermits task x c) (sym (of_some e))
                  (subst (λ x. RegistryPermits task q x) (sym (of_some g)) rest)),
        )
