-- ===== src/Governance/Flags.antt =====
-- `LearningGovernanceService.allow_hard_decision` and `guard_config` of
-- wq_workflow/governance/service.py. Without the service's parts there is no registry. On which flags
-- `setattr` raises is an environment.
use worldquant_workflow_v2_r.Common.{
  [], ◌∷◌, List, Text, codes, if◌then◌else◌, Bool, text_eq, Option, false, Bool-cases, not, ◌≡◌,
  inl, ◌++◌, ◌⊎◌, inr, some, true, refl, none, text_eq_refl, All, any, arith,
}
use worldquant_workflow_v2_r.Governance.Gate.{
  GateConfig, Registry, GovernanceDecision, flag_of, allow_hard_decision, denied, registered,
}
use worldquant_workflow_v2_r.Migration.Reals.{Reals}

-- The tasks of the loop with their decision types: `outcome` is passed over.
abbrev pub guarded_tasks : List (Text × Text)
guarded_tasks =
    (codes "sc", codes "sc_fallback")
    ∷ (codes "parent", codes "parent_selection")
    ∷ (codes "policy", codes "mutation_policy")
    ∷ (codes "simulator", codes "simulator_skip")
    ∷ []

-- `setattr(config, flag, False)`
abbrev pub turn_off : {R : Type 0} → Text → GateConfig R → GateConfig R
turn_off flag c = record c { flags = λ f. if text_eq f flag then false else c.flags f }

pub record Guarded (R : Type 0) : Type 0 where
  pub effective_config : GateConfig R
  pub warnings : List Text
  pub disabled_flags : List Text

module _ (rs : Reals) (available : Bool) (registry : Option (Registry rs.R))
    (config : Option (GateConfig rs.R)) (settable : Text → Bool) where
  open rs use {R}

  -- `LearningGovernanceService.allow_hard_decision`
  unfoldable pub service_decision : Text → Text → GateConfig R → GovernanceDecision R
  service_decision task decision_type c =
      if not available
      then denied rs task decision_type (codes "governance_unavailable")
      else allow_hard_decision rs available registry config task decision_type (some c)

  -- `try: setattr(…) except Exception: pass`
  unfoldable pub try_off : Text → GateConfig R → GateConfig R
  try_off flag c = if settable flag then turn_off flag c else c

  -- A decision that is not allowed: the flag is listed, whether it could be set or not.
  abbrev denied_round : Text → GovernanceDecision R → Guarded R → Guarded R
  denied_round flag d g = record {
    effective_config = try_off flag g.effective_config;
    warnings = g.warnings ++ (flag ++ (codes " disabled by governance: " ++ d.reason)) ∷ [];
    disabled_flags = g.disabled_flags ++ flag ∷ [];
  }

  abbrev after_decision : Text → GovernanceDecision R → Guarded R → Guarded R
  after_decision flag d g =
      if not d.allowed
      then denied_round flag d g
      else record g { warnings = g.warnings ++ d.warnings }

  -- A round of the loop
  unfoldable pub guard_flag : Text → Text → Guarded R → Guarded R
  unfolding service_decision try_off
  guard_flag task decision_type g =
      if g.effective_config.flags (flag_of task)
      then after_decision (flag_of task) (service_decision task decision_type g.effective_config) g
      else g

  unfoldable pub guard_flags : List (Text × Text) → Guarded R → Guarded R
  unfolding guard_flag
  guard_flags [] g = g
  guard_flags ((task, decision_type) ∷ todo) g = guard_flags todo (guard_flag task decision_type g)

  -- `guard_config`
  unfoldable pub guard_config : GateConfig R → Guarded R
  unfolding guard_flags
  guard_config c =
      guard_flags guarded_tasks
        (record { effective_config = c; warnings = []; disabled_flags = [] })

  -- The flag cannot be set, and is listed as disabled.
  abbrev pub IsListed : Guarded R → Text → Type 0
  IsListed g flag = (settable flag ≡ false) × (any (text_eq flag) g.disabled_flags ≡ true)

  abbrev IsSafe : GateConfig R → Text × Text → Type 0
  IsSafe c (task, decision_type) =
      (c.flags (flag_of task) ≡ false) ⊎ ((service_decision task decision_type c).allowed ≡ true)

  -- The flag of a task is off, or its decision is allowed, or the flag could not be turned off.
  abbrev pub IsGuarded : Guarded R → Text × Text → Type 0
  IsGuarded g (task, decision_type) =
      IsSafe g.effective_config (task, decision_type) ⊎ IsListed g (flag_of task)

  turn_off_other :
      (task decision_type flag : Text) (c : GateConfig R)
      → text_eq (flag_of task) flag ≡ false
      → service_decision task decision_type (turn_off flag c)
        ≡ service_decision task decision_type c
  unfolding service_decision allow_hard_decision
  turn_off_other task decision_type flag c e = elim (Bool-cases available) [
    | inl a ↦ rw a (same registry)
    | inr a ↦ rw a refl
  ]
    where
      same :
          (o : Option (Registry R))
          → registered rs task decision_type o (some (turn_off flag c))
            ≡ registered rs task decision_type o (some c)
      same none = refl
      same (some r) = rw e refl

  try_off-IsSafe :
      (flag : Text) (c : GateConfig R) (e : Text × Text) → IsSafe c e → IsSafe (try_off flag c) e
  unfolding try_off
  try_off-IsSafe flag c (task, decision_type) h = elim (Bool-cases (settable flag)) [
    | inr s ↦ rw s h
    | inl s ↦ elim (Bool-cases (text_eq (flag_of task) flag)) [
      | inl k ↦ inl (rw (s, k) refl)
      | inr k ↦ rw (s, k, turn_off_other task decision_type flag c k) h
    ]
  ]

  any-append_one :
      (p : Text → Bool) (flags : List Text) (flag : Text)
      → (any p flags ≡ true) ⊎ (p flag ≡ true)
      → any p (flags ++ flag ∷ []) ≡ true
  any-append_one p [] flag h = ground (arith, h)
  any-append_one p (f ∷ fs) flag h = elim (Bool-cases (p f)) [
    | inl e ↦ rw e refl
    | inr e ↦ rw e (any-append_one p fs flag (rw e at h))
  ]

  denied_round-IsGuarded :
      (flag : Text) (d : GovernanceDecision R) (g : Guarded R) (e : Text × Text)
      → IsGuarded g e
      → IsGuarded (denied_round flag d g) e
  denied_round-IsGuarded flag d g e (inl h) = inl (try_off-IsSafe flag g.effective_config e h)
  denied_round-IsGuarded flag d g (task, decision_type) (inr (s, listed)) =
      inr (s, any-append_one (text_eq (flag_of task)) g.disabled_flags flag (inl listed))

  denied_round-IsGuarded_self :
      (task decision_type : Text) (d : GovernanceDecision R) (g : Guarded R)
      → IsGuarded (denied_round (flag_of task) d g) (task, decision_type)
  unfolding try_off
  denied_round-IsGuarded_self task decision_type d g =
      let flag = flag_of task in
      elim (Bool-cases (settable flag)) [
        | inl s ↦ inl (inl (rw (s, text_eq_refl flag) refl))
        | inr s ↦
            inr (s, any-append_one (text_eq flag) g.disabled_flags flag (inr (text_eq_refl flag)))
      ]

  guard_flag-IsGuarded_self :
      (task decision_type : Text) (g : Guarded R)
      → IsGuarded (guard_flag task decision_type g) (task, decision_type)
  unfolding guard_flag
  guard_flag-IsGuarded_self task decision_type g =
      elim (Bool-cases (g.effective_config.flags (flag_of task))) [
        | inr e ↦ rw e (inl (inl e))
        | inl e ↦
            let d = service_decision task decision_type g.effective_config in
            elim (Bool-cases d.allowed) [
              | inl k ↦ rw (e, k) (inl (inr k))
              | inr k ↦ rw (e, k) (denied_round-IsGuarded_self task decision_type d g)
            ]
      ]

  guard_flag-IsGuarded :
      (task decision_type : Text) (g : Guarded R) (e : Text × Text)
      → IsGuarded g e
      → IsGuarded (guard_flag task decision_type g) e
  unfolding guard_flag
  guard_flag-IsGuarded task decision_type g e h =
      elim (Bool-cases (g.effective_config.flags (flag_of task))) [
        | inr a ↦ rw a h
        | inl a ↦
            let d = service_decision task decision_type g.effective_config in
            elim (Bool-cases d.allowed) [
              | inl k ↦ rw (a, k) h
              | inr k ↦ rw (a, k) (denied_round-IsGuarded (flag_of task) d g e h)
            ]
      ]

  guard_flags-IsGuarded :
      (todo : List (Text × Text)) (g : Guarded R) (e : Text × Text)
      → IsGuarded g e
      → IsGuarded (guard_flags todo g) e
  unfolding guard_flags
  guard_flags-IsGuarded [] g e h = h
  guard_flags-IsGuarded ((task, decision_type) ∷ todo) g e h =
      guard_flags-IsGuarded todo (guard_flag task decision_type g) e
        (guard_flag-IsGuarded task decision_type g e h)

  guard_flags-All :
      (todo : List (Text × Text)) (g : Guarded R) → All (IsGuarded (guard_flags todo g)) todo
  unfolding guard_flags
  guard_flags-All [] g = tt
  guard_flags-All ((task, decision_type) ∷ todo) g = (
    guard_flags-IsGuarded todo (guard_flag task decision_type g) (task, decision_type)
        (guard_flag-IsGuarded_self task decision_type g),
    guard_flags-All todo (guard_flag task decision_type g),
  )

  -- Only flags are turned off, and no flag is turned on.
  abbrev pub IsWeaker : GateConfig R → GateConfig R → Type 0
  IsWeaker d c =
      ((flag : Text) → (d.flags flag ≡ false) ⊎ (d.flags flag ≡ c.flags flag))
      × (d ≡ record c { flags = d.flags })

  turn_off-IsWeaker :
      (flag : Text) (d c : GateConfig R) → IsWeaker d c → IsWeaker (turn_off flag d) c
  turn_off-IsWeaker flag d c (h, e) = (off, rw e refl)
    where
      off :
          (f : Text) → ((turn_off flag d).flags f ≡ false) ⊎ ((turn_off flag d).flags f ≡ c.flags f)
      off f = elim (Bool-cases (text_eq f flag)) [ inl k ↦ inl (rw k refl) | inr k ↦ rw k (h f) ]

  try_off-IsWeaker : (flag : Text) (d c : GateConfig R) → IsWeaker d c → IsWeaker (try_off flag d) c
  unfolding try_off
  try_off-IsWeaker flag d c h = elim (Bool-cases (settable flag)) [
    | inl s ↦ rw s (turn_off-IsWeaker flag d c h)
    | inr s ↦ rw s h
  ]

  guard_flag-IsWeaker :
      (task decision_type : Text) (g : Guarded R) (c : GateConfig R)
      → IsWeaker g.effective_config c
      → IsWeaker (guard_flag task decision_type g).effective_config c
  unfolding guard_flag
  guard_flag-IsWeaker task decision_type g c h =
      elim (Bool-cases (g.effective_config.flags (flag_of task))) [
        | inr a ↦ rw a h
        | inl a ↦
            elim (Bool-cases (service_decision task decision_type g.effective_config).allowed) [
              | inl k ↦ rw (a, k) h
              | inr k ↦ rw (a, k) (try_off-IsWeaker (flag_of task) g.effective_config c h)
            ]
      ]

  guard_flags-IsWeaker :
      (todo : List (Text × Text)) (g : Guarded R) (c : GateConfig R)
      → IsWeaker g.effective_config c
      → IsWeaker (guard_flags todo g).effective_config c
  unfolding guard_flags
  guard_flags-IsWeaker [] g c h = h
  guard_flags-IsWeaker ((task, decision_type) ∷ todo) g c h =
      guard_flags-IsWeaker todo (guard_flag task decision_type g) c
        (guard_flag-IsWeaker task decision_type g c h)

  -- After `guard_config`, whatever flags cannot be set: every flag of a guarded task is off, or the
  -- decision of the task is allowed with the configuration as it then is, or the flag could not be
  -- turned off and is listed as disabled all the same. No flag was turned on, and nothing but flags
  -- was changed.
  pub guard_config-IsGuarded :
      (c : GateConfig R)
      → All (IsGuarded (guard_config c)) guarded_tasks
        × IsWeaker (guard_config c).effective_config c
  unfolding guard_config
  guard_config-IsGuarded c =
      let g : Guarded R = record { effective_config = c; warnings = []; disabled_flags = [] } in
      (
        guard_flags-All guarded_tasks g,
        guard_flags-IsWeaker guarded_tasks g c ((λ flag. inr refl), refl),
      )
