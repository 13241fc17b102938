-- ===== src/Migration/Bounds.antt =====
-- About the weights that `blend_reward` of wq_workflow/reward_migration/migration_controller.py
-- saves, and the reward that it returns.
use worldquant_workflow_v2_r.Migration.State.{
  MigrationState, normalize_weights, clamp, with_weights, share, or_defaults, early_hybrid,
  no_total, Snapshot, mid_hybrid, default_weights, shadow, late_hybrid, positive_part, full_v2,
  rollback, Reason, reload,
}
use worldquant_workflow_v2_r.Migration.Reals.{Reals, OrderLaws, max_of, min_of}
use worldquant_workflow_v2_r.Common.{
  Bool, ◌≡◌, true, if◌then◌else◌, false, subst, Bool-cases, sym, inl, inr, refl, ◌∙◌, ap,
}
use worldquant_workflow_v2_r.Migration.Controller.{
  blend_reward, Config, Observation, effective_reward, reward_cap, settle, effective_from, move,
  with_streaks, chosen_weights,
}

-- The states in which both rewards count
abbrev pub is_hybrid : MigrationState → Bool
is_hybrid early_hybrid = true
is_hybrid mid_hybrid = true
is_hybrid late_hybrid = true
is_hybrid _ = false

module _ (rs : Reals) where
  open rs use {R, lit, sub, lt, round_six}

  -- A pair of weights that was clamped to [0.15, 0.85] and rounded, the second the rest to one.
  abbrev Clamped : R × R → Type 0
  Clamped w = (x : R) × (w ≡ (round_six (clamp rs x), round_six (sub (lit 1 0) (clamp rs x))))

  -- The weights that are saved are those of `normalize_weights` at the state that is saved.
  settle_weights :
      (o : Observation rs) (w : R × R) (reason : Reason) (s : Snapshot rs)
      → let t = settle rs o w reason s in
        ◌≡◌ {A = R × R} (t.legacy_weight, t.v2_weight) (normalize_weights rs w.0 w.1 t.state)
  unfolding settle with_weights
  settle_weights o (l, v) reason s = refl

  normalize_shadow :
      (l v : R) (s : MigrationState) → s ≡ shadow → normalize_weights rs l v s ≡ (lit 1 0, lit 0 0)
  unfolding normalize_weights
  normalize_shadow l v s e =
      subst (λ t. normalize_weights rs l v t ≡ (lit 1 0, lit 0 0)) (sym e) refl

  effective_shadow : (l v : R) (s : Snapshot rs) → s.state ≡ shadow → effective_reward rs l v s ≡ l
  unfolding effective_reward
  effective_shadow l v s e = subst (λ t. effective_from rs t l v s ≡ l) (sym e) refl

  share-Clamped : (s : MigrationState) (l v : R) → is_hybrid s ≡ true → Clamped (share rs s l v)
  share-Clamped early_hybrid l v h = (_, refl)
  share-Clamped mid_hybrid l v h = (_, refl)
  share-Clamped late_hybrid l v h = (_, refl)
  share-Clamped shadow l v h = cc
  share-Clamped full_v2 l v h = cc
  share-Clamped rollback l v h = cc

  Clamped-if : (b : Bool) (x y : R × R) → Clamped x → Clamped y → Clamped (if b then x else y)
  Clamped-if true x y hx hy = hx
  Clamped-if false x y hx hy = hy

  or_defaults-Clamped :
      (s : MigrationState) (l v : R) → is_hybrid s ≡ true → Clamped (or_defaults rs s l v)
  or_defaults-Clamped s l v h =
      Clamped-if (no_total rs l v) _ _
        (share-Clamped s (default_weights rs s (lit 1 0) (lit 0 0)).0
          (default_weights rs s (lit 1 0) (lit 0 0)).1 h)
        (share-Clamped s (positive_part rs l) (positive_part rs v) h)

  normalize_hybrid :
      (legacy v2 : R) (s : MigrationState)
      → is_hybrid s ≡ true
      → Clamped (normalize_weights rs legacy v2 s)
  unfolding normalize_weights
  normalize_hybrid legacy v2 early_hybrid h = or_defaults-Clamped early_hybrid legacy v2 h
  normalize_hybrid legacy v2 mid_hybrid h = or_defaults-Clamped mid_hybrid legacy v2 h
  normalize_hybrid legacy v2 late_hybrid h = or_defaults-Clamped late_hybrid legacy v2 h
  normalize_hybrid legacy v2 shadow h = cc
  normalize_hybrid legacy v2 full_v2 h = cc
  normalize_hybrid legacy v2 rollback h = cc

  module _ (laws : OrderLaws rs) where
    -- `max` is not below its first argument, and `min` not above.
    max-ge : (x y : R) → lt (max_of rs x y) x ≡ false
    max-ge x y = elim (Bool-cases (lt x y)) [
      | inl h ↦ rw h (laws.asymmetric x y h)
      | inr h ↦ rw h (laws.irreflexive x)
    ]

    min-le : (x y : R) → lt x (min_of rs x y) ≡ false
    min-le x y = elim (Bool-cases (lt y x)) [
      | inl h ↦ rw h (laws.asymmetric y x h)
      | inr h ↦ rw h (laws.irreflexive x)
    ]

    max-le : (z x y : R) → lt z x ≡ false → lt z y ≡ false → lt z (max_of rs x y) ≡ false
    max-le z x y hx hy = elim (Bool-cases (lt x y)) [ inl h ↦ rw h hy | inr h ↦ rw h hx ]

    clamp-low : (x : R) → lt (clamp rs x) (lit 15 2) ≡ false
    clamp-low x = max-ge (lit 15 2) (min_of rs (lit 85 2) x)

    clamp-high : (x : R) → lt (lit 85 2) (clamp rs x) ≡ false
    clamp-high x =
        max-le (lit 85 2) (lit 15 2) (min_of rs (lit 85 2) x) laws.low_high (min-le (lit 85 2) x)

    -- Both bounds of a weight, in the program's own comparison
    abbrev WithinBounds : R → Type 0
    WithinBounds w = (lt w (lit 15 2) ≡ false) × (lt (lit 85 2) w ≡ false)

    Clamped-WithinBounds : (w : R × R) → Clamped w → WithinBounds w.0
    Clamped-WithinBounds w (x, e) =
        subst (λ (p : R × R). WithinBounds p.0) (sym e)
          (
            subst (λ z. lt (round_six (clamp rs x)) z ≡ false) laws.round_low
                (laws.round_monotone (clamp rs x) (lit 15 2) (clamp-low x)),
            subst (λ z. lt z (round_six (clamp rs x)) ≡ false) laws.round_high
                (laws.round_monotone (lit 85 2) (clamp rs x) (clamp-high x)),
          )

    -- Where rounding is monotone and keeps 0.15 and 0.85: after every call that ends in a hybrid
    -- state the legacy weight is not below 0.15 and not above 0.85, whatever the adaptive controller
    -- or the scheduler proposes.
    pub blend_reward_bounds :
        (c : Config rs) (o : Observation rs) (s : Snapshot rs)
        → let t = (blend_reward rs c o s).0 in
          is_hybrid t.state ≡ true
          → (lt t.legacy_weight (lit 15 2) ≡ false) × (lt (lit 85 2) t.legacy_weight ≡ false)
    unfolding blend_reward
    blend_reward_bounds c o s h =
        let m = move rs c o (with_streaks rs o (reload rs s)) in
        let w = chosen_weights rs c o m.snapshot in
        subst (λ (p : R × R). WithinBounds p.0) (sym (settle_weights o w m.reason m.snapshot))
          (Clamped-WithinBounds _
            (normalize_hybrid w.0 w.1 (settle rs o w m.reason m.snapshot).state h))

  -- In SHADOW the legacy engine alone counts: its weight is one, that of V2 is zero, and the reward
  -- returned is the legacy reward, capped and rounded.
  pub blend_reward_shadow :
      (c : Config rs) (o : Observation rs) (s : Snapshot rs)
      → let (t, decision) = blend_reward rs c o s in
        t.state ≡ shadow
        → (t.legacy_weight ≡ lit 1 0)
          × (t.v2_weight ≡ lit 0 0)
          × (decision.final_reward ≡ round_six (reward_cap rs o.legacy_reward))
  unfolding blend_reward
  blend_reward_shadow c o s h =
      let m = move rs c o (with_streaks rs o (reload rs s)) in
      let w = chosen_weights rs c o m.snapshot in
      let saved = settle rs o w m.reason m.snapshot in
      let e = settle_weights o w m.reason m.snapshot ∙ normalize_shadow w.0 w.1 saved.state h in
      (
        ap (λ (p : R × R). p.0) e,
        ap (λ (p : R × R). p.1) e,
        ap (λ r. round_six (reward_cap rs r))
            (effective_shadow o.legacy_reward o.v2_reward saved h),
      )
