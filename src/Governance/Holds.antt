-- ===== src/Governance/Holds.antt =====
-- Calls of wq_workflow/governance that keep to the safe ones, whether they return or throw.
use worldquant_workflow_v2_r.Migration.Reals.{Reals}
use worldquant_workflow_v2_r.Governance.Effects.{
  returned, threw, wrote, marked, CheckResult, Effect, Action, Attempt, ◌>>=◌, recover, calling,
  asking, tell, ◌>>◌, pure, weighed,
}
use worldquant_workflow_v2_r.Common.{
  List, Text, Bool, ◌≡◌, All, true, false, ◌++◌, All-append, ◌⊎◌, if◌then◌else◌, mem_text, codes,
  refl, ◌∷◌, [],
}

-- A result that is not good names an action without the model.
abbrev pub IsCautious : CheckResult → Type 0
IsCautious r =
    (r.ok ≡ true)
    ⊎ (mem_text r.recommended_action ("force_legacy" ∷ "disable_model" ∷ "keep_shadow" ∷ []) ≡ true)

module _ (rs : Reals) where
  open rs use {R, lit}

  -- A written state with an active fallback gives the model no weight; `mark_lifecycle` is called
  -- for the status of a shadow, and `update_model_weight` for a weight of 0.05.
  abbrev pub IsSafeEffect : Effect R → Type 0
  IsSafeEffect (wrote s) = (s.fallback_active ≡ false) ⊎ (s.model_weight ≡ lit 0 0)
  IsSafeEffect (marked task version status) = status ≡ codes "shadow"
  IsSafeEffect (weighed task version weight) = weight ≡ lit 5 2
  IsSafeEffect _ = Unit

  -- The calls of an action are safe, and its value is as `P` says, if it has one.
  pub data Holds {A : Type 0} (P : A → Type 0) : Action R A → Type 0 where
    on_return :
        {a : A} {done : List (Effect R)} → P a → All IsSafeEffect done → Holds P (returned a, done)
    on_throw : {e : Text} {done : List (Effect R)} → All IsSafeEffect done → Holds P (threw e, done)

  abbrev pub Kept : {A : Type 0} → (A → Type 0) → A × List (Effect R) → Type 0
  Kept P (a, done) = P a × All IsSafeEffect done

  module _ {A : Type 0} where
    pub bind-Holds :
        {B : Type 0} {P : A → Type 0} {Q : B → Type 0} (m : Action R A) (f : A → Action R B)
        → Holds P m
        → ((a : A) → P a → Holds Q (f a))
        → Holds Q (m >>= f)
    bind-Holds (returned a, done) f (on_return p h) k = more (f a) (k a p)
      where
        more :
            {B : Type 0} {Q : B → Type 0} (n : Action R B) → Holds Q n → Holds Q (n.0, done ++ n.1)
        more (returned b, later) (on_return q g) =
            on_return q (All-append IsSafeEffect done later h g)
        more (threw e, later) (on_throw g) = on_throw (All-append IsSafeEffect done later h g)
    bind-Holds (threw e, done) f (on_throw h) k = on_throw h

    pub recover-Kept :
        {P : A → Type 0} (handler : Text → A × List (Effect R)) (m : Action R A)
        → Holds P m
        → ((e : Text) → Kept P (handler e))
        → Kept P (recover handler m)
    recover-Kept handler (returned a, done) (on_return p h) k = (p, h)
    recover-Kept handler (threw e, done) (on_throw h) k =
        ((k e).0, All-append IsSafeEffect done (handler e).1 h (k e).1)

    pub calling-Holds :
        (change : Effect R) (a : Attempt A)
        → IsSafeEffect change
        → Holds (λ _. Unit {0}) (calling change a)
    calling-Holds change (returned a) h = on_return tt (h, tt)
    calling-Holds change (threw e) h = on_throw (h, tt)

    pub asking-Holds : (a : Attempt A) → Holds (λ _. Unit {0}) (asking a)
    asking-Holds (returned a) = on_return tt tt
    asking-Holds (threw e) = on_throw tt

    pub if-Holds :
        {P : A → Type 0} (b : Bool) {x y : Action R A}
        → (b ≡ true → Holds P x)
        → (b ≡ false → Holds P y)
        → Holds P (if b then x else y)
    if-Holds true hx hy = hx refl
    if-Holds false hx hy = hy refl

  -- A value behind a last call
  pub told-Holds :
      {A : Type 0} {P : A → Type 0} (change : Effect R) (a : A)
      → IsSafeEffect change
      → P a
      → Holds P (tell change >> pure a)
  told-Holds change a h p = on_return p (h, tt)
