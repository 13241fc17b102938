-- ===== src/Governance/Effects.antt =====
-- What the calls of wq_workflow/governance/long_term_guard.py and
-- wq_workflow/governance/retrain_scheduler.py do: a value or an exception, and the calls made.
-- Events and logs are left out: their writers catch their own exceptions.
use worldquant_workflow_v2_r.Common.{[], ◌∷◌, Text, Bool, List, ◌++◌, Option, String, codes}

pub data Attempt (A : Type 0) : Type 0 where
  returned : A → Attempt A
  threw : Text → Attempt A

-- `TaskGovernanceState`, without the payloads and the time
pub record TaskGovernanceState (R : Type 0) : Type 0 where
  pub task_name : Text
  pub active_model_version : Option Text
  pub lifecycle_status : Text
  pub model_weight : R
  pub fallback_active : Bool

-- A call, or a write, that is made for what it changes. What the called part then changes by itself
-- is not said: `disable_active_model` and `rollback_to_previous_active` write statuses of their own,
-- and a trainer may register and activate models.
pub data Effect (R : Type 0) : Type 0 where
  -- `_write_state`
  wrote : TaskGovernanceState R → Effect R
  -- `mark_lifecycle(task, version, status)`
  marked : Text → Text → Text → Effect R
  -- `_last_retrain[task]` set to the time
  retrained : Text → Effect R
  -- `update_model_weight(task, version, weight)`
  weighed : Text → Text → R → Effect R
  -- `disable_active_model(task)`
  disabled_active : Text → Effect R
  -- `rollback_to_previous_active(task)`
  rolled_to_previous : Text → Effect R
  -- `repair_registry(task)`
  asked_repair : Text → Effect R
  -- the trainer of the task
  ran_trainer : Text → Effect R

-- `GovernanceCheckResult`, without its payload
pub record CheckResult : Type 0 where
  pub ok : Bool
  pub task_name : Text
  pub recommended_action : Text
  pub reason : Text
  pub warnings : List Text

abbrev pub check_result : Bool → Text → String → Text → CheckResult
check_result ok task action reason = record {
  ok = ok;
  task_name = task;
  recommended_action = codes action;
  reason = reason;
  warnings = [];
}

-- A part of a `try` block: what it returns or throws, and the calls so far
abbrev pub Action : Type 0 → Type 0 → Type 0
Action R A = Attempt A × List (Effect R)

module _ {R : Type 0} where
  abbrev pub pure : {A : Type 0} → A → Action R A
  pure a = (returned a, [])

  abbrev pub throw : {A : Type 0} → Text → Action R A
  throw e = (threw e, [])

  infixl 5 ◌>>=◌ ◌>>◌
  abbrev pub ◌>>=◌ : {A B : Type 0} → Action R A → (A → Action R B) → Action R B
  (threw e, done) >>= f = (threw e, done)
  (returned a, done) >>= f = let (r, more) = f a in (r, done ++ more)

  abbrev pub ◌>>◌ : {B : Type 0} → Action R (Unit {0}) → Action R B → Action R B
  m >> k = m >>= λ _. k

  -- A call of another part, which is made whether it then returns or throws
  abbrev pub calling : {A : Type 0} → Effect R → Attempt A → Action R A
  calling call a = (a, call ∷ [])

  abbrev pub asking : {A : Type 0} → Attempt A → Action R A
  asking a = (a, [])

  abbrev pub tell : Effect R → Action R (Unit {0})
  tell call = (returned tt, call ∷ [])

  -- `try: … except Exception as exc: return handler(exc)`
  abbrev pub recover :
      {A : Type 0} → (Text → A × List (Effect R)) → Action R A → A × List (Effect R)
  recover handler (returned a, done) = (a, done)
  recover handler (threw e, done) = let (a, more) = handler e in (a, done ++ more)
