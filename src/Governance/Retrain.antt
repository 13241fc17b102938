-- ===== src/Governance/Retrain.antt =====
-- `RetrainScheduler` of wq_workflow/governance/retrain_scheduler.py. The trainers, the check of the
-- samples and the registry are other parts: each call of them returns or throws.
use worldquant_workflow_v2_r.Common.{
  [], ◌∷◌, Text, Bool, Option, List, ℕ, false, if◌then◌else◌, some, not, mem_text, codes, leb, ◌&&◌,
  ◌||◌, true, ◌++◌, none,
}
use worldquant_workflow_v2_r.Governance.Effects.{
  CheckResult, Attempt, Action, check_result, Effect, pure, recover, throw, calling, marked, ◌>>=◌,
  ◌>>◌, retrained, asking, tell, ran_trainer,
}
use worldquant_workflow_v2_r.Governance.Gate.{or_else}

pub record TrainReport : Type 0 where
  pub model_version : Text
  pub status : Text
  -- `result.get("ok") is False`
  pub not_ok : Bool
  -- `result.get("reason") or result.get("error")`
  pub reason : Text

-- What a trainer returns: a dictionary or something else
pub data TrainResult : Type 0 where
  report : TrainReport → TrainResult
  other : TrainResult

pub record Quality : Type 0 where
  pub ok : Bool
  pub notes : List Text

pub record Scheduler : Type 0 where
  -- `sample_quality_checker.check`, if there is a checker and samples are given
  pub quality : Text → Option (Attempt Quality)
  pub trainer : Text → Option (Attempt TrainResult)
  -- `registry_adapter.mark_lifecycle`
  pub mark_lifecycle : Option (Text → Text → Text → Attempt Bool)

pub record RetrainQuestion : Type 0 where
  pub enable_auto_retrain : Bool
  pub manual : Bool
  -- the last retraining lies within the minimal interval
  pub is_recent : Bool
  pub has_metadata : Bool
  pub expired : Bool
  pub drift_detected : Bool
  pub online_performance_drop : Bool
  pub registry_inconsistent : Bool
  pub sample_count : Option ℕ
  pub retrain_every : ℕ

abbrev reaches : Option ℕ → ℕ → Bool
reaches none every = false
reaches (some n) every = leb every n

-- `should_retrain`
unfoldable pub should_retrain : Text → RetrainQuestion → CheckResult
should_retrain task q =
    if not q.enable_auto_retrain && not q.manual
    then check_result true task "keep_shadow" (codes "auto_retrain_disabled")
    else if q.is_recent && not q.manual
    then check_result true task "keep_shadow" (codes "min_interval_not_elapsed")
    else if not q.has_metadata
    then check_result true task "retrain" (codes "no_active_model")
    else if q.expired
    then check_result true task "retrain" (codes "model_expired")
    else if q.drift_detected || (q.online_performance_drop || (q.registry_inconsistent || q.manual))
    then check_result true task "retrain" (codes "triggered")
    else if reaches q.sample_count q.retrain_every
    then check_result true task "retrain" (codes "sample_threshold_reached")
    else check_result true task "keep_active" (codes "no_retrain_needed")

abbrev pub version_of : TrainResult → Text
version_of (report t) = t.model_version
version_of other = []

abbrev pub low_quality : Text → Quality → CheckResult
low_quality task q =
    record (check_result false task "keep_shadow" (codes "sample_quality_failed")) {
      warnings = q.notes;
    }

module _ {R : Type 0} where
  -- `raise RuntimeError(…)` on a result that says that it failed
  abbrev pub accept : TrainResult → Action R (Unit {0})
  accept (report t) =
      if mem_text t.status ("failed" ∷ "error" ∷ []) || t.not_ok
      then throw (or_else t.reason (codes "trainer_failed"))
      else pure tt
  accept other = pure tt

  abbrev pub mark_shadow : Text → Text → Option (Text → Text → Text → Attempt Bool) → Action R Bool
  mark_shadow task [] mark = pure true
  mark_shadow task (c ∷ version) none = pure true
  mark_shadow task (c ∷ version) (some mark) =
      calling (marked task (c ∷ version) (codes "shadow"))
        (mark task (c ∷ version) (codes "shadow"))

  abbrev pub train : Text → Scheduler → Option (Attempt TrainResult) → Action R CheckResult
  train task s none = pure (check_result false task "keep_shadow" (codes "trainer_unavailable"))
  train task s (some attempt) = do
    result ← calling (ran_trainer task) attempt
    accept result
    _ ← mark_shadow task (version_of result) s.mark_lifecycle
    tell (retrained task)
    pure (check_result true task "keep_shadow" (codes "retrain_succeeded"))

  abbrev pub checked : Text → Scheduler → Option (Attempt Quality) → Action R CheckResult
  checked task s none = train task s (s.trainer task)
  checked task s (some attempt) = do
    q ← asking attempt
    if not q.ok then pure (low_quality task q) else train task s (s.trainer task)

  -- `run_retrain`
  unfoldable pub run_retrain : Text → Scheduler → CheckResult × List (Effect R)
  run_retrain task s =
      recover (λ e. (check_result false task "force_legacy" (codes "retrain_failed:" ++ e), []))
        (checked task s (s.quality task))
