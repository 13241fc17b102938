-- ===== src/Governance/Recorded.antt =====
-- About what wq_workflow/governance/retrain_scheduler.py records of a retraining.
use worldquant_workflow_v2_r.Governance.Effects.{
  returned, ◌>>=◌, ◌>>◌, CheckResult, Action, tell, Effect, retrained, check_result, pure, recover,
  calling, marked, ran_trainer,
}
use worldquant_workflow_v2_r.Common.{Text, List, ◌≡◌, false, true, [], codes, ◌∷◌, ◌++◌}

-- The calls of a retraining by its result: the good ones end by setting the time of the last one.
pub data Recorded (R : Type 0) (task : Text) : CheckResult × List (Effect R) → Type 0 where
  not_started : (r : CheckResult) → r.ok ≡ false → Recorded R task (r, [])
  not_accepted : (r : CheckResult) → r.ok ≡ false → Recorded R task (r, ran_trainer task ∷ [])
  not_marked :
      (r : CheckResult) (version : Text)
      → r.ok ≡ false
      → Recorded R task (r, ran_trainer task ∷ marked task version (codes "shadow") ∷ [])
  no_version :
      (r : CheckResult) → r.ok ≡ true → Recorded R task (r, ran_trainer task ∷ retrained task ∷ [])
  recorded :
      (r : CheckResult) (version : Text)
      → r.ok ≡ true
      → Recorded R task
          (r, ran_trainer task ∷ marked task version (codes "shadow") ∷ retrained task ∷ [])

module _ {R : Type 0} (task : Text) where
  -- The handler of `run_retrain`
  abbrev failed_with : Text → CheckResult × List (Effect R)
  failed_with e = (check_result false task "force_legacy" (codes "retrain_failed:" ++ e), [])

  abbrev record_it : Action R CheckResult
  record_it = do
    tell (retrained task)
    pure (check_result true task "keep_shadow" (codes "retrain_succeeded"))

  -- What follows a trainer that has returned
  abbrev behind_trainer : Action R CheckResult → CheckResult × List (Effect R)
  behind_trainer m = recover failed_with (calling (ran_trainer task) (returned tt) >>= λ _. m)
