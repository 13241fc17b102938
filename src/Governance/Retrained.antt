-- ===== src/Governance/Retrained.antt =====
-- About the failures of wq_workflow/governance/retrain_scheduler.py.
use worldquant_workflow_v2_r.Migration.Reals.{Reals}
use worldquant_workflow_v2_r.Governance.Retrain.{
  report, other, TrainResult, run_retrain, Scheduler, accept, Quality, mark_shadow, train, checked,
  version_of,
}
use worldquant_workflow_v2_r.Governance.Effects.{
  Attempt, marked, asking, retrained, calling, ran_trainer,
}
use worldquant_workflow_v2_r.Governance.Holds.{
  on_return, on_throw, Holds, Kept, if-Holds, IsCautious, recover-Kept, calling-Holds, bind-Holds,
  asking-Holds, told-Holds,
}
use worldquant_workflow_v2_r.Common.{
  Text, mem_text, Option, Bool, ◌∷◌, [], some, inr, ◌||◌, refl, codes, not, none, inl,
}

module _ (rs : Reals) where
  open rs use {R, lit}

  accept-Holds : (result : TrainResult) → Holds rs (λ _. Unit {0}) (accept result)
  accept-Holds (report t) =
      if-Holds rs (mem_text t.status ("failed" ∷ "error" ∷ []) || t.not_ok) (λ _. on_throw tt)
        (λ _. on_return tt tt)
  accept-Holds other = on_return tt tt

  mark_shadow-Holds :
      (task version : Text) (mark : Option (Text → Text → Text → Attempt Bool))
      → Holds rs (λ _. Unit {0}) (mark_shadow task version mark)
  mark_shadow-Holds task [] mark = on_return tt tt
  mark_shadow-Holds task (c ∷ version) none = on_return tt tt
  mark_shadow-Holds task (c ∷ version) (some mark) =
      calling-Holds rs (marked task (c ∷ version) (codes "shadow")) _ refl

  train-Holds :
      (task : Text) (s : Scheduler) (o : Option (Attempt TrainResult))
      → Holds rs IsCautious (train task s o)
  unfolding mem_text
  train-Holds task s none = on_return (inr refl) tt
  train-Holds task s (some attempt) =
      bind-Holds rs (calling (ran_trainer task) attempt) _
        (calling-Holds rs (ran_trainer task) attempt tt)
        λ result _. bind-Holds rs (accept result) _ (accept-Holds result) λ _ _.
          bind-Holds rs (mark_shadow task (version_of result) s.mark_lifecycle) _
            (mark_shadow-Holds task (version_of result) s.mark_lifecycle)
            λ _ _. told-Holds rs (retrained task) _ tt (inl refl)

  checked-Holds :
      (task : Text) (s : Scheduler) (o : Option (Attempt Quality))
      → Holds rs IsCautious (checked task s o)
  unfolding mem_text
  checked-Holds task s none = train-Holds task s (s.trainer task)
  checked-Holds task s (some attempt) =
      bind-Holds rs (asking attempt) _ (asking-Holds rs attempt) λ q _.
        if-Holds rs (not q.ok) (λ _. on_return (inr refl) tt)
          (λ _. train-Holds task s (s.trainer task))

  pub run_retrain-Kept :
      (task : Text) (s : Scheduler) → Kept rs IsCautious (run_retrain {R = R} task s)
  unfolding run_retrain mem_text
  run_retrain-Kept task s =
      recover-Kept rs _ (checked task s (s.quality task)) (checked-Holds task s (s.quality task))
        (λ e. (inr refl, tt))
