-- ===== src/Workflow/Spec.antt =====
-- What `_run_state` of wq_workflow/workflow_state.py promises, apart from how it loops.
use worldquant_workflow_v2_r.Workflow.Fsm.{
  Attempt, Environment, StateError, attempts, attempt, Fsm, Outcome, EventKind, timed_out,
  completed, nonrecoverable, failed, recovers, event, exit, done, raised, escaped, try_again, react,
  Event, record_event, timeout, enter, retrying, cancelled, fatal,
}
use worldquant_workflow_v2_r.Common.{
  Bool, true, ℕ, false, ◌≡◌, ◌≤◌, ◌++◌, ◌<◌, ◌+◌, ◌∙◌, arith, ◌∷◌, ap, suc, [], zero, Bool-cases,
  ltb, if◌then◌else◌, lt→ltb, refl, inr, inl, ltb→lt,
}
use worldquant_workflow_v2_r.Workflow.State.{
  WorkflowState, StatePolicy, restart_task, rebuild_context_level,
}

-- An attempt that the program may repeat.
abbrev pub is_retryable : Attempt → Bool
is_retryable timed_out = true
is_retryable failed = true
is_retryable _ = false

-- From the retry `r` on, the attempts fail and are recovered from until the one at `k` completes.
pub data Survives (env : Environment) (state : WorkflowState) (limit : ℕ) : ℕ → ℕ → Type 0 where
  completes : (r : ℕ) → attempt env state r ≡ completed → Survives env state limit r r
  repeats :
      (r k : ℕ)
      → is_retryable (attempt env state r) ≡ true
      → r < limit
      → recovers env state (r + 1) ≡ true
      → Survives env state limit (r + 1) k
      → Survives env state limit r k

-- Why a state raises: the handler said that it cannot be retried, or the retries are used up.
pub data Cause (env : Environment) (p : StatePolicy) (state : WorkflowState)
    : StateError → Type 0 where
  refused :
      (e : StateError)
      → attempt env state e.retry ≡ nonrecoverable
      → e.is_nonrecoverable ≡ true
      → e.recovery_state ≡ restart_task
      → e.recovery_level ≡ rebuild_context_level
      → Cause env p state e
  exhausted :
      (e : StateError)
      → is_retryable (attempt env state e.retry) ≡ true
      → e.retry ≡ p.max_retry
      → e.is_nonrecoverable ≡ false
      → e.recovery_state ≡ p.recovery
      → e.recovery_level ≡ p.recovery_level
      → Cause env p state e

-- How a state may end when it is run from the FSM `m` with the retries from `r` on left.
pub data Ends (env : Environment) (p : StatePolicy) (state : WorkflowState) (r : ℕ) (m : Fsm)
    : Fsm × Outcome → Type 0 where
  returned :
      (m' : Fsm) (k : ℕ)
      → Survives env state p.max_retry r k
      → k ≤ p.max_retry
      → m'.trace ≡ m.trace ++ event exit state k ∷ []
      → Ends env p state r m (m', done)
  stopped :
      (m' : Fsm) (e : StateError)
      → e.state ≡ state
      → r ≤ e.retry
      → e.retry ≤ p.max_retry
      → Cause env p state e
      → m'.trace ≡ m.trace
      → Ends env p state r m (m', raised e)
  let_through : (m' : Fsm) → m'.trace ≡ m.trace → Ends env p state r m (m', escaped)

module _ (env : Environment) (p : StatePolicy) (state : WorkflowState) where
  -- What a retry ends in, the attempt before it ends in.
  Ends-again :
      (r : ℕ) (m m₁ : Fsm) (out : Fsm × Outcome)
      → is_retryable (attempt env state r) ≡ true
      → r < p.max_retry
      → recovers env state (r + 1) ≡ true
      → m₁.trace ≡ m.trace
      → Ends env p state (r + 1) m₁ out
      → Ends env p state r m out
  Ends-again r m m₁ _ t h c q (returned m' k s b u) =
      returned m' k (repeats r k t h c s) b (u ∙ ap (λ tr. tr ++ event exit state k ∷ []) q)
  Ends-again r m m₁ _ t h c q (stopped m' e s lo hi w u) = stopped m' e s (omega arith) hi w (u ∙ q)
  Ends-again r m m₁ _ t h c q (let_through m' u) = let_through m' (u ∙ q)

  try_again-Ends :
      (f r : ℕ) (m : Fsm) (kind : EventKind)
      → r ≤ p.max_retry
      → is_retryable (attempt env state r) ≡ true
      → ((m₁ : Fsm)
          → r < p.max_retry
          → Ends env p state (r + 1) m₁ (attempts f env p state (r + 1) m₁))
      → Ends env p state r m (try_again (attempts f env p) env kind state p r m)
  try_again-Ends f r m kind h t next = elim (Bool-cases (ltb r p.max_retry)) [
    | inr no_more ↦
        rw no_more
          (stopped _ _ refl (omega arith) h (exhausted _ t (ground arith) refl refl refl) refl)
    | inl more ↦ elim (Bool-cases (recovers env state (r + 1))) [
      | inr broken ↦ rw (more, broken) (let_through _ refl)
      | inl mended ↦
          let below : r < p.max_retry = ltb→lt _ _ more in
          rw (more, mended) (Ends-again r m _ _ t below mended refl (next _ below))
    ]
  ]

  react-Ends :
      (f r : ℕ) (m : Fsm) (a : Attempt)
      → attempt env state r ≡ a
      → r ≤ p.max_retry
      → ((m₁ : Fsm)
          → r < p.max_retry
          → Ends env p state (r + 1) m₁ (attempts f env p state (r + 1) m₁))
      → Ends env p state r m (react (attempts f env p) env state p r m a)
  react-Ends f r m completed e h next = returned _ r (completes r e) h refl
  react-Ends f r m timed_out e h next = try_again-Ends f r m timeout h (rw e) next
  react-Ends f r m nonrecoverable e h next =
      stopped _ _ refl (omega arith) h (refused _ e refl refl refl) refl
  react-Ends f r m failed e h next =
      try_again-Ends f r m (if ltb r p.max_retry then retrying else fatal) h (rw e) next
  react-Ends f r m cancelled e h next = let_through m refl

  -- The log entry at the start of a round does not show in the trace.
  Ends-entered :
      (r : ℕ) (e : Event) (m : Fsm) (out : Fsm × Outcome)
      → Ends env p state r (record_event e m) out
      → Ends env p state r m out
  Ends-entered r e m _ (returned m' k s b u) = returned m' k s b u
  Ends-entered r e m _ (stopped m' x s lo hi w u) = stopped m' x s lo hi w u
  Ends-entered r e m _ (let_through m' u) = let_through m' u

  -- With a round for each retry that is left, the loop ends in one of the ways of `Ends`.
  pub attempts-Ends :
      (f r : ℕ) (m : Fsm)
      → r ≤ p.max_retry
      → p.max_retry < r + f
      → Ends env p state r m (attempts f env p state r m)
  unfolding attempts
  attempts-Ends zero r m h g = absurd (omega arith)
  attempts-Ends (suc f) r m h g = Ends-entered r _ m _ (
      react-Ends f r (record_event (event enter state r) m) (attempt env state r) refl h
        (λ m₁ k. attempts-Ends f (r + 1) m₁ (omega arith) (omega arith)))

  again_done :
      (f r k : ℕ) (m : Fsm) (a : Attempt)
      → is_retryable a ≡ true
      → r < p.max_retry
      → recovers env state (r + 1) ≡ true
      → ((m₁ : Fsm) → (attempts f env p state (r + 1) m₁).1 ≡ done)
      → (react (attempts f env p) env state p r (record_event (event enter state r) m) a).1 ≡ done
  again_done f r k m timed_out t below c next = rw (lt→ltb _ _ below, c) (next _)
  again_done f r k m failed t below c next = rw (lt→ltb _ _ below, c) (next _)
  again_done f r k m completed t below c next = cc
  again_done f r k m nonrecoverable t below c next = cc
  again_done f r k m cancelled t below c next = cc

  -- And it returns whenever the attempts survive.
  pub Survives-attempts :
      (f r k : ℕ) (m : Fsm)
      → p.max_retry < r + f
      → r ≤ p.max_retry
      → Survives env state p.max_retry r k
      → (attempts f env p state r m).1 ≡ done
  unfolding attempts
  Survives-attempts zero r k m h g s = absurd (omega arith)
  Survives-attempts (suc f) r k m h g (completes _ e) = rw e
  Survives-attempts (suc f) r k m h g (repeats _ _ t below c s) =
      again_done f r k m (attempt env state r) t below c
        (λ m₁. Survives-attempts f (r + 1) k m₁ (omega arith) (omega arith) s)
