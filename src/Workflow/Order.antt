-- ===== src/Workflow/Order.antt =====
-- A whole run of wq_workflow/workflow_state.py: the states in their order, and where it ends.
use worldquant_workflow_v2_r.Workflow.State.{WorkflowState, state_policy, StatePolicy, state_order}
use worldquant_workflow_v2_r.Workflow.Fsm.{
  Environment, Event, Fsm, Outcome, done, event, exit, StateError, raised, escaped, run_states, run,
  and_next, run_state, no_policy, stuck, run_policy,
}
use worldquant_workflow_v2_r.Common.{
  List, All, ◌≡◌, [], some, ℕ, ◌≤◌, ◌∷◌, ◌++◌, sym, refl, append-nil, ◌↔◌, ap, suc, ◌∙◌, arith,
  subst, append_assoc,
}
use worldquant_workflow_v2_r.Workflow.Spec.{
  Survives, Cause, Ends, Survives-attempts, returned, stopped, let_through, attempts-Ends,
}

-- Every state of the list has a policy.
abbrev HasPolicy : WorkflowState → Type 0
HasPolicy s = (p : StatePolicy) × (state_policy s ≡ some p)

state_order-HasPolicy : All HasPolicy state_order
unfolding state_policy
state_order-HasPolicy = (
  (_, refl),
  (
    (_, refl),
    (
      (_, refl),
      (
        (_, refl),
        (
          (_, refl),
          (
            (_, refl),
            (
              (_, refl),
              ((_, refl), ((_, refl), ((_, refl), ((_, refl), ((_, refl), ((_, refl), tt)))))),
            ),
          ),
        ),
      ),
    ),
  ),
)

-- A state survives if its attempts do, within its own policy.
abbrev pub SurvivesState : Environment → WorkflowState → Type 0
SurvivesState env s =
    (p : StatePolicy) × (state_policy s ≡ some p) × (k : ℕ) × Survives env s p.max_retry 0 k

-- The traces of the states that returned: each exited once, within its retries.
pub data Exits : List WorkflowState → List Event → Type 0 where
  no_exits : Exits [] []
  one_exit :
      (s : WorkflowState) (k : ℕ) (p : StatePolicy) (ss : List WorkflowState) (es : List Event)
      → state_policy s ≡ some p
      → k ≤ p.max_retry
      → Exits ss es
      → Exits (s ∷ ss) (event exit s k ∷ es)

-- How a run over `states` from the FSM `m` ends. The states up to one return; then the run is
-- over, or that one raises or lets an exception through.
pub data RunEnds (env : Environment) : List WorkflowState → Fsm → Fsm × Outcome → Type 0 where
  finishes : (m : Fsm) → RunEnds env [] m (m, done)
  passes :
      (s : WorkflowState) (ss : List WorkflowState) (m m₁ : Fsm) (k : ℕ) (out : Fsm × Outcome)
      → SurvivesState env s
      → (p : StatePolicy) → state_policy s ≡ some p
      → k ≤ p.max_retry
      → m₁.trace ≡ m.trace ++ event exit s k ∷ []
      → RunEnds env ss m₁ out
      → RunEnds env (s ∷ ss) m out
  raises :
      (s : WorkflowState) (ss : List WorkflowState) (m m' : Fsm) (e : StateError) (p : StatePolicy)
      → state_policy s ≡ some p
      → e.state ≡ s
      → e.retry ≤ p.max_retry
      → Cause env p s e
      → m'.trace ≡ m.trace
      → RunEnds env (s ∷ ss) m (m', raised e)
  escapes :
      (s : WorkflowState) (ss : List WorkflowState) (m m' : Fsm)
      → m'.trace ≡ m.trace
      → RunEnds env (s ∷ ss) m (m', escaped)

module _ (env : Environment) where
  next-RunEnds :
      (p : StatePolicy) (s : WorkflowState) (ss : List WorkflowState) (m : Fsm)
      (out : Fsm × Outcome)
      → state_policy s ≡ some p
      → ((m₁ : Fsm) → RunEnds env ss m₁ (run_states env ss m₁))
      → Ends env p s 0 m out
      → RunEnds env (s ∷ ss) m (and_next (run_states env ss) out)
  next-RunEnds p s ss m _ e next (returned m₁ k survives h t) =
      passes s ss m m₁ k _ (p, e, k, survives) p e h t (next m₁)
  next-RunEnds p s ss m _ e next (stopped m' x is_s lo hi cause t) =
      raises s ss m m' x p e is_s hi cause t
  next-RunEnds p s ss m _ e next (let_through m' t) = escapes s ss m m' t

  run_states-RunEnds :
      (ss : List WorkflowState) (m : Fsm)
      → All HasPolicy ss
      → RunEnds env ss m (run_states env ss m)
  unfolding run_states
  run_states-RunEnds [] m h = finishes m
  run_states-RunEnds (s ∷ ss) m ((p, e), rest) =
      next-RunEnds p s ss m (run_state env s m) e (λ m₁. run_states-RunEnds ss m₁ rest)
        (subst (λ o. Ends env p s 0 m (run_policy env s m o)) (sym e)
          (attempts-Ends env p s (suc p.max_retry) 0 m (omega arith) (omega arith)))

  -- What the outcome says of the states that are left: none are, or the first of them raised for a
  -- cause within its retries, or an exception of its handler or of the callback came through.
  pub data StopsAt : List WorkflowState → Outcome → Type 0 where
    at_end : StopsAt [] done
    at_error :
        (s : WorkflowState) (ss : List WorkflowState) (e : StateError) (p : StatePolicy)
        → state_policy s ≡ some p
        → e.state ≡ s
        → e.retry ≤ p.max_retry
        → Cause env p s e
        → StopsAt (s ∷ ss) (raised e)
    at_escape : (s : WorkflowState) (ss : List WorkflowState) → StopsAt (s ∷ ss) escaped

  -- The states are split where the run stops: those before it exited once each, in order.
  abbrev Report : List WorkflowState → Fsm → Fsm × Outcome → Type 0
  Report ss m out =
      (before after : List WorkflowState) × (es : List Event) × (ss ≡ before ++ after)
      × Exits before es
      × (out.0.trace ≡ m.trace ++ es)
      × StopsAt after out.1

  RunEnds-Report :
      (ss : List WorkflowState) (m : Fsm) (out : Fsm × Outcome)
      → RunEnds env ss m out
      → Report ss m out
  RunEnds-Report _ _ _ (finishes m) = ([], [], [], refl, no_exits, sym (append-nil m.trace), at_end)
  RunEnds-Report _ _ _ (passes s ss m m₁ k out survives p e h t rest) =
      let (before, after, es, split, exits, trace, stop) = RunEnds-Report ss m₁ out rest in
      (
        s ∷ before,
        after,
        event exit s k ∷ es,
        ap (λ r. s ∷ r) split,
        one_exit s k p before es e h exits,
        trace ∙ ap (λ tr. tr ++ es) t ∙ append_assoc m.trace (event exit s k ∷ []) es,
        stop,
      )
  RunEnds-Report _ _ _ (raises s ss m m' e p h is_s r cause t) = (
    [],
    s ∷ ss,
    [],
    refl,
    no_exits,
    t ∙ sym (append-nil m.trace),
    at_error s ss e p h is_s r cause,
  )
  RunEnds-Report _ _ _ (escapes s ss m m' t) =
      ([], s ∷ ss, [], refl, no_exits, t ∙ sym (append-nil m.trace), at_escape s ss)

  -- For all handlers and callbacks, a run goes through a prefix of STATE_ORDER, appends to the trace
  -- one exit for each state of it, in order, with a retry number within the state's policy, and then
  -- stops: at the end of the order, or at the next state, with that state's error (whose retry is
  -- within the policy and whose recovery fits its cause) or with an exception that is not caught.
  pub run_order :
      (m : Fsm)
      → (before after : List WorkflowState) × (es : List Event) × (state_order ≡ before ++ after)
        × Exits before es
        × ((run env m).0.trace ≡ m.trace ++ es)
        × StopsAt after (run env m).1
  unfolding run
  run_order m =
      RunEnds-Report state_order m _ (run_states-RunEnds state_order m state_order-HasPolicy)

  RunEnds-done :
      (ss : List WorkflowState) (m : Fsm) (out : Fsm × Outcome)
      → RunEnds env ss m out
      → out.1 ≡ done
      → All (SurvivesState env) ss
  RunEnds-done _ _ _ (finishes m) h = tt
  RunEnds-done _ _ _ (passes s ss m m₁ k out survives p e b t rest) h =
      (survives, RunEnds-done ss m₁ out rest h)
  RunEnds-done _ _ _ (raises s ss m m' e p a is_s r cause t) h = cc
  RunEnds-done _ _ _ (escapes s ss m m' t) h = cc

  next-done :
      (loop : Fsm → Fsm × Outcome) (out : Fsm × Outcome)
      → out.1 ≡ done
      → ((m₁ : Fsm) → (loop m₁).1 ≡ done)
      → (and_next loop out).1 ≡ done
  next-done loop (m, done) h next = next m
  next-done loop (m, raised e) h next = cc
  next-done loop (m, no_policy) h next = cc
  next-done loop (m, escaped) h next = cc
  next-done loop (m, stuck) h next = cc

  run_state-done :
      (s : WorkflowState) (m : Fsm) → SurvivesState env s → (run_state env s m).1 ≡ done
  unfolding run_state
  run_state-done s m (p, e, k, survives) =
      subst (λ o. (run_policy env s m o).1 ≡ done) (sym e)
        (Survives-attempts env p s (suc p.max_retry) 0 k m (omega arith) (omega arith) survives)

  survivors-done :
      (ss : List WorkflowState) (m : Fsm)
      → All (SurvivesState env) ss
      → (run_states env ss m).1 ≡ done
  unfolding run_states
  survivors-done [] m h = refl
  survivors-done (s ∷ ss) m h =
      next-done (run_states env ss) (run_state env s m) (run_state-done s m h.0)
        (λ m₁. survivors-done ss m₁ h.1)

  -- A run returns exactly when every state of STATE_ORDER survives: each of its attempts up to one
  -- that completes is a timeout or a plain failure within the policy's retries, and the recovery
  -- callback returned behind it.
  pub run_returns_iff : (m : Fsm) → ((run env m).1 ≡ done) ↔ All (SurvivesState env) state_order
  unfolding run
  run_returns_iff m = (
    RunEnds-done state_order m _ (run_states-RunEnds state_order m state_order-HasPolicy),
    survivors-done state_order m,
  )
