-- ===== src/Workflow/Fsm.antt =====
-- `WorkflowFSM` of wq_workflow/workflow_state.py. The handlers and the recovery callback belong to
-- the caller: what they do at each attempt is the environment of a run. An attempt is told apart by
-- its state and its retry number, since a run makes it once at most.
use worldquant_workflow_v2_r.Workflow.State.{
  WorkflowState, RecoveryLevel, StatePolicy, restart_task, fatal_error, rebuild_context_level,
  state_policy, state_order,
}
use worldquant_workflow_v2_r.Common.{
  Option, ℕ, List, [], ◌++◌, none, Bool, ◌∷◌, some, false, ◌+◌, if◌then◌else◌, suc, true, ltb, zero,
}

-- How an awaited handler ends under the watchdog. `cancelled` is an exception that `except
-- Exception` does not catch.
pub data Attempt : Type 0 where
  completed timed_out nonrecoverable failed cancelled : Attempt

pub record Environment : Type 0 where
  -- `handlers.get(state)`, and what it does at each retry
  pub handlers : WorkflowState → Option (ℕ → Attempt)
  -- the callback `recover`, and whether it returns, given the state and the new retry number
  pub recover : Option (WorkflowState → ℕ → Bool)

pub data EventKind : Type 0 where
  enter exit timeout retrying recovering fatal : EventKind

-- An event of the log, without its times and texts.
pub record Event : Type 0 where
  pub kind : EventKind
  pub state : WorkflowState
  pub retry : ℕ

-- `WorkflowStateError`
pub record StateError : Type 0 where
  pub state : WorkflowState
  pub recovery_state : WorkflowState
  pub recovery_level : RecoveryLevel
  pub retry : ℕ
  pub is_nonrecoverable : Bool

-- How a method ends: it returns, raises a WorkflowStateError, raises a KeyError for a missing
-- policy, or lets an exception through. `stuck` is the end of the model's fuel.
pub data Outcome : Type 0 where
  done : Outcome
  raised : StateError → Outcome
  no_policy : Outcome
  escaped : Outcome
  stuck : Outcome

-- The FSM: what it logged, and the field `trace`.
pub record Fsm : Type 0 where
  pub log : List Event
  pub trace : List Event

abbrev pub new_fsm : Fsm
new_fsm = record { log = []; trace = [] }

abbrev pub event : EventKind → WorkflowState → ℕ → Event
event kind state retry = record { kind = kind; state = state; retry = retry }

abbrev pub record_event : Event → Fsm → Fsm
record_event e m = record m { log = m.log ++ e ∷ [] }

-- The handler runs, if there is one.
abbrev attempt_of : Option (ℕ → Attempt) → ℕ → Attempt
attempt_of none retry = completed
attempt_of (some handler) retry = handler retry

abbrev pub attempt : Environment → WorkflowState → ℕ → Attempt
attempt env state retry = attempt_of (env.handlers state) retry

abbrev recover_returns : Option (WorkflowState → ℕ → Bool) → WorkflowState → ℕ → Bool
recover_returns none state retry = true
recover_returns (some callback) state retry = callback state retry

abbrev pub recovers : Environment → WorkflowState → ℕ → Bool
recovers env state retry = recover_returns env.recover state retry

-- STATE_EXIT is logged, and appended to the trace.
abbrev leave : WorkflowState → ℕ → Fsm → Fsm
leave state retry m =
    let e = event exit state retry in record { log = m.log ++ e ∷ []; trace = m.trace ++ e ∷ [] }

-- `_fatal`
abbrev give_up : WorkflowState → StatePolicy → ℕ → Fsm → Fsm × Outcome
give_up state p retry m = (
  record_event (event fatal fatal_error retry) m,
  raised (record {
    state = state;
    recovery_state = p.recovery;
    recovery_level = p.recovery_level;
    retry = retry;
    is_nonrecoverable = false;
  }),
)

-- A timeout or another exception: the log entry, then a retry behind `_recover`, or `_fatal`.
abbrev pub try_again :
    (WorkflowState → ℕ → Fsm → Fsm × Outcome)
    → Environment
    → EventKind
    → WorkflowState
    → StatePolicy
    → ℕ
    → Fsm
    → Fsm × Outcome
try_again loop env kind state p retry m =
    let noted = record_event (event kind state retry) m in
    let recovering_fsm = record_event (event recovering p.recovery (retry + 1)) noted in
    let again = loop state (retry + 1) recovering_fsm in
    let ended = give_up state p retry noted in
    if ltb retry p.max_retry
    then (if recovers env state (retry + 1) then again else (recovering_fsm, escaped))
    else ended

-- What follows the attempt, by the `except` clauses.
abbrev pub react :
    (WorkflowState → ℕ → Fsm → Fsm × Outcome)
    → Environment
    → WorkflowState
    → StatePolicy
    → ℕ
    → Fsm
    → Attempt
    → Fsm × Outcome
react loop env state p retry m completed = (leave state retry m, done)
react loop env state p retry m timed_out = try_again loop env timeout state p retry m
react loop env state p retry m failed =
    try_again loop env (if ltb retry p.max_retry then retrying else fatal) state p retry m
react loop env state p retry m nonrecoverable = (
  record_event (event fatal state retry) m,
  raised (record {
    state = state;
    recovery_state = restart_task;
    recovery_level = rebuild_context_level;
    retry = retry;
    is_nonrecoverable = true;
  }),
)
react loop env state p retry m cancelled = (m, escaped)

-- The `while True` of `_run_state`, from a retry number on.
unfoldable pub attempts : ℕ → Environment → StatePolicy → WorkflowState → ℕ → Fsm → Fsm × Outcome
attempts zero env p state retry m = (m, stuck)
attempts (suc f) env p state retry m =
    react (attempts f env p) env state p retry (record_event (event enter state retry) m)
      (attempt env state retry)

-- `_run_state` with the policy that was looked up. There is an attempt for each retry that the
-- policy allows, and a first one.
abbrev pub run_policy : Environment → WorkflowState → Fsm → Option StatePolicy → Fsm × Outcome
run_policy env state m none = (m, no_policy)
run_policy env state m (some p) = attempts (suc p.max_retry) env p state 0 m

-- `_run_state`
unfoldable pub run_state : Environment → WorkflowState → Fsm → Fsm × Outcome
unfolding attempts
run_state env state m = run_policy env state m (state_policy state)

-- The loop goes on behind a state that returns, and ends at the first that does not.
abbrev pub and_next : (Fsm → Fsm × Outcome) → Fsm × Outcome → Fsm × Outcome
and_next loop (m, done) = loop m
and_next loop (m, raised e) = (m, raised e)
and_next loop (m, no_policy) = (m, no_policy)
and_next loop (m, escaped) = (m, escaped)
and_next loop (m, stuck) = (m, stuck)

-- The `for` loop of `run`
unfoldable pub run_states : Environment → List WorkflowState → Fsm → Fsm × Outcome
unfolding run_state
run_states env [] m = (m, done)
run_states env (state ∷ states) m = and_next (run_states env states) (run_state env state m)

-- `run`
unfoldable pub run : Environment → Fsm → Fsm × Outcome
unfolding run_states
run env m = run_states env state_order m
