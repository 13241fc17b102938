-- ===== src/Lib.antt =====
-- Verification library of AlphaForge: a workflow that writes alpha expressions, simulates them on a
-- web platform, scores the results and migrates its reward from a legacy engine to a second one.
--
-- Parts, and the files that model them (paths from the repository's root):
--
-- Expr: the expression engine of wq_workflow/core. A text is tokenized and parsed into a tree
-- (`Expr/Lexer`, `Expr/Parser`: `tokenize`, `build_ast` and its methods in
-- wq_workflow/core/parser/expression_parser.py, on the nodes of wq_workflow/core/ast/ast_node.py in
-- `Expr/Ast`). The mutator changes the tree at paths (`Expr/Paths`, `Expr/Mutator` and
-- `Expr/Mutator/Generate`: wq_workflow/core/structural_mutator.py), keeps what the constraints pass
-- (`Expr/Constraints`: wq_workflow/core/mutation_constraints.py, with the tables of
-- wq_workflow/core/operators/operator_registry.py in `Expr/Operators`), and prints it (`Expr/Printer`:
-- wq_workflow/core/ast/ast_serializer.py). `Expr/Pipeline` chains the parser and the mutator.
--   Texts are lists of code points; the character tests are those of ASCII. A float is a parameter
-- (`Expr/Floats`) whose `int` may refuse a value, such as the infinite float of a very long literal;
-- an integer is a natural number, without the interpreter's limit on the digits that it converts. An
-- exception of the lexer or the parser is the value `raised`, and an exception of the mutator is
-- `none`. The lexer gets one round for each character and one more, the
-- parser a fuel of 8 for each token and 6 more: a call costs one unit, no level of the grammar takes
-- more than eight, and the fuel is enough on every text. The optional operator graph that reorders
-- the mutator's wrappers is absent, and `replace_field` is not modelled. `Expr/Roundtrip` has the
-- grammar of the trees that are printed without losing structure, and in its children how their texts
-- are read back.
--
-- Workflow: `WorkflowFSM` of wq_workflow/workflow_state.py (`Workflow/State` has the states and
-- policies, `Workflow/Fsm` the loops). What a handler does at an attempt (it completes, times out,
-- fails, refuses to be repeated, or is cancelled) and whether the recovery callback returns are an
-- environment of the run. `Workflow/Spec` says what one state does apart from its loop,
-- `Workflow/Order` what a run does. The loop of a state gets one attempt for each retry of its policy
-- and a first one. Durations, error texts and the watchdog's own clock are left out.
--
-- Migration: wq_workflow/reward_migration and the weights of
-- wq_workflow/core/evolution/adaptive_legacy_controller.py. `Migration/State` has the snapshot and its
-- weights, `Migration/Scheduler` the proposed weights, `Migration/Controller` the step that
-- `blend_reward` makes from the stored snapshot to the saved one. What the two monitors report, the
-- rewards and the time are inputs of a step. Reals are a parameter (`Migration/Reals`) with the order
-- laws that a bound rests on. Log and metrics files, and malformed JSON in the store, are left out.
-- `Migration/Steps`, `Migration/Histories` and `Migration/Bounds` have the proofs.
--
-- Strategy: who is champion. `Strategy/Table` is the table of strategies of
-- wq_workflow/data/repositories.py as a list of rows, `Strategy/Promotion` and `Strategy/Rollback` are
-- wq_workflow/strategy/promotion.py and wq_workflow/strategy/rollback.py on it, and `Strategy/Transition` is
-- `recommend_state` of wq_workflow/strategy/transition_rules.py. The reports that a promotion reads,
-- the comparison of a rollback and the score of a recommendation are inputs. `Strategy/Demotion`,
-- `Strategy/Gates`, `Strategy/Champion` and `Strategy/Recommended` have the proofs.
--
-- Storage: the write queue of wq_workflow/storage/write_queue.py. `Storage/Database` has the calls that
-- a batch makes and one attempt at its transaction, `Storage/WriteQueue` the legacy files, the loop of
-- `_write_batch` with its five attempts, and the puts and rounds that change the queue. Which
-- statement fails, which legacy file cannot be written and how many items come before a deadline are
-- the environment; the database is the list of the repository calls that were committed.
-- `Storage/Run` is the loop of the worker: its fuel counts rounds, and the test of `close` is an input
-- of each; it also has what the worker does where the database cannot be opened. The start of the
-- thread and the repositories' SQL are left out. `Storage/Transaction`, `Storage/Fifo`,
-- `Storage/Drain` and `Storage/Abandoned` have the proofs.
--
-- Rewards: wq_workflow/core/evolution/pending_reward_manager.py. `Rewards/State` has the records and
-- what changes one of them, `Rewards/Injection` the reinforcement that a released reward gives and its
-- decay, `Rewards/Settlement` the loop of `settle_rewards`. The records are a dictionary in insertion
-- order (`Common/Dicts`); finite floats are a parameter, and so are the power of one half and what the
-- survival memory answers. Reading and writing the file, with the repair of malformed records, is left
-- out. `Rewards/Once`, `Rewards/Settled` and `Rewards/History` have the proofs.
--
-- Governance: wq_workflow/governance. `Governance/Lifecycle` (lifecycle.py) has the statuses of a model
-- and their transitions; `Governance/Gate` (policy_gate.py) decides whether a model may make a hard
-- decision, and `Governance/Flags` (service.py) turns off the flags of the tasks that may not;
-- `Governance/Guard` (long_term_guard.py) checks a task and acts on its model, by way of
-- `Governance/Retrain` (retrain_scheduler.py). Calls of the registry, the online evaluation and the
-- trainers return or throw, as an environment says (`Governance/Effects`), and the calls and writes
-- that were made are a list: what a called part changes by itself is not modelled. On which flags
-- `setattr` raises is an environment too. Clocks, events and payloads are left out. `Governance/Permits`,
-- `Governance/Allowed`, `Governance/Holds`, `Governance/Retrained`, `Governance/Recorded` and
-- `Governance/Fallback` have the proofs.
--
-- Common has the shared helpers, and Examples the runs on concrete inputs.
--
-- Not modelled: browser automation, the command line, dashboards, SQL repositories, JSON memory, and
-- the floating-point scores and models; they are input and output or numeric estimates.
pub mod Common
pub mod Expr
pub mod Workflow
pub mod Migration
pub mod Rewards
pub mod Strategy
pub mod Governance
pub mod Storage
pub mod Examples
