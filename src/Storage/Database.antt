-- ===== src/Storage/Database.antt =====
-- The database of wq_workflow/storage/write_queue.py: `_write_sqlite`, and one attempt of
-- `_write_batch` at a transaction. A payload is a dict or something else; what stands in it is not
-- read. Which statement of which attempt fails is the environment. The database is the list of the
-- repository calls that were committed.
use worldquant_workflow_v2_r.Common.{
  Text, ℕ, Bool, List, some, Option, none, contains, ◌++◌, [], ◌∷◌, codes, lower, ◌||◌, false, take,
}

pub data Payload (P : Type 0) : Type 0 where
  dict : P → Payload P
  other : P → Payload P

pub data Kind : Type 0 where
  event snapshot lineage candidate failure evolution_population : Kind
  evolution_decision evolution_policy evolution_graph lineage_value : Kind
  simulator_observation : Kind

pub record Item (P : Type 0) : Type 0 where
  pub kind : Kind
  pub path : Text
  pub payload : Payload P
  pub legacy_export : Bool
  pub max_bytes : ℕ

-- The calls of the repositories
pub data Call (P : Type 0) : Type 0 where
  write_snapshot : Text → Payload P → Call P
  insert_row : Kind → P → Call P
  batch_insert_events : List (Text × P) → Call P

-- What an attempt raises: an OperationalError or another exception, with its text
pub data Fault : Type 0 where
  operational other_exception : Text → Fault

-- How an attempt goes: everything is written, or BEGIN, a call of `_write_sqlite` (after so many
-- that were made) or COMMIT raises.
pub data Trial : Type 0 where
  succeeds : Trial
  begin_fails commit_fails : Fault → Trial
  write_fails : ℕ → Fault → Trial

abbrev pub fault_text : Fault → Text
fault_text (operational text) = text
fault_text (other_exception text) = text

-- `"locked" in str(exc).lower() or "busy" in …`
unfoldable pub is_retried : Fault → Bool
is_retried (operational text) =
    contains (codes "locked") (lower text) || contains (codes "busy") (lower text)
is_retried (other_exception text) = false

-- One connection: what is committed, and what the open transaction would make of it
pub record Connection (P : Type 0) : Type 0 where
  pub committed : List (Call P)
  pub open_transaction : Option (List (Call P))

module _ {P : Type 0} where
  abbrev begin_immediate : Connection P → Connection P
  begin_immediate c = record c { open_transaction = some c.committed }

  abbrev made : Option (List (Call P)) → List (Call P) → Option (List (Call P))
  made none calls = none
  made (some rows) calls = some (rows ++ calls)

  abbrev execute : List (Call P) → Connection P → Connection P
  execute calls c = record c { open_transaction = made c.open_transaction calls }

  abbrev commit_to : List (Call P) → Option (List (Call P)) → Connection P
  commit_to committed none = record { committed = committed; open_transaction = none }
  commit_to committed (some rows) = record { committed = rows; open_transaction = none }

  abbrev commit : Connection P → Connection P
  commit c = commit_to c.committed c.open_transaction

  abbrev rollback : Connection P → Connection P
  rollback c = record c { open_transaction = none }

  -- `_write_sqlite`: the calls of a batch, the events last and together
  abbrev call_of : Item P → Kind → Payload P → List (Call P)
  call_of i event p = []
  call_of i snapshot p = write_snapshot i.path p ∷ []
  call_of i kind (dict row) = insert_row kind row ∷ []
  call_of i kind (other row) = []

  abbrev event_of : Item P → Kind → Payload P → List (Text × P)
  event_of i event (dict row) = (i.path, row) ∷ []
  event_of i _ _ = []

  unfoldable pub calls_of : List (Item P) → List (Call P)
  calls_of [] = []
  calls_of (i ∷ is) = call_of i i.kind i.payload ++ calls_of is

  unfoldable pub event_rows : List (Item P) → List (Text × P)
  event_rows [] = []
  event_rows (i ∷ is) = event_of i i.kind i.payload ++ event_rows is

  abbrev insert_events : List (Text × P) → List (Call P)
  insert_events [] = []
  insert_events (row ∷ rows) = batch_insert_events (row ∷ rows) ∷ []

  unfoldable pub write_sqlite : List (Item P) → List (Call P)
  write_sqlite batch = calls_of batch ++ insert_events (event_rows batch)

  -- One round of the loop of `_write_batch`, without the legacy files: what it raises, if anything
  unfoldable pub try_once : Trial → List (Item P) → Connection P → Connection P × Option Fault
  try_once succeeds batch c = (commit (execute (write_sqlite batch) (begin_immediate c)), none)
  try_once (begin_fails f) batch c = (rollback c, some f)
  try_once (write_fails n f) batch c =
      (rollback (rollback (execute (take n (write_sqlite batch)) (begin_immediate c))), some f)
  try_once (commit_fails f) batch c =
      (rollback (execute (write_sqlite batch) (begin_immediate c)), some f)
