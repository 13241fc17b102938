-- ===== src/Storage/WriteQueue.antt =====
-- `SQLiteWriteQueue` of wq_workflow/storage/write_queue.py: the statistics, the legacy files and the
-- loop of `_write_batch`. Which legacy file cannot be written is the environment.
use worldquant_workflow_v2_r.Common.{
  ℕ, List, Text, Bool, Option, text_eq, ◌∷◌, ◌+◌, ◌++◌, [], some, length, ◌&&◌, if◌then◌else◌,
  false, true, none, ◌==◌, suc, zero, min, ◌-◌, max, take, drop,
}
use worldquant_workflow_v2_r.Storage.Database.{
  Item, Fault, Connection, Payload, Kind, fault_text, Trial, dict, is_retried, try_once, event,
}

pub record QueueStats : Type 0 where
  pub failed_writes : ℕ
  pub sqlite_writes : ℕ
  pub legacy_writes : ℕ
  pub last_error : Text

-- The worker: what is queued, the batch in its hands, the count of unfinished tasks, and what it
-- has done so far. `degraded` lists the reasons that the callback was given.
pub record Worker (P : Type 0) : Type 0 where
  pub waiting : List (Item P)
  pub in_hand : List (Item P)
  pub unfinished_tasks : ℕ
  pub connection : Connection P
  pub stats : QueueStats
  pub files : List ((Text × ℕ) × List P)
  pub degraded : List Text

abbrev same_file : Text × ℕ → Text × ℕ → Bool
same_file (p, m) (q, n) = text_eq p q && (m == n)

module _ {P : Type 0} where
  -- The rows for the legacy files, by path and size limit, in the order of the first of each
  unfoldable pub add_row : Text × ℕ → P → List ((Text × ℕ) × List P) → List ((Text × ℕ) × List P)
  add_row file row [] = (file, row ∷ []) ∷ []
  add_row file row ((f, rows) ∷ groups) =
      let behind = (f, rows) ∷ add_row file row groups in
      if same_file file f then (f, rows ++ row ∷ []) ∷ groups else behind

  abbrev grouped_with :
      Bool → Item P → Payload P → List ((Text × ℕ) × List P) → List ((Text × ℕ) × List P)
  grouped_with true i (dict row) groups = add_row (i.path, i.max_bytes) row groups
  grouped_with _ i _ groups = groups

  abbrev is_exported : Item P → Kind → Bool
  is_exported i event = i.legacy_export
  is_exported i _ = false

  unfoldable pub grouped : List (Item P) → List ((Text × ℕ) × List P) → List ((Text × ℕ) × List P)
  grouped [] groups = groups
  grouped (i ∷ is) groups = grouped is (grouped_with (is_exported i i.kind) i i.payload groups)

  -- `_record_failure`
  abbrev pub record_failure : Text → Worker P → Worker P
  record_failure text w = record w {
    stats = record w.stats { failed_writes = w.stats.failed_writes + 1; last_error = text };
  }

  -- The loop over the groups of `_write_legacy`. Of a file that cannot be written the environment
  -- has the text of the exception.
  abbrev pub append_file : Option Text → (Text × ℕ) × List P → Worker P → Worker P
  append_file none (file, rows) w = record w {
    files = w.files ++ (file, rows) ∷ [];
    stats = record w.stats { legacy_writes = w.stats.legacy_writes + length rows };
  }
  append_file (some text) group w = record_failure text w

  unfoldable pub append_files :
      (Text × ℕ → Option Text) → List ((Text × ℕ) × List P) → Worker P → Worker P
  append_files broken [] w = w
  append_files broken ((file, rows) ∷ groups) w =
      append_files broken groups (append_file (broken file) (file, rows) w)

  -- `_write_legacy`
  unfoldable pub write_legacy : (Text × ℕ → Option Text) → List (Item P) → Worker P → Worker P
  write_legacy broken batch w = append_files broken (grouped batch []) w

  -- What follows the COMMIT
  abbrev count_writes : ℕ → Worker P → Worker P
  count_writes n w = record w {
    stats = record w.stats { sqlite_writes = w.stats.sqlite_writes + n };
  }

  -- The end of `_write_batch` when an error is left
  abbrev degrade : Fault → Worker P → Worker P
  degrade f w =
      let failed = record_failure (fault_text f) w in
      record failed { degraded = failed.degraded ++ fault_text f ∷ [] }

  -- The `for` loop of `_write_batch`, with the attempts that are left and the error of the last.
  abbrev go_on : (Worker P → Option Fault → Worker P × Bool) → Fault → Worker P → Worker P × Bool
  go_on again f w =
      let more = again w (some f) in if is_retried f then more else (degrade f w, false)

  abbrev pub after_attempt :
      (Worker P → Option Fault → Worker P × Bool)
      → (Text × ℕ → Option Text)
      → List (Item P)
      → Option Fault
      → Worker P
      → Worker P × Bool
  after_attempt again broken batch none w =
      (count_writes (length batch) (write_legacy broken batch w), true)
  after_attempt again broken batch (some f) w = go_on again f w

  abbrev exhausted : Option Fault → Worker P → Worker P
  exhausted none w = w
  exhausted (some f) w = degrade f w

  unfoldable pub attempts :
      ℕ
      → (ℕ → Trial)
      → (Text × ℕ → Option Text)
      → List (Item P)
      → Worker P
      → Option Fault
      → Worker P × Bool
  attempts zero trial broken batch w last = (exhausted last w, false)
  attempts (suc n) trial broken batch w last =
      let (c, raised) = try_once (trial n) batch w.connection in
      after_attempt (attempts n trial broken batch) broken batch raised
        (record w { connection = c })

  -- `_write_batch`, and whether the batch was committed
  unfoldable pub write_batch :
      (ℕ → Trial) → (Text × ℕ → Option Text) → List (Item P) → Worker P → Worker P × Bool
  write_batch trial broken batch w = attempts 5 trial broken batch w none

  -- `put_event`, `put_snapshot` and the others: `_queue.put`
  unfoldable pub put_item : Item P → Worker P → Worker P
  put_item i w = record w {
    waiting = w.waiting ++ i ∷ [];
    unfinished_tasks = w.unfinished_tasks + 1;
  }

  -- `_collect_batch`: at least one item where there is one, at most `batch_size`, and as many as
  -- came before the deadline
  unfoldable pub collect_batch : ℕ → ℕ → Worker P → Worker P
  collect_batch batch_size in_time w =
      let n = min (max 1 in_time) batch_size in
      record w { in_hand = take n w.waiting; waiting = drop n w.waiting }

  -- A round of `_run` behind the collection: the batch is written, and each task of it done.
  unfoldable pub finish_batch : (ℕ → Trial) → (Text × ℕ → Option Text) → Worker P → Worker P × Bool
  finish_batch trial broken w =
      let (written, ok) = write_batch trial broken w.in_hand w in
      (
        record written {
          in_hand = [];
          unfinished_tasks = written.unfinished_tasks - length w.in_hand;
        },
        ok,
      )

  abbrev pub new_worker : Worker P
  new_worker = record {
    waiting = [];
    in_hand = [];
    unfinished_tasks = 0;
    connection = record { committed = []; open_transaction = none };
    stats = record { failed_writes = 0; sqlite_writes = 0; legacy_writes = 0; last_error = [] };
    files = [];
    degraded = [];
  }
