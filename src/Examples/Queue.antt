-- ===== src/Examples/Queue.antt =====
-- The write queue of wq_workflow/storage on two items, with a database that is locked at first.
use worldquant_workflow_v2_r.Storage.Database.{
  Item, lineage, event, Trial, commit_fails, dict, operational, try_once, is_retried, write_sqlite,
  calls_of, event_rows, insert_row, batch_insert_events, begin_fails, succeeds,
}
use worldquant_workflow_v2_r.Common.{
  ℕ, Text, Option, ◌∷◌, ◌≡◌, [], codes, none, ◌≢◌, refl, false, true, contains, lower_char,
  starts_with, if◌then◌else◌, ◌==◌, length, ◌+◌, ◌≤◌, arith,
}
use worldquant_workflow_v2_r.Storage.WriteQueue.{
  Worker, put_item, new_worker, collect_batch, write_batch, finish_batch, attempts, write_legacy,
  append_files, grouped, add_row,
}
use worldquant_workflow_v2_r.Storage.Fifo.{
  Reach, Account, puts, Reach-Account, started, finishes, collects,
}
use worldquant_workflow_v2_r.Storage.Transaction.{Written, write_batch-Written}
use worldquant_workflow_v2_r.Storage.Drain.{Drained, run-Drained}
use worldquant_workflow_v2_r.Storage.Run.{Round, run, is_flushed, put_all, abandon}
use worldquant_workflow_v2_r.Storage.Abandoned.{is_flushed-abandon}

abbrev lineage_item : Item ℕ
lineage_item = record {
  kind = lineage;
  path = [];
  payload = dict 7;
  legacy_export = false;
  max_bytes = 0;
}

abbrev event_item : Item ℕ
event_item = record {
  kind = event;
  path = codes "events.jsonl";
  payload = dict 8;
  legacy_export = true;
  max_bytes = 1000;
}

-- The first of five attempts finds the database locked.
abbrev locked_once : ℕ → Trial
locked_once n = if n == 4 then begin_fails (operational (codes "database is locked")) else succeeds

abbrev always_locked : ℕ → Trial
always_locked n = commit_fails (operational (codes "database is locked"))

abbrev all_writable : Text × ℕ → Option Text
all_writable file = none

abbrev both_put : Worker ℕ
both_put = put_item event_item (put_item lineage_item new_worker)

abbrev collected : Worker ℕ
collected = collect_batch 100 2 both_put

retried :
    (finish_batch locked_once all_writable collected).0.connection.committed
    ≡ insert_row lineage 7 ∷ batch_insert_events ((codes "events.jsonl", 8) ∷ []) ∷ []
unfolding put_item collect_batch finish_batch write_batch attempts try_once is_retried write_sqlite
    calls_of event_rows write_legacy append_files grouped add_row contains lower_char starts_with
retried = refl

refused : (finish_batch always_locked all_writable collected).0.stats ≡ record {
  failed_writes = 1;
  sqlite_writes = 0;
  legacy_writes = 0;
  last_error = codes "database is locked";
}
unfolding put_item collect_batch finish_batch write_batch attempts try_once is_retried contains
    lower_char starts_with
refused = refl

in_hand-ne-nil : collected.in_hand ≢ []
unfolding put_item collect_batch
in_hand-ne-nil = λ h. cc h

both_reached : Reach 100 (lineage_item ∷ event_item ∷ []) [] both_put
both_reached = puts (puts started lineage_item) event_item

both_reached_one : Reach 1 (lineage_item ∷ event_item ∷ []) [] both_put
both_reached_one = puts (puts started lineage_item) event_item

no_hand : both_put.in_hand ≡ []
unfolding put_item
no_hand = refl

Reach-Account_example :
    Account
      (lineage_item ∷ event_item ∷ [])
      ((collected.in_hand, (finish_batch locked_once all_writable collected).1) ∷ [])
      (finish_batch locked_once all_writable collected).0
Reach-Account_example =
    Reach-Account 100 (lineage_item ∷ event_item ∷ []) _ _
      (finishes (collects both_reached no_hand 2) in_hand-ne-nil locked_once all_writable)

write_batch-Written_example :
    Written collected collected.in_hand
      (write_batch locked_once all_writable collected.in_hand collected)
write_batch-Written_example =
    write_batch-Written locked_once all_writable collected.in_hand collected

-- Every round fails: the database stays locked.
abbrev failing_round : Round
failing_round = record {
  stopping = true;
  in_time = 1;
  trial = always_locked;
  broken = all_writable;
}

always_stopping : (n : ℕ) → true ≡ true
always_stopping n = refl

enough_rounds : length both_put.waiting + 1 ≤ 3
unfolding put_item
enough_rounds = omega arith

run-Drained_example :
    Drained 1 (lineage_item ∷ event_item ∷ []) (run 3 1 0 (λ n. failing_round) both_put)
run-Drained_example =
    run-Drained 3 1 0 (lineage_item ∷ event_item ∷ []) [] (λ n. failing_round) both_put
      (omega arith) always_stopping both_reached_one no_hand enough_rounds

is_flushed-abandon_example :
    is_flushed (put_all (event_item ∷ []) (abandon (codes "unable to open database file") both_put))
    ≡ false
is_flushed-abandon_example =
    is_flushed-abandon (codes "unable to open database file") (event_item ∷ []) both_reached no_hand
