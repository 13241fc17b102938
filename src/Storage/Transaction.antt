-- ===== src/Storage/Transaction.antt =====
-- About `_write_batch` of wq_workflow/storage/write_queue.py.
use worldquant_workflow_v2_r.Storage.WriteQueue.{
  Worker, append_files, write_legacy, write_batch, attempts, append_file, after_attempt, grouped,
}
use worldquant_workflow_v2_r.Common.{
  Option, List, Text, none, ℕ, Bool, ◌≡◌, ◌++◌, if◌then◌else◌, some, ◌+◌, suc, refl, length, true,
  [], ap, ◌∷◌, ◌∙◌, false, zero,
}
use worldquant_workflow_v2_r.Storage.Database.{
  try_once, Item, Call, Trial, Fault, Connection, write_sqlite, begin_fails, write_fails,
  commit_fails, fault_text, succeeds, is_retried,
}

module _ {P : Type 0} where
  -- The part of a worker that writing the legacy files leaves alone
  abbrev pub kept : Worker P → List (Item P) × List (Item P) × ℕ × Connection P × ℕ
  kept w = (w.waiting, w.in_hand, w.unfinished_tasks, w.connection, w.stats.sqlite_writes)

  append_file-kept :
      (o : Option Text) (file : Text × ℕ) (rows : List P) (w : Worker P)
      → kept (append_file o (file, rows) w) ≡ kept w
  append_file-kept none file rows w = refl
  append_file-kept (some text) file rows w = refl

  append_files-kept :
      (broken : Text × ℕ → Option Text) (groups : List ((Text × ℕ) × List P)) (w : Worker P)
      → kept (append_files broken groups w) ≡ kept w
  unfolding append_files
  append_files-kept broken [] w = refl
  append_files-kept broken ((file, rows) ∷ groups) w =
      append_files-kept broken groups (append_file (broken file) (file, rows) w)
      ∙ append_file-kept (broken file) file rows w

  -- The connection behind an attempt
  data Tried (committed : List (Call P)) (calls : List (Call P))
      : Connection P × Option Fault → Type 0 where
    all_written :
        Tried committed calls
          (record { committed = committed ++ calls; open_transaction = none }, none)
    none_written :
        (f : Fault)
        → Tried committed calls (record { committed = committed; open_transaction = none }, some f)

  try_once-Tried :
      (trial : Trial) (batch : List (Item P)) (c : Connection P)
      → Tried c.committed (write_sqlite batch) (try_once trial batch c)
  unfolding try_once
  try_once-Tried succeeds batch c = all_written
  try_once-Tried (begin_fails f) batch c = none_written f
  try_once-Tried (write_fails n f) batch c = none_written f
  try_once-Tried (commit_fails f) batch c = none_written f

  abbrev waiting_part : Worker P → List (Item P) × List (Item P) × ℕ
  waiting_part w = (w.waiting, w.in_hand, w.unfinished_tasks)

  -- How `_write_batch` can leave a worker
  pub data Written (w : Worker P) (batch : List (Item P)) : Worker P × Bool → Type 0 where
    wrote :
        (w' : Worker P)
        → waiting_part w' ≡ waiting_part w
        → w'.connection ≡ record {
          committed = w.connection.committed ++ write_sqlite batch;
          open_transaction = none;
        }
        → w'.stats.sqlite_writes ≡ w.stats.sqlite_writes + length batch
        → Written w batch (w', true)
    gave_up :
        (w' : Worker P) (f : Fault)
        → waiting_part w' ≡ waiting_part w
        → w'.connection ≡ record { committed = w.connection.committed; open_transaction = none }
        → w'.stats
          ≡ record w.stats { failed_writes = w.stats.failed_writes + 1; last_error = fault_text f }
        → w'.degraded ≡ w.degraded ++ fault_text f ∷ []
        → w'.files ≡ w.files
        → Written w batch (w', false)

  Written-if :
      (w : Worker P) (batch : List (Item P)) (b : Bool) (r s : Worker P × Bool)
      → Written w batch r
      → Written w batch s
      → Written w batch (if b then r else s)
  Written-if w batch true r s h k = h
  Written-if w batch false r s h k = k

  -- The worker whose transaction was rolled back
  abbrev rolled_back : Worker P → Worker P
  rolled_back w = record w {
    connection = record { committed = w.connection.committed; open_transaction = none };
  }

  after_attempt-Written :
      (again : Worker P → Option Fault → Worker P × Bool) (broken : Text × ℕ → Option Text)
      (batch : List (Item P)) (w : Worker P) (r : Connection P × Option Fault)
      → ((f : Fault) → Written w batch (again (rolled_back w) (some f)))
      → Tried w.connection.committed (write_sqlite batch) r
      → Written w batch (after_attempt again broken batch r.1 (record w { connection = r.0 }))
  unfolding write_legacy
  after_attempt-Written again broken batch w _ h all_written =
      let before : Worker P = record w {
        connection = record {
          committed = w.connection.committed ++ write_sqlite batch;
          open_transaction = none;
        };
      } in
      let same = append_files-kept broken (grouped batch []) before in
      wrote _ (ap (λ k. (k.0, k.1, k.2)) same) (ap (λ k. k.3) same)
        (ap (λ k. k.4 + length batch) same)
  after_attempt-Written again broken batch w _ h (none_written f) =
      Written-if w batch (is_retried f) _ _ (h f) (gave_up _ f refl refl refl refl refl)

  attempts-Written :
      (n : ℕ) (trial : ℕ → Trial) (broken : Text × ℕ → Option Text) (batch : List (Item P))
      (w : Worker P) (f : Fault)
      → Written w batch (attempts n trial broken batch (rolled_back w) (some f))
  unfolding attempts
  attempts-Written zero trial broken batch w f = gave_up _ f refl refl refl refl refl
  attempts-Written (suc n) trial broken batch w f =
      after_attempt-Written (attempts n trial broken batch) broken batch w _
        (attempts-Written n trial broken batch w)
        (try_once-Tried (trial n) batch (rolled_back w).connection)

  -- Whatever fails, and however often: no transaction stays open, and a batch is committed as a
  -- whole, once, and counted, or the database and the legacy files stay, and one failure is
  -- counted, with its text, and reported to the callback.
  pub write_batch-Written :
      (trial : ℕ → Trial) (broken : Text × ℕ → Option Text) (batch : List (Item P)) (w : Worker P)
      → Written w batch (write_batch trial broken batch w)
  unfolding write_batch attempts
  write_batch-Written trial broken batch w =
      after_attempt-Written (attempts 4 trial broken batch) broken batch w _
        (attempts-Written 4 trial broken batch w) (try_once-Tried (trial 4) batch w.connection)
