-- ===== src/Storage/Run.antt =====
-- The loop of `_run` of wq_workflow/storage/write_queue.py, and the test of `flush`.
use worldquant_workflow_v2_r.Storage.Database.{Item, Trial}
use worldquant_workflow_v2_r.Storage.WriteQueue.{
  Worker, collect_batch, finish_batch, record_failure, put_item,
}
use worldquant_workflow_v2_r.Common.{
  Bool, List, ℕ, Text, ◌∷◌, Option, ◌==◌, none, [], suc, ◌+◌, if◌then◌else◌, not, ◌||◌, some, zero,
  true, false, ◌-◌, length, ◌++◌,
}

-- What a round of the worker meets: whether `close` has set the event, how many items come before
-- the deadline, how each attempt to write goes, and which legacy files cannot be written
pub record Round : Type 0 where
  pub stopping : Bool
  pub in_time : ℕ
  pub trial : ℕ → Trial
  pub broken : Text × ℕ → Option Text

module _ {P : Type 0} where
  -- `if not batch: continue`, or the batch is written.
  abbrev pub write_if : Round → List (Item P) → Worker P → Worker P
  write_if r [] w = w
  write_if r (i ∷ is) w = (finish_batch r.trial r.broken w).0

  abbrev pub run_round : ℕ → Round → Worker P → Worker P
  run_round batch_size r w =
      let collected = collect_batch batch_size r.in_time w in write_if r collected.in_hand collected

  -- `_queue.empty()`
  abbrev pub no_items : List (Item P) → Bool
  no_items [] = true
  no_items (i ∷ is) = false

  -- `while not self._stop.is_set() or not self._queue.empty()`, from the round with number `k` on.
  -- Without fuel it has not ended.
  unfoldable pub run : ℕ → ℕ → ℕ → (ℕ → Round) → Worker P → Option (Worker P)
  run zero batch_size k rounds w = none
  run (suc fuel) batch_size k rounds w =
      let rest = run fuel batch_size (k + 1) rounds (run_round batch_size (rounds k) w) in
      if not (rounds k).stopping || not (no_items w.waiting) then rest else some w

  -- What `flush` waits for
  unfoldable pub is_flushed : Worker P → Bool
  is_flushed w = w.unfinished_tasks == 0

  -- The `except` branch, where the database cannot be opened: the failure is recorded and reported,
  -- and what is queued is taken out and counted as done. The thread ends.
  unfoldable pub abandon : Text → Worker P → Worker P
  abandon text w =
      let failed = record_failure text w in
      record failed {
        waiting = [];
        unfinished_tasks = failed.unfinished_tasks - length failed.waiting;
        degraded = failed.degraded ++ text ∷ [];
      }

  -- Puts one after another
  unfoldable pub put_all : List (Item P) → Worker P → Worker P
  unfolding put_item
  put_all [] w = w
  put_all (i ∷ is) w = put_all is (put_item i w)
