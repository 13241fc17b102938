-- ===== src/Storage/Drain.antt =====
-- About the end of `_run` of wq_workflow/storage/write_queue.py, once `close` has set the event.
use mathlib.Core.Path.{ap₂}
use worldquant_workflow_v2_r.Storage.Database.{Item}
use worldquant_workflow_v2_r.Storage.WriteQueue.{Worker, collect_batch, finish_batch, write_batch}
use worldquant_workflow_v2_r.Common.{
  ℕ, Bool, List, Option, ◌≤◌, ◌≡◌, length, true, [], drop, ap, ◌+◌, if◌then◌else◌, some, arith, not,
  suc, ◌||◌, ◌∷◌, min, take-append-drop, max, length-append, take, zero, refl, ◌==◌, ◌∙◌, ◌++◌, ◌-◌,
  append-nil,
}
use worldquant_workflow_v2_r.Storage.Transaction.{Written, wrote, gave_up, write_batch-Written}
use worldquant_workflow_v2_r.Storage.Fifo.{
  Batches, Reach, items_of, finishes, collects, Reach-Account,
}
use worldquant_workflow_v2_r.Storage.Run.{is_flushed, Round, write_if, run_round, run, no_items}

module _ {P : Type 0} where
  -- A worker with no batch in hand and at most so many items queued
  data Progressed (batch_size : ℕ) (items : List (Item P)) (most : ℕ) : Worker P → Type 0 where
    progressed :
        (bs : Batches P) (w : Worker P)
        → Reach batch_size items bs w
        → w.in_hand ≡ []
        → length w.waiting ≤ most
        → Progressed batch_size items most w

  -- A loop that has ended with every task done and every item in a finished batch
  pub data Drained (batch_size : ℕ) (items : List (Item P)) : Option (Worker P) → Type 0 where
    drained :
        (bs : Batches P) (w : Worker P)
        → Reach batch_size items bs w
        → items ≡ items_of bs
        → is_flushed w ≡ true
        → Drained batch_size items (some w)

  length-drop_less :
      (n : ℕ) (xs : List (Item P)) → 1 ≤ n → 1 ≤ length xs → length (drop n xs) + 1 ≤ length xs
  length-drop_less zero xs h k = omega arith
  length-drop_less (suc n) [] h k = omega arith
  length-drop_less (suc n) (x ∷ xs) h k =
      let split = ap length (take-append-drop n xs) in
      omega (arith, split, length-append (take n xs) (drop n xs))

  waiting-finish_batch :
      (w : Worker P) (r : Worker P × Bool) → Written w w.in_hand r → r.0.waiting ≡ w.waiting
  waiting-finish_batch w _ (wrote w' same c n) = ap (λ k. k.0) same
  waiting-finish_batch w _ (gave_up w' f same c s d fs) = ap (λ k. k.0) same

  write_if-Progressed :
      {batch_size most : ℕ} {items : List (Item P)} {bs : Batches P} (r : Round)
      (hand : List (Item P)) (w : Worker P)
      → w.in_hand ≡ hand
      → Reach batch_size items bs w
      → length w.waiting ≤ most
      → Progressed batch_size items most (write_if r hand w)
  unfolding finish_batch
  write_if-Progressed {bs = bs} r [] w e h le = progressed bs w h e le
  write_if-Progressed r (i ∷ is) w e h le =
      let same =
        waiting-finish_batch w (write_batch r.trial r.broken w.in_hand w)
          (write_batch-Written r.trial r.broken w.in_hand w) in
      progressed _ _ (finishes h (λ q. cc (q, e)) r.trial r.broken) refl
        (omega (arith, ap length same, le))

  run_round-Progressed :
      {batch_size most : ℕ} {items : List (Item P)} {bs : Batches P} (r : Round) (w : Worker P)
      → 1 ≤ batch_size
      → Reach batch_size items bs w
      → w.in_hand ≡ []
      → 1 ≤ length w.waiting
      → length w.waiting ≤ most + 1
      → Progressed batch_size items most (run_round batch_size r w)
  unfolding collect_batch
  run_round-Progressed {batch_size} {most} r w pos h e some_left le =
      let n = min (max 1 r.in_time) batch_size in
      let less = length-drop_less n w.waiting (omega (arith, pos)) some_left in
      write_if-Progressed r (take n w.waiting) (collect_batch batch_size r.in_time w) refl
        (collects h e r.in_time) (omega (arith, less, le))

  nothing_left :
      {batch_size : ℕ} {items : List (Item P)} {bs : Batches P} (w : Worker P)
      → Reach batch_size items bs w
      → w.in_hand ≡ []
      → w.waiting ≡ []
      → Drained batch_size items (some w)
  unfolding is_flushed
  nothing_left {batch_size} {items} {bs} w h e none_left =
      let a = Reach-Account batch_size items bs w h in
      let no_task : w.unfinished_tasks ≡ 0 =
        omega (arith, a.unfinished, ap length e, ap length none_left) in
      drained bs w h
        (a.in_order
          ∙ (ap₂ (λ is js. items_of bs ++ (is ++ js)) e none_left ∙ append-nil (items_of bs)))
        (ap (λ n. n == 0) no_task)

  Drained-if :
      {batch_size : ℕ} {items : List (Item P)} {bs : Batches P} (s : Bool) (w : Worker P)
      (rest : Option (Worker P)) (left : List (Item P))
      → s ≡ true
      → w.waiting ≡ left
      → Reach batch_size items bs w
      → w.in_hand ≡ []
      → (1 ≤ length w.waiting → Drained batch_size items rest)
      → Drained batch_size items (if not s || not (no_items left) then rest else some w)
  Drained-if s w rest [] stop none_left h e go = rw stop (nothing_left w h e none_left)
  Drained-if s w rest (i ∷ is) stop some_left h e go =
      rw stop (go (omega (arith, ap length some_left)))

  run_from :
      {batch_size most : ℕ} {items : List (Item P)} (after : Worker P → Option (Worker P))
      (w : Worker P)
      → Progressed batch_size items most w
      → ((bs : Batches P) (v : Worker P)
          → Reach batch_size items bs v
          → v.in_hand ≡ []
          → length v.waiting ≤ most
          → Drained batch_size items (after v))
      → Drained batch_size items (after w)
  run_from after _ (progressed bs w h e le) go = go bs w h e le

  -- From any state that the calls can reach, with no batch in hand and batches of at least one item:
  -- once `close` has set the event and nothing more is put, the loop ends after at most one round
  -- for each item of the queue, whatever fails. Every item that was put is then in a finished
  -- batch, in the order of the puts, and the test of `flush` holds.
  pub run-Drained :
      (fuel batch_size k : ℕ) (items : List (Item P)) (bs : Batches P) (rounds : ℕ → Round)
      (w : Worker P)
      → 1 ≤ batch_size
      → ((n : ℕ) → (rounds n).stopping ≡ true)
      → Reach batch_size items bs w
      → w.in_hand ≡ []
      → length w.waiting + 1 ≤ fuel
      → Drained batch_size items (run fuel batch_size k rounds w)
  unfolding run
  run-Drained zero batch_size k items bs rounds w pos stop h e enough =
      absurd (omega (arith, enough))
  run-Drained (suc fuel) batch_size k items bs rounds w pos stop h e enough =
      let go_on : 1 ≤ length w.waiting → Drained batch_size items _ = λ some_left.
        run_from (run fuel batch_size (k + 1) rounds) _
          (run_round-Progressed {most = fuel - 1} (rounds k) w pos h e some_left
            (omega (arith, enough, some_left)))
          (λ bs' v h' e' le.
            run-Drained fuel batch_size (k + 1) items bs' rounds v pos stop h' e'
              (omega (arith, le, some_left, enough))) in
      Drained-if (rounds k).stopping w _ w.waiting (stop k) refl h e go_on
