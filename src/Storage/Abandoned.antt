-- ===== src/Storage/Abandoned.antt =====
-- About the end of `_run` of wq_workflow/storage/write_queue.py where the database cannot be opened.
use worldquant_workflow_v2_r.Storage.Run.{abandon, put_all, is_flushed, no_items}
use worldquant_workflow_v2_r.Storage.WriteQueue.{put_item, Worker}
use worldquant_workflow_v2_r.Common.{
  Text, List, ℕ, ◌≡◌, ◌+◌, [], length, arith, ◌==◌, ◌∷◌, ap, ◌∙◌, refl,
}
use worldquant_workflow_v2_r.Storage.Database.{Item}
use worldquant_workflow_v2_r.Storage.Fifo.{Batches, Reach, Reach-Account}

module _ {P : Type 0} where
  put_all-unfinished_tasks :
      (later : List (Item P)) (w : Worker P)
      → (put_all later w).unfinished_tasks ≡ w.unfinished_tasks + length later
  unfolding put_all put_item
  put_all-unfinished_tasks [] w = omega arith
  put_all-unfinished_tasks (i ∷ is) w = omega (arith, put_all-unfinished_tasks is (put_item i w))

  -- When the thread ends, with no batch in hand, because the database cannot be opened, the test of
  -- `flush` holds for what was put before, and never again once anything more is put.
  pub is_flushed-abandon :
      (text : Text) {batch_size : ℕ} {items : List (Item P)} {bs : Batches P} {w : Worker P}
      (later : List (Item P))
      → Reach batch_size items bs w
      → w.in_hand ≡ []
      → is_flushed (put_all later (abandon text w)) ≡ no_items later
  unfolding is_flushed abandon
  is_flushed-abandon text {batch_size} {items} {bs} {w} later h e =
      let a = Reach-Account batch_size items bs w h in
      let count : (put_all later (abandon text w)).unfinished_tasks ≡ length later =
        omega (arith, put_all-unfinished_tasks later (abandon text w), a.unfinished, ap length e) in
      ap (λ n. n == 0) count ∙ tested later
    where
      tested : (is : List (Item P)) → (length is == 0) ≡ no_items is
      tested [] = refl
      tested (i ∷ is) = ground arith
