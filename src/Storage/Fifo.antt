-- ===== src/Storage/Fifo.antt =====
-- The queue of wq_workflow/storage/write_queue.py as a whole: items that any thread puts, in between
-- the rounds of the one worker.
use worldquant_workflow_v2_r.Common.{
  List, ℕ, Bool, length, ◌++◌, [], ◌∷◌, ◌≡◌, true, ◌+◌, append-nil, ap, min, ◌∙◌, ◌-◌, false, ◌≢◌,
  sym, arith, none, append_assoc, max, length-append, take-append-drop, Text, take, Option, drop,
  refl,
}
use worldquant_workflow_v2_r.Storage.WriteQueue.{
  put_item, collect_batch, finish_batch, Worker, write_batch, new_worker,
}
use worldquant_workflow_v2_r.Storage.Database.{Item, Call, write_sqlite, Trial}
use worldquant_workflow_v2_r.Storage.Transaction.{Written, write_batch-Written, wrote, gave_up}

-- The batches that were finished, oldest first, each with whether it was committed
abbrev pub Batches : Type 0 → Type 0
Batches P = List (List (Item P) × Bool)

module _ {P : Type 0} where
  -- What the calls so far leave, by the items that were put and the batches that were finished.
  pub data Reach (batch_size : ℕ) : List (Item P) → Batches P → Worker P → Type 0 where
    started : Reach batch_size [] [] new_worker
    puts :
        {items : List (Item P)} {bs : Batches P} {w : Worker P}
        → Reach batch_size items bs w
        → (i : Item P) → Reach batch_size (items ++ i ∷ []) bs (put_item i w)
    collects :
        {items : List (Item P)} {bs : Batches P} {w : Worker P}
        → Reach batch_size items bs w
        → w.in_hand ≡ []
        → (in_time : ℕ) → Reach batch_size items bs (collect_batch batch_size in_time w)
    finishes :
        {items : List (Item P)} {bs : Batches P} {w : Worker P}
        → Reach batch_size items bs w
        → w.in_hand ≢ []
        → (trial : ℕ → Trial) (broken : Text × ℕ → Option Text)
        → Reach batch_size items
            (bs ++ (w.in_hand, (finish_batch trial broken w).1) ∷ [])
            (finish_batch trial broken w).0

  -- All the items of the batches, and the calls and the number of items of those committed
  abbrev pub items_of : Batches P → List (Item P)
  items_of [] = []
  items_of ((batch, ok) ∷ bs) = batch ++ items_of bs

  abbrev calls_if : Bool → List (Item P) → List (Call P)
  calls_if true batch = write_sqlite batch
  calls_if false batch = []

  abbrev count_if : Bool → List (Item P) → ℕ
  count_if true batch = length batch
  count_if false batch = 0

  abbrev pub committed_of : Batches P → List (Call P)
  committed_of [] = []
  committed_of ((batch, ok) ∷ bs) = calls_if ok batch ++ committed_of bs

  abbrev pub count_of : Batches P → ℕ
  count_of [] = 0
  count_of ((batch, ok) ∷ bs) = count_if ok batch + count_of bs

  items_of-append :
      (bs : Batches P) (batch : List (Item P)) (ok : Bool)
      → items_of (bs ++ (batch, ok) ∷ []) ≡ items_of bs ++ batch
  items_of-append [] batch ok = append-nil batch
  items_of-append ((b, o) ∷ bs) batch ok =
      ap (λ is. b ++ is) (items_of-append bs batch ok) ∙ sym (append_assoc b (items_of bs) batch)

  committed_of-append :
      (bs : Batches P) (batch : List (Item P)) (ok : Bool)
      → committed_of (bs ++ (batch, ok) ∷ []) ≡ committed_of bs ++ calls_if ok batch
  committed_of-append [] batch ok = append-nil (calls_if ok batch)
  committed_of-append ((b, o) ∷ bs) batch ok =
      ap (λ cs. calls_if o b ++ cs) (committed_of-append bs batch ok)
      ∙ sym (append_assoc (calls_if o b) (committed_of bs) (calls_if ok batch))

  count_of-append :
      (bs : Batches P) (batch : List (Item P)) (ok : Bool)
      → count_of (bs ++ (batch, ok) ∷ []) ≡ count_of bs + count_if ok batch
  count_of-append [] batch ok = omega arith
  count_of-append ((b, o) ∷ bs) batch ok = omega (arith, count_of-append bs batch ok)

  -- The account of a worker
  pub record Account (items : List (Item P)) (bs : Batches P) (w : Worker P) : Type 0 where
    pub in_order : items ≡ items_of bs ++ (w.in_hand ++ w.waiting)
    pub unfinished : w.unfinished_tasks ≡ length w.in_hand + length w.waiting
    pub database : w.connection ≡ record { committed = committed_of bs; open_transaction = none }
    pub counted : w.stats.sqlite_writes ≡ count_of bs

  put_item-Account :
      {items : List (Item P)} {bs : Batches P} {w : Worker P} (i : Item P)
      → Account items bs w
      → Account (items ++ i ∷ []) bs (put_item i w)
  unfolding put_item
  put_item-Account {items} {bs} {w} i h = record {
    in_order =
        ap (λ is. is ++ i ∷ []) h.in_order
        ∙ (append_assoc (items_of bs) (w.in_hand ++ w.waiting) (i ∷ [])
            ∙ ap (λ is. items_of bs ++ is) (append_assoc w.in_hand w.waiting (i ∷ [])));
    unfinished = omega (arith, h.unfinished, length-append w.waiting (i ∷ []));
    database = h.database;
    counted = h.counted;
  }

  collect_batch-Account :
      {items : List (Item P)} {bs : Batches P} {w : Worker P} (batch_size in_time : ℕ)
      → w.in_hand ≡ []
      → Account items bs w
      → Account items bs (collect_batch batch_size in_time w)
  unfolding collect_batch
  collect_batch-Account {items} {bs} {w} batch_size in_time none_yet h =
      let n = min (max 1 in_time) batch_size in
      let split = take-append-drop n w.waiting in
      record {
        in_order =
            h.in_order
            ∙ ap (λ is. items_of bs ++ is) (ap (λ is. is ++ w.waiting) none_yet ∙ sym split);
        unfinished = omega (
          arith,
          h.unfinished,
          ap length none_yet,
          ap length split,
          length-append (take n w.waiting) (drop n w.waiting),
        );
        database = h.database;
        counted = h.counted;
      }

  moved :
      (items : List (Item P)) (bs : Batches P) (w w' : Worker P) (ok : Bool)
      → items ≡ items_of bs ++ (w.in_hand ++ w.waiting)
      → w'.waiting ≡ w.waiting
      → items ≡ items_of (bs ++ (w.in_hand, ok) ∷ []) ++ w'.waiting
  moved items bs w w' ok h e =
      h
      ∙ (sym (append_assoc (items_of bs) w.in_hand w.waiting)
          ∙ (ap (λ is. is ++ w.waiting) (sym (items_of-append bs w.in_hand ok))
              ∙ ap (λ is. items_of (bs ++ (w.in_hand, ok) ∷ []) ++ is) (sym e)))

  finished-Account :
      {items : List (Item P)} {bs : Batches P} {w : Worker P} (r : Worker P × Bool)
      → Account items bs w
      → Written w w.in_hand r
      → Account items
          (bs ++ (w.in_hand, r.1) ∷ [])
          (record r.0 { in_hand = []; unfinished_tasks = r.0.unfinished_tasks - length w.in_hand })
  finished-Account {items} {bs} {w} _ h (wrote w' same c n) = record {
    in_order = moved items bs w w' true h.in_order (ap (λ k. k.0) same);
    unfinished = omega (arith, h.unfinished, ap (λ k. k.2) same, ap (λ k. length k.0) same);
    database =
        c
        ∙ ap (λ cs. record { committed = cs; open_transaction = none })
            (ap (λ k. k.committed ++ write_sqlite w.in_hand) h.database
              ∙ sym (committed_of-append bs w.in_hand true));
    counted = omega (arith, n, h.counted, count_of-append bs w.in_hand true);
  }
  finished-Account {items} {bs} {w} _ h (gave_up w' f same c s d fs) = record {
    in_order = moved items bs w w' false h.in_order (ap (λ k. k.0) same);
    unfinished = omega (arith, h.unfinished, ap (λ k. k.2) same, ap (λ k. length k.0) same);
    database =
        c
        ∙ ap (λ cs. record { committed = cs; open_transaction = none })
            (ap (λ k. k.committed) h.database
              ∙ (sym (append-nil (committed_of bs))
                  ∙ sym (committed_of-append bs w.in_hand false)));
    counted =
        omega (arith, ap (λ k. k.sqlite_writes) s, h.counted, count_of-append bs w.in_hand false);
  }

  -- In every order of puts and rounds, whatever fails: the items that were put are those of the
  -- finished batches, of the one in hand and of the queue, in the order in which they were put, each
  -- once; `unfinished_tasks`, which `flush` waits for, counts those that are not finished; the
  -- database is what the committed batches make of it, each as a whole and once, with no transaction
  -- left open; and `sqlite_writes` counts their items.
  pub Reach-Account :
      (batch_size : ℕ) (items : List (Item P)) (bs : Batches P) (w : Worker P)
      → Reach batch_size items bs w
      → Account items bs w
  unfolding finish_batch
  Reach-Account batch_size _ _ _ started = record {
    in_order = refl;
    unfinished = refl;
    database = refl;
    counted = refl;
  }
  Reach-Account batch_size _ _ _ (puts r i) = put_item-Account i (Reach-Account batch_size _ _ _ r)
  Reach-Account batch_size _ _ _ (collects r e in_time) =
      collect_batch-Account batch_size in_time e (Reach-Account batch_size _ _ _ r)
  Reach-Account batch_size _ _ _ (finishes {w = w} r e trial broken) =
      finished-Account (write_batch trial broken w.in_hand w) (Reach-Account batch_size _ _ _ r)
        (write_batch-Written trial broken w.in_hand w)
