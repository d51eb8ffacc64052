-- ===== src/Store/Dispatcher/Laws.antt =====
-- The outbox of internal/store/store.go keeps what the dispatcher relies on.
use mathlib.Core.Option.{some-injective}
use certel.Prelude.{
  ◌||◌, ℕ, ◌+◌, ◌<◌, ◌≡◌, refl, sym, ap, subst, ◌∙◌, String, true, none, some, List, [], ◌∷◌, ◌++◌,
  map, select, All, All-append, Bool-cases, inl, inr, ◌⊎◌,
}
use certel.Config.Repeat.{contains}
use certel.Config.Repeat.Laws.{contains-sort}
use certel.Alert.Types.{StateRecord, AlertEvent, Delivery}
use certel.Alert.Dispatcher.Interface.{OutboxLaws, front}
use certel.Store.Tables.{Database, Store, QueueRow, Engine, Faults}
use certel.Store.State.{upsert_state}
use certel.Store.Outbox.{
  of_notifier, of_queue, queue_ids, next_pending, pending_keys, distinct, as_outbox_row, enqueue,
  transaction, insert_deliveries, insert_queued, insert_alert,
}
use certel.Store.Manager.{enqueue_atomic, unless_none}
use certel.Store.Outbox.Queue.{Increasing, queue_of, select-Increasing}
use certel.Store.Dispatcher.{
  outbox_ops, outbox_queue, Ordered, oldest-front, contains-distinct, contains-target,
  delete_outbox-front, delete_outbox-kept, delete_outbox-other, delete_outbox-Ordered,
  fail_outbox-Ordered, fail_outbox-queue,
}

module _ (fails : Faults) (notifier : String) where
  next_pending-front :
      (k : String) (s : Store)
      → Ordered s
      → (next_pending fails notifier k s ≡ none)
        ⊎ (next_pending fails notifier k s ≡ some (front (outbox_queue notifier k s)))
  unfolding next_pending
  next_pending-front k s v = elim (Bool-cases (fails 0)) [
    | inl f ↦ inl (rw f refl)
    | inr f ↦ inr (
        rw f (
          ap some (
            oldest-front (queue_of notifier k s) (select-Increasing _ s.db.notification_outbox v))))
  ]

  abbrev targets : Store → List String
  targets s = map (λ q. q.target_key) (select (of_notifier notifier) s.db.notification_outbox)

  pending_keys-all :
      (s : Store)
      → (pending_keys fails notifier s ≡ none)
        ⊎ ((keys : List String) × (pending_keys fails notifier s ≡ some keys)
            × ((j : String) → (outbox_queue notifier j s ≡ []) ⊎ (contains j keys ≡ true)))
  unfolding pending_keys
  pending_keys-all s = elim (Bool-cases (fails 0)) [
    | inl f ↦ inl (rw f refl)
    | inr f ↦ inr (
      _,
      rw f refl,
      λ j. elim (contains-target notifier j s.db.notification_outbox) [
        | inl nothing ↦ inl (ap (map as_outbox_row) nothing)
        | inr named ↦
            inr (contains-sort j (distinct (targets s)) ∙ contains-distinct j (targets s) ∙ named)
      ],
    )
  ]

  -- The outbox of one notifier, whichever statements fail, holds one queue for each target: a
  -- scan names every target that has a row, a read gives the front of a queue or fails, a delete
  -- of the front takes that row alone away or fails and changes nothing, and a row that is marked
  -- keeps its place, while ids grow along the table, which each of these keeps.
  pub outbox_laws : OutboxLaws (outbox_ops fails notifier) Ordered (outbox_queue notifier)
  outbox_laws = record {
    pending-all = λ s v. pending_keys-all s;
    next-front = next_pending-front;
    delete-Valid = delete_outbox-Ordered fails notifier;
    delete-kept = λ id j s failed.
        ap (λ db. map as_outbox_row (select (of_queue notifier j) db.notification_outbox))
          (delete_outbox-kept fails notifier id s failed);
    delete-front = delete_outbox-front fails notifier;
    delete-other = delete_outbox-other fails notifier;
    fail-Valid = fail_outbox-Ordered fails notifier;
    fail-queue = fail_outbox-queue fails notifier;
  }

All-map-id :
    (n : ℕ) (rows : List QueueRow) → All (λ i. i < n) (queue_ids rows) → All (λ q. q.id < n) rows
All-map-id n [] h = tt
All-map-id n (x ∷ rest) h = (h.0, All-map-id n rest h.1)

Increasing-snoc :
    (rows : List QueueRow) (q : QueueRow)
    → Increasing rows
    → All (λ p. p.id < q.id) rows
    → Increasing (rows ++ q ∷ [])
Increasing-snoc [] q h k = (tt, tt)
Increasing-snoc (x ∷ rest) q h k =
    (All-append (λ p. x.id < p.id) rest (q ∷ []) h.0 (k.0, tt), Increasing-snoc rest q h.1 k.1)

module _ (e : Engine) where
  insert_queued-Increasing :
      (ev : AlertEvent) (d : Delivery) (db : Database)
      → Increasing db.notification_outbox
      → Increasing (insert_queued e ev d (insert_alert e ev d db)).notification_outbox
  unfolding insert_queued insert_alert
  insert_queued-Increasing ev d db v =
      Increasing-snoc db.notification_outbox _ v
        (All-map-id _ db.notification_outbox (e.new_id_above (queue_ids db.notification_outbox)))

  insert_deliveries-Increasing :
      (fails : Faults) (i : ℕ) (ev : AlertEvent) (ds : List Delivery) (db db' : Database)
      → Increasing db.notification_outbox
      → insert_deliveries e fails i ev ds db ≡ some db'
      → Increasing db'.notification_outbox
  unfolding insert_deliveries
  insert_deliveries-Increasing fails i ev [] db db' v h =
      subst (λ d. Increasing d.notification_outbox)
        (some-injective _ _ (unless_none (fails i) (some db) h)) v
  insert_deliveries-Increasing fails i ev (d ∷ ds) db db' v h =
      let next = insert_queued e ev d (insert_alert e ev d db) in
      insert_deliveries-Increasing fails (i + 2) ev ds next db' (insert_queued-Increasing ev d db v)
        (unless_none (fails i || fails (i + 1)) _ h)

  -- An enqueue keeps the ids growing along the outbox, whichever statements fail.
  pub enqueue-Ordered :
      (fails : Faults) (st : StateRecord) (ev : AlertEvent) (ds : List Delivery) (s : Store)
      → Ordered s
      → Ordered (enqueue e fails st ev ds s).0
  unfolding transaction upsert_state
  enqueue-Ordered fails st ev ds s v = elim (enqueue_atomic e fails st ev ds s) [
    | inl (_, same, _) ↦ subst (λ d. Increasing d.notification_outbox) (sym same) v
    | inr (_, tx, _) ↦
        insert_deliveries-Increasing fails 2 ev ds (upsert_state ev.target_key st s.db) _ v
          (unless_none (fails 0 || fails 1) _ tx)
  ]
