-- ===== src/Store/Reliable.antt =====
-- A store of internal/store/store.go whose statements all succeed.
use certel.Prelude.{String, ℕ, ◌+◌, false, some, none, List, [], ◌∷◌, ◌≡◌, refl, ap}
use certel.Alert.Types.{Bytes, AlertEvent, Delivery}
use certel.Alert.Dispatcher.Healthy.{Healthy}
use certel.Alert.Dispatcher.Interface.{SenderOps}
use certel.Alert.Manager.Saved.{IsReliable}
use certel.Store.Dispatcher.{outbox_ops}
use certel.Store.Manager.{store_ops}
use certel.Store.Outbox.{
  enqueue, transaction, insert_deliveries, insert_alert, insert_queued, finish, pending_keys,
  next_pending, delete_outbox,
}
use certel.Store.State.{save_alert_state, upsert_state}
use certel.Store.Tables.{Database, Engine, no_faults}

insert_deliveries-no_faults :
    (e : Engine) (i : ℕ) (ev : AlertEvent) (ds : List Delivery) (db : Database)
    → (db' : Database) × (insert_deliveries e no_faults i ev ds db ≡ some db')
unfolding insert_deliveries
insert_deliveries-no_faults e i ev [] db = (db, refl)
insert_deliveries-no_faults e i ev (d ∷ ds) db =
    insert_deliveries-no_faults e (i + 2) ev ds (insert_queued e ev d (insert_alert e ev d db))

-- When no statement fails, no write of the decision does.
pub store_ops-IsReliable : (e : Engine) → IsReliable (store_ops e no_faults)
unfolding save_alert_state enqueue transaction
store_ops-IsReliable e = record {
  saves = λ k rec s. refl;
  enqueues = λ rec ev ds s.
      let (db', committed) =
        insert_deliveries-no_faults e 2 ev ds (upsert_state ev.target_key rec s.db) in
      ap (λ o. (finish e s o).1) committed;
}

-- When no statement fails, no read or write of the dispatcher does.
pub outbox_ops-Healthy :
    {W : Type 0} (notifier : String) (sender : SenderOps W)
    → ((w : W) → sender.cancelled w ≡ false)
    → ((body : Bytes) (w : W) → (sender.send body w).1 ≡ none)
    → Healthy (outbox_ops no_faults notifier) sender
unfolding pending_keys next_pending delete_outbox
outbox_ops-Healthy notifier sender runs sends = record {
  runs = runs;
  sends = sends;
  scans = λ s e. cc;
  reads = λ k s e. cc;
  deletes = λ id s. refl;
}
