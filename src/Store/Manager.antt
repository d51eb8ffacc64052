-- ===== src/Store/Manager.antt =====
-- The store as the decision sees it: the operations of its interface, what they show, and the laws
-- that the decision relies on.
use mathlib.Core.List.{append-nil, append_assoc, map-append}
use mathlib.Core.Option.{some-injective}
use certel.Prelude.{
  ℕ, ◌+◌, ◌≡◌, refl, sym, subst, ◌⊎◌, ap, ◌∙◌, arith, String, Bool, true, false, Option, none, some,
  List, [], ◌∷◌, ◌++◌, map, ◌||◌, str_eq, if◌then◌else◌, Bool-cases, inl, inr,
}
use certel.Prelude.Assoc.{lookup, lookup-insert}
use certel.Clock.{zero_time}
use certel.Alert.Types.{StateRecord, AlertEvent, Delivery}
use certel.Alert.Manager.Interface.{
  StoreOps, StoreView, StoreLaws, Queued, Logged, as_queued, as_logged,
}
use certel.Store.Tables.{Database, Store, QueueRow, AlertRow, Engine, Faults, write_err}
use certel.Store.State.{
  to_row, to_record, upsert_state, save_alert_state, unix_or_zero, time_or_zero,
}
use certel.Store.Outbox.{enqueue, transaction, insert_deliveries, insert_alert, insert_queued}
use certel.Store.Logs.{recent_probe_statuses}

abbrev pub store_ops : Engine → Faults → StoreOps Store
store_ops e fails = record {
  save_alert_state = save_alert_state fails;
  enqueue = enqueue e fails;
  recent_probe_statuses = recent_probe_statuses fails;
}

abbrev pub option_map {ℓ} : {A B : Type ℓ} → (A → B) → Option A → Option B
option_map f none = none
option_map f (some a) = some (f a)

abbrev pub row_queued : QueueRow → Queued
row_queued q = record { target_key = q.target_key; notifier = q.notifier; body = q.body }

abbrev pub row_logged : AlertRow → Logged
row_logged a = record {
  target_key = a.target_key;
  notifier = a.notifier;
  status = a.status;
  severity = a.severity;
}

abbrev pub store_view : StoreView Store
store_view = record {
  saved = λ s k. option_map to_record (lookup k s.db.alert_state);
  queued = λ s. map row_queued s.db.notification_outbox;
  logged = λ s. map row_logged s.db.alert_log;
  rounded = λ rec. to_record (to_row rec);
}

-- What the loop of `Enqueue` leaves when no statement fails.
record Extends (ev : AlertEvent) (ds : List Delivery) (db db' : Database) : Type 0 where
  states : db'.alert_state ≡ db.alert_state
  queue :
      map row_queued db'.notification_outbox
      ≡ map row_queued db.notification_outbox ++ map (as_queued ev.target_key) ds
  history :
      map row_logged db'.alert_log ≡ map row_logged db.alert_log ++ map (as_logged ev.target_key) ds

pub unless_none {ℓ} :
    {A : Type ℓ} (b : Bool) (o : Option A) {a : A} → (if b then none else o) ≡ some a → o ≡ some a
unless_none true o h = cc
unless_none false o h = h

Extends-refl : (ev : AlertEvent) (db : Database) → Extends ev [] db db
Extends-refl ev db = record {
  states = refl;
  queue = sym (append-nil _);
  history = sym (append-nil _);
}

map-snoc {ℓ κ} :
    {A : Type ℓ} {B : Type κ} (f : A → B) (xs : List A) (x : A) (ys : List B)
    → map f (xs ++ x ∷ []) ++ ys ≡ map f xs ++ f x ∷ ys
map-snoc f xs x ys = simp (map-append, append_assoc)

insert_deliveries-some :
    (e : Engine) (fails : Faults) (i : ℕ) (ev : AlertEvent) (ds : List Delivery) (db db' : Database)
    → insert_deliveries e fails i ev ds db ≡ some db'
    → Extends ev ds db db'
unfolding insert_deliveries
insert_deliveries-some e fails i ev [] db db' h =
    subst (Extends ev [] db) (some-injective _ _ (unless_none (fails i) (some db) h))
      (Extends-refl ev db)
insert_deliveries-some e fails i ev (d ∷ ds) db db' h =
    let rest =
      insert_deliveries-some e fails (i + 2) ev ds (insert_queued e ev d (insert_alert e ev d db))
        db' (unless_none (fails i || fails (i + 1)) _ h) in
    record {
      states = rest.states;
      queue =
          rest.queue
          ∙ map-snoc row_queued db.notification_outbox _ (map (as_queued ev.target_key) ds);
      history =
          rest.history ∙ map-snoc row_logged db.alert_log _ (map (as_logged ev.target_key) ds);
    }

transaction-some :
    (e : Engine) (fails : Faults) (st : StateRecord) (ev : AlertEvent) (ds : List Delivery)
    (db db' : Database)
    → transaction e fails st ev ds db ≡ some db'
    → Extends ev ds (upsert_state ev.target_key st db) db'
unfolding transaction
transaction-some e fails st ev ds db db' h =
    insert_deliveries-some e fails 2 ev ds (upsert_state ev.target_key st db) db'
      (unless_none (fails 0 || fails 1) _ h)

-- An enqueue either returns an error, leaves the database as it was and counts one failed write,
-- or commits the whole transaction and counts none.
pub enqueue_atomic :
    (e : Engine) (fails : Faults) (st : StateRecord) (ev : AlertEvent) (ds : List Delivery)
    (s : Store)
    → let (s', failed) = enqueue e fails st ev ds s in
      ((failed ≡ true) × (s'.db ≡ s.db) × (s'.write_errors ≡ s.write_errors + 1))
      ⊎ ((failed ≡ false)
          × (transaction e fails st ev ds s.db ≡ some s'.db)
          × (s'.write_errors ≡ s.write_errors))
unfolding enqueue write_err
enqueue_atomic e fails st ev ds s = ground arith

lookup-upsert :
    (k j : String) (st : StateRecord) (db : Database)
    → option_map to_record (lookup j (upsert_state k st db).alert_state) ≡ (
        if str_eq k j
        then some (to_record (to_row st))
        else option_map to_record (lookup j db.alert_state))
unfolding upsert_state
lookup-upsert k j st db = simp lookup-insert (ground arith)

-- What a field of the database shows after an enqueue: as before, or as the transaction left it.
enqueue-shows {ℓ} :
    {A : Type ℓ} (show : Database → A) (after : A) (e : Engine) (fails : Faults) (st : StateRecord)
    (ev : AlertEvent) (ds : List Delivery) (s : Store)
    → ((db' : Database) → Extends ev ds (upsert_state ev.target_key st s.db) db' → show db' ≡ after)
    → show (enqueue e fails st ev ds s).0.db
      ≡ (if (enqueue e fails st ev ds s).1 then show s.db else after)
enqueue-shows show after e fails st ev ds s committed = elim (enqueue_atomic e fails st ev ds s) [
  | inl (failed, same, _) ↦ rw failed (ap show same)
  | inr (passed, tx, _) ↦ rw passed (committed _ (transaction-some e fails st ev ds s.db _ tx))
]

module _ (e : Engine) (fails : Faults) where
  rounded-unset : (rec : StateRecord) → rec.last_alert_at ≡ zero_time → to_record (to_row rec) ≡ rec
  unfolding to_record to_row unix_or_zero time_or_zero
  rounded-unset rec h = ground arith

  saved-save :
      (k j : String) (rec : StateRecord) (s : Store)
      → store_view.saved (save_alert_state fails k rec s).0 j ≡ (
          if (save_alert_state fails k rec s).1
          then store_view.saved s j
          else if str_eq k j
          then some (to_record (to_row rec))
          else store_view.saved s j)
  unfolding save_alert_state write_err
  saved-save k j rec s = elim (Bool-cases (fails 0)) [
    | inl f ↦ rw f refl
    | inr f ↦ rw f (lookup-upsert k j rec s.db)
  ]

  save-shows {ℓ} :
      {A : Type ℓ} (show : Database → A) (k : String) (rec : StateRecord) (s : Store)
      → show (upsert_state k rec s.db) ≡ show s.db
      → show (save_alert_state fails k rec s).0.db ≡ show s.db
  unfolding save_alert_state write_err
  save-shows show k rec s same = elim (Bool-cases (fails 0)) [
    | inl f ↦ rw f refl
    | inr f ↦ rw f same
  ]

pub store_laws : (e : Engine) (fails : Faults) → StoreLaws (store_ops e fails) store_view
unfolding upsert_state
store_laws e fails = record {
  rounded-unset = rounded-unset e fails;
  saved-save = saved-save e fails;
  queued-save =
      λ k rec s. save-shows e fails (λ db. map row_queued db.notification_outbox) k rec s refl;
  logged-save = λ k rec s. save-shows e fails (λ db. map row_logged db.alert_log) k rec s refl;
  saved-enqueue = λ rec ev ds j s.
      enqueue-shows (λ db. option_map to_record (lookup j db.alert_state)) _ e fails rec ev ds s
        (λ db' x.
          ap (λ rows. option_map to_record (lookup j rows)) x.states
          ∙ lookup-upsert ev.target_key j rec s.db);
  queued-enqueue = λ rec ev ds s.
      enqueue-shows (λ db. map row_queued db.notification_outbox) _ e fails rec ev ds s
        (λ db' x. x.queue);
  logged-enqueue = λ rec ev ds s.
      enqueue-shows (λ db. map row_logged db.alert_log) _ e fails rec ev ds s (λ db' x. x.history);
}
