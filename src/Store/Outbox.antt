-- ===== src/Store/Outbox.antt =====
-- The outbox of internal/store/store.go: `Enqueue`, the view of one notifier, and what the dispatcher
-- writes back.
pub mod Queue
use certel.Prelude.{
  ℕ, suc, ◌+◌, String, Bool, true, false, Option, none, some, List, [], ◌∷◌, ◌++◌, map, not, ◌&&◌,
  ◌||◌, ◌==◌, ltb, str_eq, select, length, if◌then◌else◌,
}
use certel.Clock.{Time, unix}
use certel.Config.Repeat.{contains, sort}
use certel.Alert.Types.{StateRecord, AlertEvent, Delivery, OutboxRow}
use certel.Store.Tables.{Database, Store, AlertRow, QueueRow, Engine, Faults, write_err}
use certel.Store.State.{upsert_state}

abbrev pub queue_ids : List QueueRow → List ℕ
queue_ids = map (λ q. q.id)

abbrev pub log_ids : List AlertRow → List ℕ
log_ids = map (λ a. a.id)

module _ (e : Engine) where
  unfoldable pub insert_alert : AlertEvent → Delivery → Database → Database
  insert_alert ev d db = record db {
    alert_log =
        db.alert_log
        ++ record {
          id = e.new_id (log_ids db.alert_log);
          target_key = ev.target_key;
          notifier = d.notifier;
          address = ev.address;
          logged_at = unix ev.at;
          status = d.status;
          severity = d.severity;
        }
          ∷ [];
  }

  unfoldable pub insert_queued : AlertEvent → Delivery → Database → Database
  insert_queued ev d db = record db {
    notification_outbox =
        db.notification_outbox
        ++ record {
          id = e.new_id (queue_ids db.notification_outbox);
          target_key = ev.target_key;
          notifier = d.notifier;
          body = d.body;
          enqueued_at = unix ev.at;
          attempts_count = 0;
          last_error = "";
        }
          ∷ [];
  }

  -- The loop of `Enqueue` from statement `i` on, and the commit; `none` is an error.
  unfoldable pub insert_deliveries :
      Faults → ℕ → AlertEvent → List Delivery → Database → Option Database
  unfolding insert_alert insert_queued
  insert_deliveries fails i ev [] db = if fails i then none else some db
  insert_deliveries fails i ev (d ∷ ds) db =
      let rest =
        insert_deliveries fails (i + 2) ev ds (insert_queued ev d (insert_alert ev d db)) in
      if fails i || fails (i + 1) then none else rest

  -- The transaction: begin, the upsert, the loop and the commit.
  unfoldable pub transaction :
      Faults → StateRecord → AlertEvent → List Delivery → Database → Option Database
  transaction fails st ev ds db =
      if fails 0 || fails 1
      then none
      else insert_deliveries fails 2 ev ds (upsert_state ev.target_key st db)

  abbrev pub finish : Store → Option Database → Store × Bool
  finish s none = (write_err true s, true)
  finish s (some db) = (record s { db = db }, false)

  -- `Enqueue`: what an error leaves is rolled back.
  unfoldable pub enqueue : Faults → StateRecord → AlertEvent → List Delivery → Store → Store × Bool
  enqueue fails st ev ds s = finish s (transaction fails st ev ds s.db)

-- SELECT DISTINCT.
unfoldable pub distinct : List String → List String
distinct [] = []
distinct (k ∷ rest) = let more = distinct rest in if contains k more then more else k ∷ more

abbrev pub of_notifier : String → QueueRow → Bool
of_notifier notifier q = str_eq q.notifier notifier

abbrev pub of_queue : String → String → QueueRow → Bool
of_queue notifier target_key q = str_eq q.notifier notifier && str_eq q.target_key target_key

unfoldable pub pending_keys : Faults → String → Store → Option (List String)
unfolding distinct sort
pending_keys fails notifier s =
    if fails 0
    then none
    else some (
        sort (
          distinct
            (map (λ q. q.target_key) (select (of_notifier notifier) s.db.notification_outbox))))

abbrev smaller : QueueRow → Option QueueRow → QueueRow
smaller q none = q
smaller q (some q') = if ltb q'.id q.id then q' else q

-- ORDER BY id LIMIT 1.
unfoldable pub oldest : List QueueRow → Option QueueRow
oldest [] = none
oldest (q ∷ rest) = some (smaller q (oldest rest))

abbrev pub as_outbox_row : QueueRow → OutboxRow
as_outbox_row q = record { id = q.id; target_key = q.target_key; body = q.body }

abbrev pub scanned : Option QueueRow → Option OutboxRow
scanned none = none
scanned (some q) = some (as_outbox_row q)

-- The outer `none` is an error, the inner one an empty queue.
unfoldable pub next_pending : Faults → String → String → Store → Option (Option OutboxRow)
next_pending fails notifier target_key s =
    if fails 0
    then none
    else some (scanned (oldest (select (of_queue notifier target_key) s.db.notification_outbox)))

unfoldable pub delete_outbox : Faults → ℕ → Store → Store × Bool
delete_outbox fails id s = if fails 0 then (write_err true s, true) else (
  record s {
    db = record s.db {
      notification_outbox = select (λ q. not (q.id == id)) s.db.notification_outbox;
    };
  },
  false,
)

unfoldable pub mark_failed : ℕ → String → QueueRow → QueueRow
mark_failed id err q =
    if q.id == id then record q { attempts_count = suc q.attempts_count; last_error = err } else q

unfoldable pub fail_outbox : Faults → ℕ → String → Store → Store × Bool
unfolding mark_failed
fail_outbox fails id err s = if fails 0 then (write_err true s, true) else (
  record s {
    db = record s.db { notification_outbox = map (mark_failed id err) s.db.notification_outbox };
  },
  false,
)
