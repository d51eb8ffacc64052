-- ===== src/Examples/Sending.antt =====
-- A webhook that fails once, and a notifier that has left the configuration.
use certel.Prelude.{ℕ, suc, ◌≡◌, refl, none, [], ◌∷◌, String, Bool, str_eq, select}
use certel.Prelude.Int.{pos}
use certel.Alert.Sender.{Client, answered, send}
use certel.Alert.Sender.Retries.{Told, send-Told}
use certel.Config.Repeat.{contains, sort}
use certel.Store.Outbox.{distinct}
use certel.Store.Orphans.{drop_orphaned_outbox, drop_orphaned_outbox-drops, delete_notifiers}
use certel.Store.Tables.{Store, QueueRow, no_faults, empty_database}

abbrev flaky_endpoint : Client ℕ
flaky_endpoint = record {
  build = none;
  post = λ body n. elim n [ ℕ.zero ↦ (1, answered 503) | ℕ.suc k ↦ (suc (suc k), answered 200) ];
  wait = λ d n. (n, none);
}

send-Told_example : Told 3 2 (send flaky_endpoint (pos 2) [] 0)
send-Told_example = send-Told flaky_endpoint (pos 2) [] 0

abbrev orphan : String → QueueRow
orphan notifier = record {
  id = 1;
  target_key = "a";
  notifier = notifier;
  body = [];
  enqueued_at = 0;
  attempts_count = 0;
  last_error = "";
}

abbrev renamed : Store
renamed = record {
  db = record empty_database { notification_outbox = orphan "old" ∷ orphan "pager" ∷ [] };
  write_errors = 0;
}

abbrev is_pager : String → Bool
is_pager name = str_eq name "pager"

drop_orphaned_outbox-drops_example :
    (drop_orphaned_outbox no_faults is_pager renamed).0.db.notification_outbox
    ≡ select (λ q. is_pager q.notifier) renamed.db.notification_outbox
unfolding drop_orphaned_outbox delete_notifiers distinct sort contains
drop_orphaned_outbox-drops_example = drop_orphaned_outbox-drops no_faults is_pager renamed refl
