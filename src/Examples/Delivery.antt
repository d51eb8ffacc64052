-- ===== src/Examples/Delivery.antt =====
-- The dispatcher on a queue of two rows.
use certel.Prelude.{ℕ, suc, ◌+◌, ◌≡◌, refl, arith, String, false, none, some, [], ◌∷◌}
use certel.Alert.Dispatcher.{Drained, drain_target, dispatch_once}
use certel.Alert.Dispatcher.Drain.{Ends, drain_target_ends}
use certel.Alert.Dispatcher.Healthy.{dispatch_once_empties}
use certel.Alert.Dispatcher.Interface.{SenderOps}
use certel.Store.Dispatcher.{outbox_ops, outbox_queue}
use certel.Store.Dispatcher.Laws.{outbox_laws}
use certel.Store.Reliable.{outbox_ops-Healthy}
use certel.Store.Tables.{Store, QueueRow, no_faults, empty_database}

abbrev queued : ℕ → String → QueueRow
queued id target_key = record {
  id = id;
  target_key = target_key;
  notifier = "pager";
  body = id ∷ [];
  enqueued_at = 0;
  attempts_count = 0;
  last_error = "";
}

abbrev backlog : Store
backlog = record {
  db = record empty_database {
    notification_outbox = queued 1 "a" ∷ queued 2 "b" ∷ queued 3 "a" ∷ [];
  };
  write_errors = 0;
}

-- The world counts the sends, and the second one fails.
abbrev flaky : SenderOps ℕ
flaky = record {
  send = λ body n. elim n [ ℕ.zero ↦ (1, none) | ℕ.suc k ↦ (k + 2, some "503") ];
  cancelled = λ n. false;
}

abbrev steady : SenderOps ℕ
steady = record { send = λ body n. (suc n, none); cancelled = λ n. false }

drain_target_ends_example :
    Ends
      (outbox_ops no_faults "pager")
      flaky
      (outbox_laws no_faults "pager")
      "a"
      backlog
      (drain_target (outbox_ops no_faults "pager") flaky 3 "a" backlog 0)
drain_target_ends_example =
    drain_target_ends (outbox_ops no_faults "pager") flaky (outbox_laws no_faults "pager") "a" 3
      backlog 0 ((omega arith, (omega arith, tt)), ((omega arith, tt), (tt, tt))) (omega arith)

dispatch_once_empties_example :
    (d : Drained Store ℕ) × (dispatch_once (outbox_ops no_faults "pager") steady 4 backlog 0
      ≡ some d)
    × ((j : String) → outbox_queue "pager" j d.store ≡ [])
dispatch_once_empties_example =
    dispatch_once_empties (outbox_ops no_faults "pager") steady (outbox_laws no_faults "pager")
      (outbox_ops-Healthy "pager" steady (λ w. refl) (λ body w. refl)) 4 backlog 0
      ((omega arith, (omega arith, tt)), ((omega arith, tt), (tt, tt))) (λ j. ground arith)
