-- ===== src/Metrics/Queue.antt =====
-- The gauges of the outbox in internal/metrics/metrics.go, read from the store.
use certel.Prelude.{
  String, Bool, false, none, some, List, [], ◌∷◌, ◌≡◌, refl, ◌∙◌, arith, map, select, length,
  str_eq, eq_iff, Bool-cases, inl, inr, if◌then◌else◌,
}
use certel.Clock.{Time}
use certel.Config.Repeat.{contains}
use certel.Config.Repeat.Laws.{contains-sort}
use certel.Store.Tables.{Store, QueueRow, Faults}
use certel.Store.Outbox.{of_notifier}
use certel.Store.Dispatcher.{contains-distinct}
use certel.Store.Orphans.{groups, outbox_stats, stat_of as row_stat}
use certel.Metrics.{Sample, sample, number, stat_of, pending_of, outbox_pairs, collect_outbox}

stat_of-map :
    (rows : List QueueRow) (n : String) (names : List String)
    → stat_of n (map (row_stat rows) names)
      ≡ (if contains n names then some (row_stat rows n) else none)
unfolding stat_of contains
stat_of-map rows n [] = refl
stat_of-map rows n (j ∷ rest) = elim (Bool-cases (contains n rest)) [
  | inl h ↦ elim (Bool-cases (str_eq j n)) [
    | inl e ↦ rw (stat_of-map rows n rest, h, e)
    | inr e ↦ rw (stat_of-map rows n rest, h, e)
  ]
  | inr h ↦ elim (Bool-cases (str_eq j n)) [
    | inl e ↦ let same : j ≡ n = (eq_iff j n).0 e in rw (stat_of-map rows n rest, h, e, same)
    | inr e ↦ rw (stat_of-map rows n rest, h, e)
  ]
]

absent_rows :
    (n : String) (rows : List QueueRow)
    → contains n (map (λ q. q.notifier) rows) ≡ false
    → select (of_notifier n) rows ≡ []
unfolding contains
absent_rows n [] h = refl
absent_rows n (q ∷ rows) h = ground (arith, h, absent_rows n rows)

pending_of-groups :
    (rows : List QueueRow) (n : String)
    → pending_of (stat_of n (map (row_stat rows) (groups rows)))
      ≡ length (select (of_notifier n) rows)
pending_of-groups rows n =
    let known : contains n (groups rows) ≡ contains n (map (λ q. q.notifier) rows) =
      contains-sort n _ ∙ contains-distinct n _ in
    elim (Bool-cases (contains n (map (λ q. q.notifier) rows))) [
      | inl h ↦ rw (stat_of-map rows n (groups rows), known, h)
      | inr h ↦ rw (stat_of-map rows n (groups rows), known, h, absent_rows n rows h)
    ]

abbrev pub is_pending : Sample → Bool
is_pending s = str_eq s.metric "certel_notification_outbox_pending"

abbrev pub pending_sample : List QueueRow → String → Sample
pending_sample rows n =
    sample "certel_notification_outbox_pending" (n ∷ [])
      (number (length (select (of_notifier n) rows)))

outbox_pairs-pending :
    (now : Time) (rows : List QueueRow) (notifiers : List String)
    → select is_pending (outbox_pairs now (map (row_stat rows) (groups rows)) notifiers)
      ≡ map (pending_sample rows) notifiers
unfolding outbox_pairs
outbox_pairs-pending now rows [] = refl
outbox_pairs-pending now rows (n ∷ rest) =
    rw (pending_of-groups rows n, outbox_pairs-pending now rows rest)

-- A scrape whose query succeeds publishes one pending gauge for each configured notifier, in
-- order, with the number of rows that the outbox has for that notifier, and none for other
-- notifiers.
pub collect_outbox-pending :
    (now : Time) (fails : Faults) (s : Store) (notifiers : List String)
    → fails 0 ≡ false
    → select is_pending (collect_outbox now (outbox_stats fails s) notifiers)
      ≡ map (pending_sample s.db.notification_outbox) notifiers
unfolding collect_outbox outbox_stats
collect_outbox-pending now fails s notifiers h =
    rw h (outbox_pairs-pending now s.db.notification_outbox notifiers)
