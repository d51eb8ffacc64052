-- ===== src/Command/Restarted.antt =====
-- The start of cmd/certel/monitor.go after a run: what it prunes and drops leaves the log alone, and
-- what it loads is what the run saved.
use certel.Prelude.{
  ℕ, suc, ◌≡◌, refl, sym, ap, ◌∙◌, String, Bool, true, false, not, List, [], ◌∷◌, All, select,
  str_eq, eq_iff, Bool-cases, inl, inr,
}
use certel.Prelude.Assoc.{Assoc, lookup, without}
use certel.Alert.Types.{StateRecord}
use certel.Alert.Manager.Restart.{Distinct}
use certel.Store.Tables.{Store, StateRow, Faults, write_err}
use certel.Store.State.{load_rows, to_record, stale_keys, delete_states, prune_alert_states}
use certel.Store.Manager.{option_map}
use certel.Store.Orphans.{delete_notifiers, drop_orphaned_outbox}
use certel.Command.Logged.{log_of, either}
use certel.Command.Monitor.{keep_valid}

delete_states-log :
    (fails : Faults) (i : ℕ) (ks : List String) (s : Store)
    → log_of (delete_states fails i ks s).0 ≡ log_of s
unfolding delete_states write_err
delete_states-log fails i [] s = refl
delete_states-log fails i (k ∷ rest) s =
    let s' = record s { db = record s.db { alert_state = without k s.db.alert_state } } in
    either (fails i) (write_err true s, true) (delete_states fails (suc i) rest s') (log_of s) refl
      (delete_states-log fails (suc i) rest s')

pub prune_alert_states-log :
    (fails : Faults) (valid : String → Bool) (s : Store)
    → log_of (prune_alert_states fails valid s).0 ≡ log_of s
unfolding prune_alert_states
prune_alert_states-log fails valid s =
    either (fails 0) (s, true) (delete_states fails 1 (stale_keys valid s.db.alert_state) s)
      (log_of s) refl (delete_states-log fails 1 (stale_keys valid s.db.alert_state) s)

delete_notifiers-log :
    (fails : Faults) (i : ℕ) (names : List String) (s : Store)
    → log_of (delete_notifiers fails i names s).0 ≡ log_of s
unfolding delete_notifiers write_err
delete_notifiers-log fails i [] s = refl
delete_notifiers-log fails i (k ∷ rest) s =
    let s' = record s {
      db = record s.db {
        notification_outbox = select (λ q. not (str_eq q.notifier k)) s.db.notification_outbox;
      };
    } in
    either (fails i) (write_err true s, true) (delete_notifiers fails (suc i) rest s') (log_of s)
      refl (delete_notifiers-log fails (suc i) rest s')

pub drop_orphaned_outbox-log :
    (fails : Faults) (valid : String → Bool) (s : Store)
    → log_of (drop_orphaned_outbox fails valid s).0 ≡ log_of s
unfolding drop_orphaned_outbox
drop_orphaned_outbox-log fails valid s = elim (Bool-cases (fails 0)) [
  | inl h ↦ rw h refl
  | inr h ↦ rw h (delete_notifiers-log fails 1 _ s)
]

pub lookup-load_rows :
    (k : String) (rows : Assoc StateRow)
    → lookup k (load_rows rows) ≡ option_map to_record (lookup k rows)
unfolding lookup load_rows
lookup-load_rows k [] = refl
lookup-load_rows k ((j, row) ∷ rest) = elim (Bool-cases (str_eq j k)) [
  | inl h ↦ rw h refl
  | inr h ↦ rw h (lookup-load_rows k rest)
]

pub lookup-keep_valid :
    (valid : String → Bool) (k : String) (rows : Assoc StateRecord)
    → valid k ≡ true
    → lookup k (keep_valid valid rows) ≡ lookup k rows
unfolding lookup keep_valid
lookup-keep_valid valid k [] h = refl
lookup-keep_valid valid k ((j, st) ∷ rest) h = elim (Bool-cases (valid j)) [
  | inl e ↦ elim (Bool-cases (str_eq j k)) [
    | inl f ↦ rw (e, f) refl
    | inr f ↦ rw (e, f) (lookup-keep_valid valid k rest h)
  ]
  | inr e ↦
      let apart : str_eq j k ≡ false = elim (Bool-cases (str_eq j k)) [
        | inl f ↦
            let same : j ≡ k = (eq_iff j k).0 f in
            let both : true ≡ false = sym h ∙ ap valid (sym same) ∙ e in cc both
        | inr f ↦ f
      ] in
      rw (e, apart) (lookup-keep_valid valid k rest h)
]

All-keep_valid :
    (valid : String → Bool) (k : String) (rows : Assoc StateRecord)
    → All (λ x. str_eq x.0 k ≡ false) rows
    → All (λ x. str_eq x.0 k ≡ false) (keep_valid valid rows)
unfolding keep_valid
All-keep_valid valid k [] h = tt
All-keep_valid valid k ((j, st) ∷ rest) h = elim (Bool-cases (valid j)) [
  | inl e ↦ rw e (h.0, All-keep_valid valid k rest h.1)
  | inr e ↦ rw e (All-keep_valid valid k rest h.1)
]

pub Distinct-keep_valid :
    (valid : String → Bool) (rows : Assoc StateRecord)
    → Distinct rows
    → Distinct (keep_valid valid rows)
unfolding keep_valid
Distinct-keep_valid valid [] h = tt
Distinct-keep_valid valid ((j, st) ∷ rest) h = elim (Bool-cases (valid j)) [
  | inl e ↦ rw e (All-keep_valid valid j rest h.0, Distinct-keep_valid valid rest h.1)
  | inr e ↦ rw e (Distinct-keep_valid valid rest h.1)
]
