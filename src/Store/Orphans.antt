-- ===== src/Store/Orphans.antt =====
-- The groups of the outbox by notifier: `DropOrphanedOutbox` and `OutboxStats` of
-- internal/store/store.go.
use certel.Prelude.{
  ℕ, suc, ◌≡◌, refl, ap, ◌∙◌, arith, String, Bool, true, false, Option, none, some, List, [], ◌∷◌,
  map, not, ◌&&◌, str_eq, eq_iff, select, All, All-map, str_refl, length, min, inl, inr, Bool-cases,
  if◌then◌else◌,
}
use certel.Clock.{Time}
use certel.Config.Repeat.{contains, sort}
use certel.Config.Repeat.Laws.{contains-sort}
use certel.Store.Tables.{Store, QueueRow, Faults, write_err}
use certel.Store.State.{time_or_zero}
use certel.Store.Outbox.{distinct, of_notifier}
use certel.Store.Dispatcher.{contains-distinct}

pub record OrphanedOutbox : Type 0 where
  pub notifier : String
  pub rows : ℕ

pub record OutboxStat : Type 0 where
  pub notifier : String
  pub pending : ℕ
  pub oldest_enqueued_at : Time

-- GROUP BY notifier, in the order of the names.
abbrev pub groups : List QueueRow → List String
groups rows = sort (distinct (map (λ q. q.notifier) rows))

abbrev orphan_of : List QueueRow → String → OrphanedOutbox
orphan_of rows name = record { notifier = name; rows = length (select (of_notifier name) rows) }

-- The loop of deletes from statement `i` on.
unfoldable pub delete_notifiers : Faults → ℕ → List String → Store → Store × Bool
delete_notifiers fails i [] s = (s, false)
delete_notifiers fails i (name ∷ rest) s =
    let later = delete_notifiers fails (suc i) rest (record s {
      db = record s.db {
        notification_outbox = select (λ q. not (of_notifier name q)) s.db.notification_outbox;
      };
    }) in
    if fails i then (write_err true s, true) else later

-- What was dropped comes back with the error of the deletes; a scan that fails drops nothing.
unfoldable pub drop_orphaned_outbox :
    Faults → (String → Bool) → Store → Store × List OrphanedOutbox × Bool
drop_orphaned_outbox fails valid s =
    let rows = s.db.notification_outbox in
    let names = select (λ name. not (valid name)) (groups rows) in
    let (s', failed) = delete_notifiers fails 1 names s in
    if fails 0 then (s, [], true) else (s', map (orphan_of rows) names, failed)

abbrev earliest : List QueueRow → ℕ
earliest [] = 0
earliest (q ∷ []) = q.enqueued_at
earliest (q ∷ r ∷ rest) = min q.enqueued_at (earliest (r ∷ rest))

abbrev pub stat_of : List QueueRow → String → OutboxStat
stat_of rows name =
    let own = select (of_notifier name) rows in
    record {
      notifier = name;
      pending = length own;
      oldest_enqueued_at = time_or_zero (earliest own);
    }

unfoldable pub outbox_stats : Faults → Store → Option (List OutboxStat)
outbox_stats fails s =
    if fails 0
    then none
    else some (map (stat_of s.db.notification_outbox) (groups s.db.notification_outbox))

abbrev not_named : List String → QueueRow → Bool
not_named names q = not (contains q.notifier names)

select-select :
    (name : String) (rest : List String) (rows : List QueueRow)
    → select (not_named rest) (select (λ q. not (of_notifier name q)) rows)
      ≡ select (not_named (name ∷ rest)) rows
unfolding contains
select-select name rest [] = refl
select-select name rest (q ∷ rows) =
    ground (arith, select-select name rest rows, eq_iff q.notifier name, eq_iff name q.notifier)

select-same :
    (p t : QueueRow → Bool) (rows : List QueueRow)
    → All (λ q. p q ≡ t q) rows
    → select p rows ≡ select t rows
select-same p t [] h = refl
select-same p t (q ∷ rest) h = ground (arith, h.0, select-same p t rest h.1)

select-everything :
    (p : QueueRow → Bool) (rows : List QueueRow)
    → ((q : QueueRow) → p q ≡ true)
    → rows ≡ select p rows
select-everything p [] h = refl
select-everything p (q ∷ rest) h = ground (arith, h q, select-everything p rest h)

-- Without an error the deletes leave the rows of no named notifier.
delete_notifiers-rows :
    (fails : Faults) (i : ℕ) (names : List String) (s : Store)
    → (delete_notifiers fails i names s).1 ≡ false
    → (delete_notifiers fails i names s).0.db.notification_outbox
      ≡ select (not_named names) s.db.notification_outbox
unfolding delete_notifiers contains
delete_notifiers-rows fails i [] s h = select-everything _ s.db.notification_outbox (λ q. refl)
delete_notifiers-rows fails i (name ∷ rest) s h = elim (Bool-cases (fails i)) [
  | inl f ↦ let no : true ≡ false = simp f at h in cc
  | inr f ↦ rw f (
      delete_notifiers-rows fails (suc i) rest _ (simp f at h)
      ∙ select-select name rest s.db.notification_outbox)
]

contains-select :
    (k : String) (p : String → Bool) (names : List String)
    → contains k (select p names) ≡ (p k && contains k names)
unfolding contains
contains-select k p [] = ground arith
contains-select k p (n ∷ rest) = elim (Bool-cases (str_eq n k)) [
  | inl e ↦
      let same : n ≡ k = ground (arith, eq_iff n k, e) in
      ground (arith, contains-select k p rest, e, ap p same)
  | inr e ↦ ground (arith, contains-select k p rest, e)
]

-- Every row is in a group.
contains-groups :
    (some_rows rows : List QueueRow)
    → All (λ q. contains q.notifier (map (λ r. r.notifier) rows) ≡ true) some_rows
    → All (λ q. contains q.notifier (groups rows) ≡ true) some_rows
contains-groups some_rows rows =
    All-map _ _ (λ q h. contains-sort q.notifier _ ∙ contains-distinct q.notifier _ ∙ h) some_rows

own_notifier :
    (rows : List QueueRow) → All (λ q. contains q.notifier (map (λ r. r.notifier) rows) ≡ true) rows
unfolding contains
own_notifier [] = tt
own_notifier (q ∷ rest) = (
  ground (arith, str_refl q.notifier),
  All-map _ _ (λ r h. ground (arith, h)) rest (own_notifier rest),
)

-- A DropOrphanedOutbox that returns no error leaves exactly the queued rows of notifiers that are
-- valid, in their order.
pub drop_orphaned_outbox-drops :
    (fails : Faults) (valid : String → Bool) (s : Store)
    → (drop_orphaned_outbox fails valid s).2 ≡ false
    → (drop_orphaned_outbox fails valid s).0.db.notification_outbox
      ≡ select (λ q. valid q.notifier) s.db.notification_outbox
unfolding drop_orphaned_outbox
drop_orphaned_outbox-drops fails valid s h = elim (Bool-cases (fails 0)) [
  | inl f ↦ let no : true ≡ false = simp f at h in cc
  | inr f ↦ rw f (
      delete_notifiers-rows fails 1 _ s (simp f at h)
      ∙ select-same _ _ s.db.notification_outbox (
          All-map _ _
            (λ q g. ground (
              arith,
              contains-select q.notifier (λ name. not (valid name))
                  (groups s.db.notification_outbox),
              g,
            ))
            s.db.notification_outbox
            (contains-groups s.db.notification_outbox s.db.notification_outbox
              (own_notifier s.db.notification_outbox))))
]
