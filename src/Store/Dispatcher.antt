-- ===== src/Store/Dispatcher.antt =====
-- The outbox of internal/store/store.go as the dispatcher of one notifier sees it.
pub mod Laws
use mathlib.Core.List.{Memᴰ}
use certel.Prelude.{
  ℕ, suc, ◌+◌, ◌≤◌, ◌<◌, ◌≡◌, ◌≢◌, refl, sym, ap, subst, ◌∙◌, arith, String, Bool, true, false,
  Option, none, some, List, [], ◌∷◌, ◌++◌, map, not, ◌&&◌, ◌||◌, ◌==◌, ltb, str_eq, eq_iff, select,
  All, All-select, All-append, Bool-cases, inl, inr, ◌⊎◌, if◌then◌else◌,
}
use certel.Config.Repeat.{contains, sort}
use certel.Alert.Types.{OutboxRow}
use certel.Alert.Dispatcher.Interface.{OutboxOps, OutboxLaws, front}
use certel.Store.Tables.{Database, Store, QueueRow, Engine, Faults, write_err}
use certel.Store.Outbox.{
  of_notifier, of_queue, oldest, next_pending, pending_keys, distinct, as_outbox_row, scanned,
  delete_outbox, fail_outbox, mark_failed,
}
use certel.Store.Outbox.Queue.{
  Increasing, queue_of, without_id, select-Increasing, oldest-Increasing, mem_of_mem-select,
  select-without_ne, select-without_self, All-mem,
}

abbrev pub outbox_ops : Faults → String → OutboxOps Store
outbox_ops fails notifier = record {
  pending_keys = pending_keys fails notifier;
  next_pending = next_pending fails notifier;
  delete_outbox = delete_outbox fails;
  fail_outbox = fail_outbox fails;
}

abbrev pub outbox_queue : String → String → Store → List OutboxRow
outbox_queue notifier k s = map as_outbox_row (queue_of notifier k s)

abbrev pub Ordered : Store → Type 0
Ordered s = Increasing s.db.notification_outbox

pub oldest-front :
    (rows : List QueueRow)
    → Increasing rows
    → scanned (oldest rows) ≡ front (map as_outbox_row rows)
unfolding oldest
oldest-front [] h = refl
oldest-front (p ∷ rest) h = ap scanned (oldest-Increasing p rest h)

mark_failed-queue :
    (id : ℕ) (err notifier k : String) (rows : List QueueRow)
    → map as_outbox_row (select (of_queue notifier k) (map (mark_failed id err) rows))
      ≡ map as_outbox_row (select (of_queue notifier k) rows)
unfolding mark_failed
mark_failed-queue id err notifier k [] = refl
mark_failed-queue id err notifier k (x ∷ rest) =
    ground (arith, mark_failed-queue id err notifier k rest)

mark_failed-All :
    (id n : ℕ) (err : String) (rows : List QueueRow)
    → All (λ q. n < q.id) rows
    → All (λ q. n < q.id) (map (mark_failed id err) rows)
unfolding mark_failed
mark_failed-All id n err [] h = tt
mark_failed-All id n err (x ∷ rest) h = (ground (arith, h.0), mark_failed-All id n err rest h.1)

mark_failed-Increasing :
    (id : ℕ) (err : String) (rows : List QueueRow)
    → Increasing rows
    → Increasing (map (mark_failed id err) rows)
unfolding mark_failed
mark_failed-Increasing id err [] h = tt
mark_failed-Increasing id err (x ∷ rest) h =
    let same : (mark_failed id err x).id ≡ x.id = ground arith in
    (
      subst (λ n. All (λ q. n < q.id) (map (mark_failed id err) rest)) (sym same)
          (mark_failed-All id x.id err rest h.0),
      mark_failed-Increasing id err rest h.1,
    )

-- The first row of a queue is a row of the table.
queue-head :
    (rows : List QueueRow) (row : OutboxRow) (later : List OutboxRow)
    → map as_outbox_row rows ≡ row ∷ later
    → (p : QueueRow) × (rest : List QueueRow) × (rows ≡ p ∷ rest)
      × (p.id ≡ row.id)
      × (map as_outbox_row rest ≡ later)
queue-head [] row later e = cc
queue-head (p ∷ rest) row later e = (p, rest, refl, ground (arith, e), ground (arith, e))

select-passes {ℓ} :
    {A : Type ℓ} (t : A → Bool) (xs : List A) (p : A) (rest : List A)
    → select t xs ≡ p ∷ rest
    → t p ≡ true
select-passes t [] p rest e = cc
select-passes t (x ∷ xs) p rest e = elim (Bool-cases (t x)) [
  | inl hit ↦ let q = simp hit at e in ground (arith, q, hit, select-passes t xs p rest)
  | inr miss ↦ let q : select t xs ≡ p ∷ rest = simp miss at e in select-passes t xs p rest q
]

delete_outbox-table :
    (fails : Faults) (id : ℕ) (s : Store)
    → (delete_outbox fails id s).1 ≡ false
    → (delete_outbox fails id s).0.db.notification_outbox ≡ without_id id s.db.notification_outbox
unfolding delete_outbox
delete_outbox-table fails id s h = ground (arith, h)

pub contains-distinct :
    (k : String) (keys : List String) → contains k (distinct keys) ≡ contains k keys
unfolding contains distinct
contains-distinct k [] = refl
contains-distinct k (j ∷ rest) =
    ground (arith, contains-distinct k rest, contains-distinct j rest, eq_iff j k)

-- The target of every row of a notifier is among its targets.
pub contains-target :
    (notifier k : String) (rows : List QueueRow)
    → (select (of_queue notifier k) rows ≡ [])
      ⊎ (contains k (map (λ q. q.target_key) (select (of_notifier notifier) rows)) ≡ true)
unfolding contains
contains-target notifier k [] = inl refl
contains-target notifier k (x ∷ rest) = ground (arith, contains-target notifier k rest)

module _ (fails : Faults) (notifier : String) where
  queued_row :
      (k : String) (row : OutboxRow) (later : List OutboxRow) (s : Store)
      → outbox_queue notifier k s ≡ row ∷ later
      → (p : QueueRow) × (rest : List QueueRow) × (queue_of notifier k s ≡ p ∷ rest)
        × (p.id ≡ row.id)
        × (map as_outbox_row rest ≡ later)
  queued_row k row later s e = queue-head (queue_of notifier k s) row later e

  pub delete_outbox-front :
      (k : String) (row : OutboxRow) (later : List OutboxRow) (s : Store)
      → Ordered s
      → outbox_queue notifier k s ≡ row ∷ later
      → (delete_outbox fails row.id s).1 ≡ false
      → outbox_queue notifier k (delete_outbox fails row.id s).0 ≡ later
  delete_outbox-front k row later s v e removed =
      let (p, rest, q, same, tail) = queued_row k row later s e in
      let cut = select-without_self (of_queue notifier k) p s.db.notification_outbox rest v q in
      ap (λ rows. map as_outbox_row (select (of_queue notifier k) rows))
        (delete_outbox-table fails row.id s removed)
      ∙ ap
          (λ n.
            map as_outbox_row
              (select (of_queue notifier k) (without_id n s.db.notification_outbox)))
          (sym same)
      ∙ ap (map as_outbox_row) cut
      ∙ tail

  pub delete_outbox-kept :
      (id : ℕ) (s : Store)
      → (delete_outbox fails id s).1 ≡ true
      → (delete_outbox fails id s).0.db ≡ s.db
  unfolding delete_outbox write_err
  delete_outbox-kept id s h = ground (arith, h)

  pub delete_outbox-other :
      (k j : String) (row : OutboxRow) (later : List OutboxRow) (s : Store)
      → Ordered s
      → outbox_queue notifier k s ≡ row ∷ later
      → k ≢ j
      → outbox_queue notifier j (delete_outbox fails row.id s).0 ≡ outbox_queue notifier j s
  delete_outbox-other k j row later s v e n = elim (Bool-cases (delete_outbox fails row.id s).1) [
    | inl failed ↦
        ap (λ db. map as_outbox_row (select (of_queue notifier j) db.notification_outbox))
          (delete_outbox-kept row.id s failed)
    | inr removed ↦
        let (p, rest, q, same, _) = queued_row k row later s e in
        let passes = select-passes (of_queue notifier k) s.db.notification_outbox p rest q in
        let misses : of_queue notifier j p ≡ false =
          ground (arith, passes, n, eq_iff p.target_key k, eq_iff p.target_key j) in
        let stays =
          select-without_ne (of_queue notifier j) p s.db.notification_outbox v
            (mem_of_mem-select (of_queue notifier k) p _ (subst (Memᴰ p) (sym q) (Memᴰ.head refl)))
            misses in
        ap (λ rows. map as_outbox_row (select (of_queue notifier j) rows))
          (delete_outbox-table fails row.id s removed)
        ∙ ap
            (λ n.
              map as_outbox_row
                (select (of_queue notifier j) (without_id n s.db.notification_outbox)))
            (sym same)
        ∙ ap (map as_outbox_row) stays
  ]

  pub delete_outbox-Ordered :
      (id : ℕ) (s : Store) → Ordered s → Ordered (delete_outbox fails id s).0
  unfolding delete_outbox write_err
  delete_outbox-Ordered id s v = elim (Bool-cases (fails 0)) [
    | inl f ↦ rw f v
    | inr f ↦ rw f (select-Increasing _ s.db.notification_outbox v)
  ]

  pub fail_outbox-Ordered :
      (id : ℕ) (err : String) (s : Store) → Ordered s → Ordered (fail_outbox fails id err s).0
  unfolding fail_outbox write_err
  fail_outbox-Ordered id err s v = elim (Bool-cases (fails 0)) [
    | inl f ↦ rw f v
    | inr f ↦ rw f (mark_failed-Increasing id err s.db.notification_outbox v)
  ]

  pub fail_outbox-queue :
      (id : ℕ) (err : String) (j : String) (s : Store)
      → outbox_queue notifier j (fail_outbox fails id err s).0 ≡ outbox_queue notifier j s
  unfolding fail_outbox write_err
  fail_outbox-queue id err j s = elim (Bool-cases (fails 0)) [
    | inl f ↦ rw f refl
    | inr f ↦ rw f (mark_failed-queue id err notifier j s.db.notification_outbox)
  ]
