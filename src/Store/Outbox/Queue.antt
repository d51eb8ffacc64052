-- ===== src/Store/Outbox/Queue.antt =====
-- The queue of one notifier and one target: the rows of the outbox that are theirs, in the order of
-- their ids.
use mathlib.Core.List.{Memᴰ}
use certel.Prelude.{
  ℕ, ◌<◌, ◌≡◌, refl, sym, ap, subst, arith, String, Bool, true, false, none, some, List, [], ◌∷◌,
  not, ◌==◌, select, All, All-select, Bool-cases, inl, inr, ◌⊎◌, if◌then◌else◌,
}
use certel.Store.Tables.{Store, QueueRow}
use certel.Store.Outbox.{of_queue, oldest}

-- Ids grow along the table, so no two rows share one.
abbrev pub Increasing : List QueueRow → Type 0
Increasing [] = Unit
Increasing (p ∷ rest) = All (λ q. p.id < q.id) rest × Increasing rest

abbrev pub queue_of : String → String → Store → List QueueRow
queue_of notifier target_key s = select (of_queue notifier target_key) s.db.notification_outbox

pub select-Increasing :
    (t : QueueRow → Bool) (rows : List QueueRow) → Increasing rows → Increasing (select t rows)
select-Increasing t [] h = tt
select-Increasing t (p ∷ rest) h =
    pick (t p) (All-select (λ q. p.id < q.id) t rest h.0) (select-Increasing t rest h.1)
  where
    pick :
        (b : Bool)
        → All (λ q. p.id < q.id) (select t rest)
        → Increasing (select t rest)
        → Increasing (if b then p ∷ select t rest else select t rest)
    pick true above order = (above, order)
    pick false above order = order

oldest-above :
    (p : QueueRow) (rows : List QueueRow)
    → All (λ q. p.id < q.id) rows
    → (oldest rows ≡ none) ⊎ ((q : QueueRow) × (oldest rows ≡ some q) × (p.id < q.id))
unfolding oldest
oldest-above p [] h = inl refl
oldest-above p (x ∷ rest) h = ground (arith, oldest-above p rest h.1)

pub oldest-Increasing :
    (p : QueueRow) (rest : List QueueRow) → Increasing (p ∷ rest) → oldest (p ∷ rest) ≡ some p
unfolding oldest
oldest-Increasing p rest h = ground (arith, oldest-above p rest h.0)

pub mem_of_mem-select :
    (t : QueueRow → Bool) (p : QueueRow) (rows : List QueueRow)
    → Memᴰ p (select t rows)
    → Memᴰ p rows
mem_of_mem-select t p [] m = m
mem_of_mem-select t p (x ∷ rest) m = pick (mem_of_mem-select t p rest) (t x) m
  where
    pick :
        (Memᴰ p (select t rest) → Memᴰ p rest)
        → (b : Bool) → Memᴰ p (if b then x ∷ select t rest else select t rest)
        → Memᴰ p (x ∷ rest)
    pick later true (Memᴰ.head e) = Memᴰ.head e
    pick later true (Memᴰ.tail r) = Memᴰ.tail (later r)
    pick later false r = Memᴰ.tail (later r)

abbrev pub without_id : ℕ → List QueueRow → List QueueRow
without_id id = select (λ q. not (q.id == id))

without_id-above :
    (id : ℕ) (rows : List QueueRow) → All (λ q. id < q.id) rows → without_id id rows ≡ rows
without_id-above id [] h = refl
without_id-above id (x ∷ rest) h = ground (arith, without_id-above id rest h.1)

pub All-mem :
    (P : QueueRow → Type 0) (p : QueueRow) (rows : List QueueRow) → All P rows → Memᴰ p rows → P p
All-mem P p [] h m = elim m [ ]
All-mem P p (x ∷ rest) h (Memᴰ.head e) = subst P (sym e) h.0
All-mem P p (x ∷ rest) h (Memᴰ.tail m) = All-mem P p rest h.1 m

-- Deleting a row leaves the rows of every test that it fails.
pub select-without_ne :
    (t : QueueRow → Bool) (p : QueueRow) (rows : List QueueRow)
    → Increasing rows
    → Memᴰ p rows
    → t p ≡ false
    → select t (without_id p.id rows) ≡ select t rows
select-without_ne t p [] h m n = refl
select-without_ne t p (x ∷ rest) h (Memᴰ.head e) n =
    ground (arith, ap (λ (q : QueueRow). q.id) e, ap t e, without_id-above x.id rest h.0)
select-without_ne t p (x ∷ rest) h (Memᴰ.tail m) n =
    ground (arith, select-without_ne t p rest h.1 m n, All-mem (λ q. x.id < q.id) p rest h.0 m)

-- Deleting the first row that passes a test leaves the others that do.
pub select-without_self :
    (t : QueueRow → Bool) (p : QueueRow) (rows later : List QueueRow)
    → Increasing rows
    → select t rows ≡ p ∷ later
    → select t (without_id p.id rows) ≡ later
select-without_self t p [] later h e = cc
select-without_self t p (x ∷ rest) later h e = elim (Bool-cases (t x)) [
  | inl hit ↦ let q = simp hit at e in ground (arith, q, without_id-above x.id rest h.0)
  | inr miss ↦
      let q : select t rest ≡ p ∷ later = simp miss at e in
      ground (
        arith,
        select-without_self t p rest later h.1 q,
        miss,
        All-mem (λ y. x.id < y.id) p rest h.0
            (mem_of_mem-select t p rest (subst (Memᴰ p) (sym q) (Memᴰ.head refl))),
      )
]
