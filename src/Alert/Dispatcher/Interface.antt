-- ===== src/Alert/Dispatcher/Interface.antt =====
-- The interfaces `OutboxStore` and `Sender` of internal/alert, with what the dispatcher relies on.
use certel.Prelude.{ℕ, String, Bool, true, false, Option, none, some, List, [], ◌∷◌, ◌≡◌, ◌≢◌, ◌⊎◌}
use certel.Config.Repeat.{contains}
use certel.Alert.Types.{Bytes, OutboxRow}

-- A read is `none` where it fails; a write returns the new store and whether an error came back.
pub record OutboxOps (S : Type 0) : Type 0 where
  pub pending_keys : S → Option (List String)
  pub next_pending : String → S → Option (Option OutboxRow)
  pub delete_outbox : ℕ → S → S × Bool
  pub fail_outbox : ℕ → String → S → S × Bool

pub record SenderOps (W : Type 0) : Type 0 where
  pub send : Bytes → W → W × Option String
  pub cancelled : W → Bool

abbrev pub front : List OutboxRow → Option OutboxRow
front [] = none
front (row ∷ later) = some row

-- A store that is valid holds one queue for each target: a scan names every
-- target that has a row, a read gives the front of a queue or fails, a delete
-- of the front takes that row alone away or fails and changes nothing, and a row that is marked
-- keeps its place. What is read and written keeps the store valid.
pub record OutboxLaws {S : Type 0} (ops : OutboxOps S) (Valid : S → Type 0)
    (queue : String → S → List OutboxRow) : Type 0 where
  pub pending-all :
      (s : S)
      → Valid s
      → (ops.pending_keys s ≡ none)
        ⊎ ((keys : List String) × (ops.pending_keys s ≡ some keys)
            × ((j : String) → (queue j s ≡ []) ⊎ (contains j keys ≡ true)))
  pub next-front :
      (k : String) (s : S)
      → Valid s
      → (ops.next_pending k s ≡ none) ⊎ (ops.next_pending k s ≡ some (front (queue k s)))
  pub delete-Valid : (id : ℕ) (s : S) → Valid s → Valid (ops.delete_outbox id s).0
  pub delete-kept :
      (id : ℕ) (j : String) (s : S)
      → (ops.delete_outbox id s).1 ≡ true
      → queue j (ops.delete_outbox id s).0 ≡ queue j s
  pub delete-front :
      (k : String) (row : OutboxRow) (later : List OutboxRow) (s : S)
      → Valid s
      → queue k s ≡ row ∷ later
      → (ops.delete_outbox row.id s).1 ≡ false
      → queue k (ops.delete_outbox row.id s).0 ≡ later
  pub delete-other :
      (k j : String) (row : OutboxRow) (later : List OutboxRow) (s : S)
      → Valid s
      → queue k s ≡ row ∷ later
      → k ≢ j
      → queue j (ops.delete_outbox row.id s).0 ≡ queue j s
  pub fail-Valid : (id : ℕ) (err : String) (s : S) → Valid s → Valid (ops.fail_outbox id err s).0
  pub fail-queue :
      (id : ℕ) (err : String) (j : String) (s : S)
      → queue j (ops.fail_outbox id err s).0 ≡ queue j s
