-- ===== src/Alert/Dispatcher.antt =====
-- `Dispatcher` of internal/alert/dispatcher.go, over the interfaces that the source gives it. The
-- sender acts on a world `W`, which also says whether the context is cancelled. Log lines are left
-- out; what `OnSent` observes is the trace of attempts.
pub mod Interface
pub mod Drain
pub mod Healthy
use certel.Prelude.{
  ℕ, zero, suc, String, Bool, true, false, Option, none, some, List, [], ◌∷◌, ◌++◌, ltb,
  if◌then◌else◌,
}
use certel.Alert.Types.{OutboxRow}
use Interface.{OutboxOps, SenderOps}

-- A send, and the error that came back.
pub record Attempt : Type 0 where
  pub row : OutboxRow
  pub error : Option String

pub record Drained (S W : Type 0) : Type 0 where
  pub store : S
  pub world : W
  pub attempts : List Attempt

module _ {S W : Type 0} (ops : OutboxOps S) (sender : SenderOps W) where
  abbrev pub attempted : OutboxRow → Option String → Option (Drained S W) → Option (Drained S W)
  attempted row err none = none
  attempted row err (some d) =
      some (record d { attempts = record { row = row; error = err } ∷ d.attempts })

  abbrev pub ended : S → W → Option (Drained S W)
  ended s w = some (record { store = s; world = w; attempts = [] })

  -- What follows a send: the error is marked and ends the drain; a row that is not deleted ends it
  -- too; else the next row is read.
  abbrev pub settle :
      Option String → OutboxRow → (S → Option (Drained S W)) → S → W → Option (Drained S W)
  settle (some err) row next s w = ended (ops.fail_outbox row.id err s).0 w
  settle none row next s w =
      let (s', failed) = ops.delete_outbox row.id s in
      elim failed [ true ↦ ended s' w | false ↦ next s' ]

  -- `drainTarget`; `none` means that the fuel ran out.
  unfoldable pub drain_target : ℕ → String → S → W → Option (Drained S W)
  drain_target zero k s w = none
  drain_target (suc fuel) k s w = elim (sender.cancelled w) [
    | true ↦ ended s w
    | false ↦ elim (ops.next_pending k s) [
      | none ↦ ended s w
      | some none ↦ ended s w
      | some (some row) ↦
          let (w', err) = sender.send row.body w in
          attempted row err (settle err row (λ s'. drain_target fuel k s' w') s w')
    ]
  ]

  -- The loop of `dispatchOnce`, one target after the other; the fuel is for each target.
  unfoldable pub drain_all : ℕ → List String → S → W → Option (Drained S W)
  drain_all fuel [] s w = ended s w
  drain_all fuel (k ∷ keys) s w = elim (sender.cancelled w) [
    | true ↦ ended s w
    | false ↦ elim (drain_target fuel k s w) [
      | none ↦ none
      | some d ↦ elim (drain_all fuel keys d.store d.world) [
        | none ↦ none
        | some d' ↦ some (record d' { attempts = d.attempts ++ d'.attempts })
      ]
    ]
  ]

  -- `dispatchOnce`: a scan that fails ends the pass.
  unfoldable pub dispatch_once : ℕ → S → W → Option (Drained S W)
  unfolding drain_all
  dispatch_once fuel s w = elim (ops.pending_keys s) [
    | none ↦ ended s w
    | some keys ↦ drain_all fuel keys s w
  ]
