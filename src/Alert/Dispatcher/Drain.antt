-- ===== src/Alert/Dispatcher/Drain.antt =====
-- What `drainTarget` of internal/alert/dispatcher.go leaves of a queue, and what it attempted.
use certel.Prelude.{
  ℕ, zero, suc, ◌<◌, ◌≡◌, ◌≢◌, refl, sym, ap, ◌∙◌, subst, arith, String, Option, none, some, List,
  [], ◌∷◌, ◌++◌, map, length, Bool-cases, inl, inr, ◌⊎◌,
}
use certel.Alert.Types.{OutboxRow}
use certel.Alert.Dispatcher.{Attempt, Drained, drain_target, attempted, settle}
use certel.Alert.Dispatcher.Interface.{OutboxOps, SenderOps, OutboxLaws}

abbrev pub delivered : OutboxRow → Attempt
delivered row = record { row = row; error = none }

-- The rows that left were each sent without an error, in the order of the queue; one more attempt
-- may follow, of the row that the queue still starts with.
pub record InTurn (before after : List OutboxRow) (attempts : List Attempt) : Type 0 where
  pub gone : List OutboxRow
  pub last : List Attempt
  pub splits : before ≡ gone ++ after
  pub tried : attempts ≡ map delivered gone ++ last
  pub ends :
      (last ≡ [])
      ⊎ ((row : OutboxRow) × (later : List OutboxRow) × (err : Option String) × (after
            ≡ row ∷ later)
          × (last ≡ record { row = row; error = err } ∷ []))

InTurn-none : (q q' : List OutboxRow) → q' ≡ q → InTurn q q' []
InTurn-none q q' e = record { gone = []; last = []; splits = sym e; tried = refl; ends = inl refl }

InTurn-kept :
    (q q' : List OutboxRow) (row : OutboxRow) (later : List OutboxRow) (err : Option String)
    → q ≡ row ∷ later
    → q' ≡ q
    → InTurn q q' (record { row = row; error = err } ∷ [])
InTurn-kept q q' row later err e same = record {
  gone = [];
  last = record { row = row; error = err } ∷ [];
  splits = sym same;
  tried = refl;
  ends = inr (row, later, err, same ∙ e, refl);
}

InTurn-sent :
    (q : List OutboxRow) (row : OutboxRow) (later after : List OutboxRow) (attempts : List Attempt)
    → q ≡ row ∷ later
    → InTurn later after attempts
    → InTurn q after (delivered row ∷ attempts)
InTurn-sent q row later after attempts e rest = record {
  gone = row ∷ rest.gone;
  last = rest.last;
  splits = e ∙ ap (λ r. row ∷ r) rest.splits;
  tried = ap (λ r. delivered row ∷ r) rest.tried;
  ends = rest.ends;
}

pub queue-cases :
    (q : List OutboxRow)
    → (q ≡ []) ⊎ ((row : OutboxRow) × (later : List OutboxRow) × (q ≡ row ∷ later))
queue-cases [] = inl refl
queue-cases (row ∷ later) = inr (row, later, refl)

module _ {S W : Type 0} (ops : OutboxOps S) (sender : SenderOps W) {Valid : S → Type 0}
    {queue : String → S → List OutboxRow} (laws : OutboxLaws ops Valid queue) (k : String) where
  -- How a drain ends: with which store and which attempts.
  pub record Ends (s : S) (outcome : Option (Drained S W)) : Type 0 where
    pub result : Drained S W
    pub returns : outcome ≡ some result
    pub valid : Valid result.store
    pub in_turn : InTurn (queue k s) (queue k result.store) result.attempts
    pub others : (j : String) → k ≢ j → queue j result.store ≡ queue j s

  at_rest :
      (s : S) (w : W) → Valid s → Ends s (some (record { store = s; world = w; attempts = [] }))
  at_rest s w v = record {
    result = record { store = s; world = w; attempts = [] };
    returns = refl;
    valid = v;
    in_turn = InTurn-none (queue k s) (queue k s) refl;
    others = λ j _. refl;
  }

  kept :
      (s s' : S) (w : W) (row : OutboxRow) (later : List OutboxRow) (err : Option String)
      → queue k s ≡ row ∷ later
      → Valid s'
      → ((j : String) → queue j s' ≡ queue j s)
      → Ends s (
          some
            (record { store = s'; world = w; attempts = record { row = row; error = err } ∷ [] }))
  kept s s' w row later err e v same = record {
    result = _;
    returns = refl;
    valid = v;
    in_turn = InTurn-kept (queue k s) (queue k s') row later err e (same k);
    others = λ j _. same j;
  }

  continued :
      (s s' : S) (row : OutboxRow) (later : List OutboxRow) (o : Option (Drained S W))
      → queue k s ≡ row ∷ later
      → queue k s' ≡ later
      → ((j : String) → k ≢ j → queue j s' ≡ queue j s)
      → Ends s' o
      → Ends s (attempted ops sender row none o)
  continued s s' row later o e left same rest = record {
    result = record rest.result { attempts = delivered row ∷ rest.result.attempts };
    returns = ap (attempted ops sender row none) rest.returns;
    valid = rest.valid;
    in_turn =
        InTurn-sent (queue k s) row later _ _ e (
          subst (λ q. InTurn q (queue k rest.result.store) rest.result.attempts) left rest.in_turn);
    others = λ j n. rest.others j n ∙ same j n;
  }

  settled :
      (s : S) (w : W) (row : OutboxRow) (later : List OutboxRow) (err : Option String)
      (next : S → Option (Drained S W))
      → Valid s
      → queue k s ≡ row ∷ later
      → ((s' : S) → Valid s' → queue k s' ≡ later → Ends s' (next s'))
      → Ends s (attempted ops sender row err (settle ops sender err row next s w))
  settled s w row later (some err) next v e rest =
      kept s _ w row later (some err) e (laws.fail-Valid row.id err s v)
        (λ j. laws.fail-queue row.id err j s)
  settled s w row later none next v e rest = elim (Bool-cases (ops.delete_outbox row.id s).1) [
    | inl failed ↦
        rw (attempted, settle, failed)
          (kept s _ w row later none e (laws.delete-Valid row.id s v)
            (λ j. laws.delete-kept row.id j s failed))
    | inr removed ↦
        let left = laws.delete-front k row later s v e removed in
        rw (attempted, settle, removed)
          (continued s _ row later _ e left (λ j. laws.delete-other k j row later s v e)
            (rest _ (laws.delete-Valid row.id s v) left))
  ]

  -- From a valid store that keeps the laws of an outbox, with fuel for every row of its queue,
  -- draining a target returns and keeps the store valid; the rows that left are a front of the
  -- queue, each sent without an error and in order, at most one more attempt was made, of the row
  -- that is now first, and no other queue changed.
  pub drain_target_ends :
      (fuel : ℕ) (s : S) (w : W)
      → Valid s
      → length (queue k s) < fuel
      → Ends s (drain_target ops sender fuel k s w)
  unfolding drain_target
  drain_target_ends zero s w v enough = let no : ⊥ = omega (arith, enough) in elim no [ ]
  drain_target_ends (suc fuel) s w v enough = elim (Bool-cases (sender.cancelled w)) [
    | inl stop ↦ rw (drain_target, stop) (at_rest s w v)
    | inr go ↦ elim (laws.next-front k s v) [
      | inl broken ↦ rw (drain_target, go, broken) (at_rest s w v)
      | inr reads ↦ elim (queue-cases (queue k s)) [
        | inl nothing ↦ rw (drain_target, go, reads, nothing) (at_rest s w v)
        | inr (row, later, e) ↦
            rw (drain_target, go, reads, e)
              (settled s _ row later _ _ v e (λ s' v' left.
                drain_target_ends fuel s' _ v'
                  (omega (arith, enough, ap length e, ap length left))))
      ]
    ]
  ]
