-- ===== src/Alert/Dispatcher/Healthy.antt =====
-- The pass of internal/alert/dispatcher.go when nothing fails: everything that was queued is sent.
use certel.Prelude.{
  ℕ, zero, suc, ◌<◌, ◌≡◌, ◌≢◌, refl, sym, ap, ◌∙◌, arith, String, true, false, Option, none, some,
  List, [], ◌∷◌, map, length, Bool-cases, inl, inr, ◌⊎◌, str_eq, eq_iff,
}
use certel.Config.Repeat.{contains}
use certel.Alert.Types.{Bytes, OutboxRow}
use certel.Alert.Dispatcher.{Drained, drain_target, drain_all, dispatch_once, attempted, settle}
use certel.Alert.Dispatcher.Interface.{OutboxOps, SenderOps, OutboxLaws}
use certel.Alert.Dispatcher.Drain.{queue-cases, delivered}

module _ {S W : Type 0} where
  -- No read, write or send fails, and nobody cancels.
  pub record Healthy (ops : OutboxOps S) (sender : SenderOps W) : Type 0 where
    pub runs : (w : W) → sender.cancelled w ≡ false
    pub sends : (body : Bytes) (w : W) → (sender.send body w).1 ≡ none
    pub scans : (s : S) → ops.pending_keys s ≢ none
    pub reads : (k : String) (s : S) → ops.next_pending k s ≢ none
    pub deletes : (id : ℕ) (s : S) → (ops.delete_outbox id s).1 ≡ false

module _ {S W : Type 0} (ops : OutboxOps S) (sender : SenderOps W) {Valid : S → Type 0}
    {queue : String → S → List OutboxRow} (laws : OutboxLaws ops Valid queue)
    (healthy : Healthy ops sender) where
  record Emptied (k : String) (s : S) (outcome : Option (Drained S W)) : Type 0 where
    result : Drained S W
    returns : outcome ≡ some result
    valid : Valid result.store
    sent : result.attempts ≡ map delivered (queue k s)
    empty : queue k result.store ≡ []
    others : (j : String) → k ≢ j → queue j result.store ≡ queue j s

  served :
      (k : String) (s : S) (w : W) (row : OutboxRow) (later : List OutboxRow) (err : Option String)
      (next : S → Option (Drained S W))
      → Valid s
      → queue k s ≡ row ∷ later
      → err ≡ none
      → Emptied k (ops.delete_outbox row.id s).0 (next (ops.delete_outbox row.id s).0)
      → Emptied k s (attempted ops sender row err (settle ops sender err row next s w))
  served k s w row later (some err) next v e good rest = cc
  served k s w row later none next v e good rest =
      let removed = healthy.deletes row.id s in
      let left = laws.delete-front k row later s v e removed in
      rw (attempted, settle, removed)
        (record {
          result = record rest.result { attempts = delivered row ∷ rest.result.attempts };
          returns = ap (attempted ops sender row none) rest.returns;
          valid = rest.valid;
          sent =
              ap (λ r. delivered row ∷ r) (rest.sent ∙ ap (map delivered) left)
              ∙ ap (map delivered) (sym e);
          empty = rest.empty;
          others = λ j n. rest.others j n ∙ laws.delete-other k j row later s v e n;
        })

  drain_target_empties :
      (k : String) (fuel : ℕ) (s : S) (w : W)
      → Valid s
      → length (queue k s) < fuel
      → Emptied k s (drain_target ops sender fuel k s w)
  unfolding drain_target
  drain_target_empties k zero s w v enough = let no : ⊥ = omega (arith, enough) in elim no [ ]
  drain_target_empties k (suc fuel) s w v enough = elim (laws.next-front k s v) [
    | inl broken ↦ elim (healthy.reads k s broken) [ ]
    | inr reads ↦ elim (queue-cases (queue k s)) [
      | inl nothing ↦
          rw (drain_target, healthy.runs w, reads, nothing)
            (record {
              result = record { store = s; world = w; attempts = [] };
              returns = refl;
              valid = v;
              sent = ap (map delivered) (sym nothing);
              empty = nothing;
              others = λ j _. refl;
            })
      | inr (row, later, e) ↦
          let removed = healthy.deletes row.id s in
          let v' = laws.delete-Valid row.id s v in
          let left = laws.delete-front k row later s v e removed in
          let rest =
            drain_target_empties k fuel (ops.delete_outbox row.id s).0 (sender.send row.body w).0 v'
              (omega (arith, enough, ap length e, ap length left)) in
          rw (drain_target, healthy.runs w, reads, e)
            (served k s _ row later _ _ v e (healthy.sends row.body w) rest)
    ]
  ]

  record Swept (keys : List String) (s : S) (outcome : Option (Drained S W)) : Type 0 where
    result : Drained S W
    returns : outcome ≡ some result
    named : (j : String) → contains j keys ≡ true → queue j result.store ≡ []
    others : (j : String) → (queue j result.store ≡ []) ⊎ (queue j result.store ≡ queue j s)

  empty-at :
      (k j : String) (s : S) (o : Option (Drained S W)) (d : Emptied k s o)
      → str_eq k j ≡ true
      → queue j d.result.store ≡ []
  empty-at k j s o d h =
      let same : j ≡ k = ground (arith, eq_iff k j, h) in
      ap (λ x. queue x d.result.store) same ∙ d.empty

  drained-or_kept :
      (k j : String) (s : S) (o : Option (Drained S W)) (d : Emptied k s o)
      → (queue j d.result.store ≡ []) ⊎ (queue j d.result.store ≡ queue j s)
  drained-or_kept k j s o d = elim (Bool-cases (str_eq k j)) [
    | inl same ↦ inl (ground (arith, eq_iff k j, d.empty))
    | inr differs ↦ inr (d.others j (λ e. ground (arith, eq_iff k j, e)))
  ]

  drain_all_empties :
      (fuel : ℕ) (keys : List String) (s : S) (w : W)
      → Valid s
      → ((j : String) → length (queue j s) < fuel)
      → Swept keys s (drain_all ops sender fuel keys s w)
  unfolding drain_all contains
  drain_all_empties fuel [] s w v enough = record {
    result = record { store = s; world = w; attempts = [] };
    returns = refl;
    named = λ j m. ground (arith, m);
    others = λ j. inr refl;
  }
  drain_all_empties fuel (k ∷ keys) s w v enough =
      let one = drain_target_empties k fuel s w v (enough k) in
      let rest =
        drain_all_empties fuel keys one.result.store one.result.world one.valid
          (λ j. ground (arith, enough j, drained-or_kept k j s _ one)) in
      rw (drain_all, healthy.runs w, one.returns, rest.returns)
        (record {
          result = _;
          returns = refl;
          named = λ j m. ground (arith, empty-at k j s _ one, m, rest.named j, rest.others j);
          others = λ j. ground (arith, rest.others j, drained-or_kept k j s _ one);
        })

  -- From a valid store that keeps the laws of an outbox, a pass in which no read, write or send
  -- fails and nobody cancels returns, with fuel for every row of each queue, and leaves every
  -- queue empty.
  pub dispatch_once_empties :
      (fuel : ℕ) (s : S) (w : W)
      → Valid s
      → ((j : String) → length (queue j s) < fuel)
      → (d : Drained S W) × (dispatch_once ops sender fuel s w ≡ some d)
        × ((j : String) → queue j d.store ≡ [])
  unfolding dispatch_once
  dispatch_once_empties fuel s w v enough = elim (laws.pending-all s v) [
    | inl broken ↦ elim (healthy.scans s broken) [ ]
    | inr (keys, reads, all) ↦
        let swept = drain_all_empties fuel keys s w v enough in
        rw (dispatch_once, reads)
          (swept.result, swept.returns, λ j. ground (arith, all j, swept.named j, swept.others j))
  ]
