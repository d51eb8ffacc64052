-- ===== src/Command/Logged.antt =====
-- The handler of results in cmd/certel/monitor.go keeps the log that Restore reads after a restart.
use mathlib.Core.List.{reverse, reverse-append, append-nil}
use certel.Prelude.{
  ℕ, ◌+◌, ◌≤◌, ◌<◌, ◌≡◌, refl, sym, ap, ◌∙◌, subst, arith, String, Bool, true, false, ◌||◌, Option,
  none, some, List, [], ◌∷◌, ◌++◌, map, select, select-append, take, All, All-append, str_eq,
  Bool-cases, inl, inr, if◌then◌else◌,
}
use certel.Prelude.Int.{pos}
use certel.Clock.{Time, unix}
use certel.Config.Target.{key}
use certel.Probe.Result.{Result}
use certel.Alert.Types.{AlertEvent, Delivery, StateRecord, ProbeObservation}
use certel.Alert.Manager.{Manager, Outcome, Decision, decide, commit, process, record_of}
use certel.Alert.Manager.Cycles.{readings_of}
use certel.Alert.Manager.Steps.{process_induction}
use certel.Store.Tables.{Database, Store, ProbeRow, Engine, Faults, write_err, no_faults}
use certel.Store.State.{upsert_state, save_alert_state}
use certel.Store.Outbox.{
  transaction, insert_deliveries, insert_alert, insert_queued, finish, enqueue,
}
use certel.Store.Logs.{
  probe_row, record_probe, newer, as_observation, of_target, recent_probe_statuses,
}
use certel.Store.Logs.Recent.{InOrder, recent_probe_statuses-newest}
use certel.Store.Manager.{store_ops}
use certel.Command.Monitor.{Running, handle_result}

abbrev pub log_of : Store → List ProbeRow
log_of s = s.db.probe_log

abbrev KeepsLog : Database → Option Database → Type 0
KeepsLog db none = Unit
KeepsLog db (some db') = db'.probe_log ≡ db.probe_log

if-KeepsLog :
    (b : Bool) (db : Database) (o : Option Database)
    → KeepsLog db o
    → KeepsLog db (if b then none else o)
if-KeepsLog true db o h = tt
if-KeepsLog false db o h = h

insert_deliveries-KeepsLog :
    (e : Engine) (fails : Faults) (i : ℕ) (ev : AlertEvent) (ds : List Delivery) (db db₀ : Database)
    → db.probe_log ≡ db₀.probe_log
    → KeepsLog db₀ (insert_deliveries e fails i ev ds db)
unfolding insert_deliveries insert_alert insert_queued
insert_deliveries-KeepsLog e fails i ev [] db db₀ h = if-KeepsLog (fails i) db₀ (some db) h
insert_deliveries-KeepsLog e fails i ev (d ∷ ds) db db₀ h =
    if-KeepsLog (fails i || fails (i + 1)) db₀ _ (
      insert_deliveries-KeepsLog e fails (i + 2) ev ds
        (insert_queued e ev d (insert_alert e ev d db)) db₀ h)

finish-log :
    (e : Engine) (s : Store) (o : Option Database)
    → KeepsLog s.db o
    → log_of (finish e s o).0 ≡ log_of s
unfolding write_err
finish-log e s none h = refl
finish-log e s (some db) h = h

enqueue-log :
    (e : Engine) (fails : Faults) (rec : StateRecord) (ev : AlertEvent) (ds : List Delivery)
    (s : Store)
    → log_of (enqueue e fails rec ev ds s).0 ≡ log_of s
unfolding enqueue transaction upsert_state
enqueue-log e fails rec ev ds s = finish-log e s _ (
    if-KeepsLog (fails 0 || fails 1) s.db _
      (insert_deliveries-KeepsLog e fails 2 ev ds (upsert_state ev.target_key rec s.db) s.db refl))

abbrev pub one_of : Bool → Store × Bool → Store × Bool → Store × Bool
one_of b x y = if b then x else y

pub either :
    (b : Bool) (x y : Store × Bool) (log : List ProbeRow)
    → log_of x.0 ≡ log
    → log_of y.0 ≡ log
    → log_of (one_of b x y).0 ≡ log
either true x y log h k = h
either false x y log h k = k

save_alert_state-log :
    (fails : Faults) (k : String) (rec : StateRecord) (s : Store)
    → log_of (save_alert_state fails k rec s).0 ≡ log_of s
unfolding save_alert_state upsert_state write_err
save_alert_state-log fails k rec s =
    either (fails 0) (write_err true s, true) (record s { db = upsert_state k rec s.db }, false)
      (log_of s) refl refl

module _ (e : Engine) (fails : Faults) where
  commit-log :
      (ev : AlertEvent) (d : Decision) (ds : List Delivery) (m : Manager) (s : Store)
      → log_of (Outcome.store (commit (some (store_ops e fails)) ev d ds m s)) ≡ log_of s
  unfolding commit
  commit-log ev d [] m s = pick d.state_changed
    where
      pick :
          (b : Bool)
          → log_of (if b then (save_alert_state fails ev.target_key (record_of d.state) s).0 else s)
            ≡ log_of s
      pick true = save_alert_state-log fails ev.target_key (record_of d.state) s
      pick false = refl
  commit-log ev d (x ∷ ds) m s = enqueue-log e fails (record_of d.state) ev (x ∷ ds) s

  process-log :
      (now : Time) (r : Result) (m : Manager) (s : Store)
      → log_of (Outcome.store (process (some (store_ops e fails)) now r m s)) ≡ log_of s
  process-log now r m s =
      process_induction (some (store_ops e fails)) now r m s (λ o. log_of o.store ≡ log_of s) refl
        (λ st v. refl) (λ st v. commit-log _ (decide now r st) _ _ s)

-- Readings that were handled in turn, newest first; `decision` are the statements of the decision
-- that fail.
unfoldable pub handle_all : Engine → (decision : Faults) → List (Time × Result) → Running → Running
handle_all e decision [] run = run
handle_all e decision ((now, r) ∷ older) run =
    (handle_result e no_faults decision now r (handle_all e decision older run)).0

-- The rows of a log are no later than `b`.
abbrev Until : ℕ → List ProbeRow → Type 0
Until b log = All (λ p. p.checked_at ≤ b) log

-- Readings that were taken one after the other.
abbrev pub InTurn : List (Time × Result) → Type 0
InTurn [] = Unit
InTurn ((now, r) ∷ older) = All (λ e. unix e.1.checked_at ≤ unix r.checked_at) older × InTurn older

newer-last : (p q : ProbeRow) → p.checked_at ≤ q.checked_at → p.id < q.id → newer q p ≡ true
unfolding newer
newer-last p q h k = ground (arith, h, k)

last-newer :
    (q : ProbeRow) (log : List ProbeRow)
    → Until q.checked_at log
    → All (λ i. i < q.id) (map (λ p. p.id) log)
    → All (λ p. newer q p ≡ true) log
last-newer q [] h k = tt
last-newer q (p ∷ rest) h k = (newer-last p q h.0 k.0, last-newer q rest h.1 k.1)

InOrder-last :
    (q : ProbeRow) (log : List ProbeRow)
    → All (λ p. newer q p ≡ true) log
    → InOrder log
    → InOrder (log ++ (q ∷ []))
InOrder-last q [] h k = (tt, tt)
InOrder-last q (p ∷ rest) h k =
    (All-append (λ x. newer x p ≡ true) rest (q ∷ []) k.0 (h.0, tt), InOrder-last q rest h.1 k.1)

-- A log that holds the readings of a history, in order.
record Holds (history : List (Time × Result)) (log : List ProbeRow) : Type 0 where
  order : InOrder log
  until : (b : ℕ) → All (λ e. unix e.1.checked_at ≤ b) history → Until b log
  readings :
      (k : String) → map as_observation (reverse (select (of_target k) log)) ≡ readings_of k history

Holds-last :
    (e : Engine) (now : Time) (r : Result) (older : List (Time × Result)) (log : List ProbeRow)
    → All (λ x. unix x.1.checked_at ≤ unix r.checked_at) older
    → Holds older log
    → Holds ((now, r) ∷ older) (log ++ (probe_row (e.new_id (map (λ p. p.id) log)) r ∷ []))
unfolding probe_row readings_of
Holds-last e now r older log turn h =
    let row = probe_row (e.new_id (map (λ p. p.id) log)) r in
    record {
      order =
          InOrder-last row log
            (last-newer row log (h.until (unix r.checked_at) turn)
              (e.new_id_above (map (λ p. p.id) log)))
            h.order;
      until = λ b k. All-append (λ p. p.checked_at ≤ b) log (row ∷ []) (h.until b k.1) (k.0, tt);
      readings = λ k. newest k;
    }
  where
    row : ProbeRow
    row = probe_row (e.new_id (map (λ p. p.id) log)) r

    newest :
        (k : String)
        → map as_observation (reverse (select (of_target k) (log ++ (row ∷ []))))
          ≡ readings_of k ((now, r) ∷ older)
    newest k =
        let split = select-append (of_target k) log (row ∷ []) in
        let turned = reverse-append (select (of_target k) log) (row ∷ []) in
        elim (Bool-cases (str_eq (key r.target) k)) [
          | inl q ↦ rw (split, q, turned, h.readings k)
          | inr q ↦ rw (split, q, append-nil (select (of_target k) log), h.readings k)
        ]

handle_all-Holds :
    (e : Engine) (decision : Faults) (history : List (Time × Result)) (run : Running)
    → log_of run.store ≡ []
    → InTurn history
    → Holds history (log_of (Running.store (handle_all e decision history run)))
unfolding handle_all handle_result record_probe readings_of
handle_all-Holds e decision [] run empty turn =
    subst (λ (log : List ProbeRow). Holds [] log) (sym empty)
      (record { order = tt; until = λ b k. tt; readings = λ k. refl })
handle_all-Holds e decision ((now, r) ∷ older) run empty turn =
    let before = handle_all e decision older run in
    let recorded = record_probe e no_faults r before.store in
    subst (λ (log : List ProbeRow). Holds ((now, r) ∷ older) log)
      (sym (process-log e decision now r before.manager recorded.0))
      (Holds-last e now r older (log_of before.store) turn.0
        (handle_all-Holds e decision older run empty turn.1))

map-take : {A B : Type 0} (f : A → B) (n : ℕ) (xs : List A) → map f (take n xs) ≡ take n (map f xs)
map-take f ℕ.zero xs = refl
map-take f (ℕ.suc n) [] = refl
map-take f (ℕ.suc n) (x ∷ xs) = cc (map-take f n xs)

-- From an empty log, and while its writes succeed, the monitor can read back the newest readings of
-- each target.
pub handle_all-recent :
    (e : Engine) (decision read : Faults) (history : List (Time × Result)) (run : Running)
    (k : String) (n : ℕ)
    → log_of run.store ≡ []
    → InTurn history
    → read 0 ≡ false
    → recent_probe_statuses read k (pos n) (Running.store (handle_all e decision history run))
      ≡ some (take n (readings_of k history))
handle_all-recent e decision read history run k n empty turn reads =
    let h = handle_all-Holds e decision history run empty turn in
    recent_probe_statuses-newest read k n (Running.store (handle_all e decision history run)) reads
      h.order
    ∙ ap (λ (x : List ProbeObservation). some x)
        (map-take as_observation n _ ∙ ap (take n) (h.readings k))
