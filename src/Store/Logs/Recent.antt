-- ===== src/Store/Logs/Recent.antt =====
-- The query of the flap rebuild returns the newest readings first, as long as the clock of the log
-- does not run backwards.
use mathlib.Core.List.{reverse, reverse-cons}
use certel.Prelude.{
  ℕ, ◌≡◌, refl, arith, ap, String, Bool, true, false, some, List, [], ◌∷◌, ◌++◌, map, select, take,
  All, All-select, All-reverse, if◌then◌else◌,
}
use certel.Prelude.Int.{pos}
use certel.Store.Tables.{Store, ProbeRow, Faults}
use certel.Store.Logs.{
  newer, place_recent, sort_recent, recent_probe_statuses, as_observation, of_target,
}

-- Each row comes before those that follow it, in time and in key.
abbrev pub InOrder : List ProbeRow → Type 0
InOrder [] = Unit
InOrder (p ∷ rest) = All (λ q. newer q p ≡ true) rest × InOrder rest

select-InOrder :
    (t : ProbeRow → Bool) (rows : List ProbeRow) → InOrder rows → InOrder (select t rows)
select-InOrder t [] h = tt
select-InOrder t (p ∷ rest) h =
    pick (t p) (All-select (λ q. newer q p ≡ true) t rest h.0) (select-InOrder t rest h.1)
  where
    pick :
        (b : Bool)
        → All (λ q. newer q p ≡ true) (select t rest)
        → InOrder (select t rest)
        → InOrder (if b then p ∷ select t rest else select t rest)
    pick true above order = (above, order)
    pick false above order = order

place_recent_last :
    (p : ProbeRow) (rows : List ProbeRow)
    → All (λ q. newer q p ≡ true) rows
    → place_recent p rows ≡ rows ++ p ∷ []
unfolding place_recent
place_recent_last p [] h = refl
place_recent_last p (q ∷ rest) h = ground (arith, place_recent_last p rest h.1)

sort_recent-reverse : (rows : List ProbeRow) → InOrder rows → sort_recent rows ≡ reverse rows
unfolding sort_recent
sort_recent-reverse [] h = refl
sort_recent-reverse (p ∷ rest) h =
    rw (sort_recent-reverse rest h.1, reverse-cons p rest)
      (place_recent_last p (reverse rest) (All-reverse (λ q. newer q p ≡ true) rest h.0))

-- From a log in order of time and id, the query that does not fail gives the readings of the
-- target, newest first, up to its limit.
pub recent_probe_statuses-newest :
    (fails : Faults) (k : String) (n : ℕ) (s : Store)
    → fails 0 ≡ false
    → InOrder s.db.probe_log
    → recent_probe_statuses fails k (pos n) s
      ≡ some (map as_observation (take n (reverse (select (of_target k) s.db.probe_log))))
unfolding recent_probe_statuses
recent_probe_statuses-newest fails k n s ok h = rw ok (
    ap (λ rows. some (map as_observation (take n rows)))
      (sort_recent-reverse (select (of_target k) s.db.probe_log)
        (select-InOrder (of_target k) s.db.probe_log h)))
