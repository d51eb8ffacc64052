-- ===== src/Examples/Debounce.antt =====
-- The debounce of a target that confirms after three readings.
use certel.Prelude.{◌≡◌, refl, arith, [], ◌∷◌}
use certel.Prelude.Int.{pos}
use certel.Probe.Result.{Result}
use certel.Alert.Debounce.{tentative, replay, shown, reconstruct_pending}
use certel.Alert.Debounce.Streak.{replay_held, replay_confirms, candidate, confirmed}
use certel.Alert.Debounce.Rebuild.{reconstruct-replay, pending_of}
use certel.Alert.Manager.{healthy}
use certel.Clock.{Time}
use certel.Examples.Data.{noon, one_past, unreachable}

abbrev at_down : Time × Result
at_down = (noon, unreachable)

replay_held_example :
    replay (pos 3) healthy (at_down ∷ at_down ∷ []) ≡ candidate healthy (shown at_down) 2
unfolding tentative
replay_held_example =
    replay_held 3 healthy (shown at_down) at_down (at_down ∷ []) refl refl (refl, (refl, tt))
      (omega arith)

replay_confirms_example :
    replay (pos 3) healthy ((one_past, unreachable) ∷ at_down ∷ at_down ∷ [])
    ≡ confirmed healthy one_past (shown at_down)
unfolding tentative
replay_confirms_example =
    replay_confirms 3 healthy (shown at_down) one_past unreachable at_down (at_down ∷ []) refl refl
      (refl, (refl, (refl, tt))) refl

reconstruct-replay_example :
    let st = replay (pos 3) healthy (at_down ∷ at_down ∷ []) in
    reconstruct_pending st.severity st.status (shown at_down ∷ shown at_down ∷ []) (pos 3)
    ≡ pending_of st
reconstruct-replay_example =
    reconstruct-replay 3 healthy (at_down ∷ at_down ∷ []) (omega arith) refl
