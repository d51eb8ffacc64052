-- ===== src/Alert/Sender.antt =====
-- `WebhookSender` of internal/alert/sender.go: `Send` with its retries and its backoff. The HTTP client
-- and the timer act on a world `W`; headers and the body of an answer are left out.
pub mod Retries
use certel.Prelude.{
  ℕ, zero, suc, ◌+◌, ◌-◌, ◌*◌, ◌%◌, ◌^◌, String, Bool, true, false, Option, none, some, List, [],
  ◌∷◌, ◌&&◌, leb, ltb, if◌then◌else◌,
}
use certel.Prelude.Int.{ℤ, pos, negsuc}
use certel.Clock.{Duration, second}
use certel.Alert.Types.{Bytes}

-- What one request comes back with: a status code, or an error of the client.
pub data Reply : Type 0 where
  answered : ℕ → Reply
  failed : String → Reply

-- `build` is the error of `NewRequestWithContext`; `wait` is the select on the timer and the context, with
-- the error of the context where that came first.
pub record Client (W : Type 0) : Type 0 where
  pub build : Option String
  pub post : Bytes → W → W × Reply
  pub wait : Duration → W → W × Option String

pub data SendError : Type 0 where
  not_built : String → SendError
  interrupted : String → SendError
  gave_up : ℕ → Option Reply → SendError

pub record Sent (W : Type 0) : Type 0 where
  pub world : W
  pub posts : List Reply
  pub waits : List Duration
  pub error : Option SendError

unfoldable pub accepted : Reply → Bool
accepted (answered code) = leb 200 code && ltb code 300
accepted (failed err) = false

-- A time.Duration from its 64 bits.
abbrev pub as_int64 : ℕ → Duration
as_int64 bits = if ltb bits (2 ^ 63) then pos bits else negsuc (2 ^ 64 - bits - 1)

-- retries + 1, which the loop counts up to from 0.
abbrev pub attempts_of : ℤ → ℕ
attempts_of (pos n) = suc n
attempts_of (negsuc n) = 0

module _ {W : Type 0} (client : Client W) (total : ℕ) (body : Bytes) where
  abbrev pub stopped : W → Option SendError → Sent W
  stopped w err = record { world = w; posts = []; waits = []; error = err }

  abbrev pub posted : Reply → Sent W → Sent W
  posted r s = record s { posts = r ∷ s.posts }

  abbrev pub waited : Duration → Sent W → Sent W
  waited d s = record s { waits = d ∷ s.waits }

  abbrev pub after_wait : Duration → W × Option String → (W → Sent W) → Sent W
  after_wait d (w, none) next = waited d (next w)
  after_wait d (w, some err) next = waited d (stopped w (some (interrupted err)))

  -- After a post that was not accepted: a wait, unless it was the last attempt.
  abbrev pub retry : ℕ → ℕ → Reply → W → (W → Sent W) → Sent W
  retry zero backoff last w next = stopped w (some (gave_up total (some last)))
  retry (suc left) backoff last w next =
      after_wait (as_int64 backoff) (client.wait (as_int64 backoff) w) next

  abbrev pub settle_post : ℕ → ℕ → Reply → W → (W → Sent W) → Sent W
  settle_post left backoff r w next =
      posted r (if accepted r then stopped w none else retry left backoff r w next)

  -- The loop with `left` attempts to go; the doubled backoff wraps as an int64 does.
  unfoldable pub send_loop : (left backoff : ℕ) → Option Reply → W → Sent W
  send_loop zero backoff last w = stopped w (some (gave_up total last))
  send_loop (suc left) backoff last w = elim client.build [
    | some err ↦ stopped w (some (not_built err))
    | none ↦
        let (w', r) = client.post body w in
        settle_post left backoff r w' (send_loop left (backoff * 2 % 2 ^ 64) (some r))
  ]

-- `Send`.
unfoldable pub send : {W : Type 0} → Client W → ℤ → Bytes → W → Sent W
unfolding send_loop
send client retries body w =
    send_loop client (attempts_of retries) body (attempts_of retries) second none w
