-- ===== src/Client/Reconnect.antt =====
-- internal/client/receiver.go: monitorConnection, attemptReconnection and Disconnect.
use waymon.Common.{ℕ, zero, suc, ◌*◌, Bool, true, false, not, List, [], ◌∷◌, if◌then◌else◌, ltb}
use waymon.Client.Receiver.{
  Link, InputReceiver, Outcome, finished, blocked, and_then, notify_reconnect_status, lock, unlock,
  connection_lost, no_control, drop_connection, notify_status, notify_disconnected,
}

-- A turn of `monitorConnection` at a tick: whether the goroutine goes on, and whether it has
-- started `attemptReconnection`.
pub record Monitoring (L : Link) : Type 0 where
  pub receiver : InputReceiver L
  pub goes_on : Bool
  pub started : Bool

module _ {L : Link} where
  abbrev pub watched : Bool → Bool → Outcome (InputReceiver L) → Outcome (Monitoring L)
  watched goes_on started (finished ir) =
      finished (record { receiver = ir; goes_on = goes_on; started = started })
  watched goes_on started (blocked ir) =
      blocked (record { receiver = ir; goes_on = true; started = false })

  -- The part of a tick that starts the reconnection.
  abbrev pub start_reconnection : InputReceiver L → Outcome (InputReceiver L)
  start_reconnection ir = and_then (lock ir) (λ ir.
      and_then
        (notify_reconnect_status connection_lost (record ir { reconnect_in_progress = true }))
        (λ ir. finished (unlock (notify_disconnected ir))))

  unfoldable pub monitor_tick : InputReceiver L → Outcome (Monitoring L)
  unfolding notify_reconnect_status
  monitor_tick ir =
      if ir.locked
      then blocked (record { receiver = ir; goes_on = true; started = false })
      else if not ir.reconnect_enabled
      then watched false false (finished ir)
      else if ir.connected
      then watched true false (finished ir)
      else if ir.reconnect_in_progress
      then watched true false (finished ir)
      else watched true true (start_reconnection ir)

  -- `Disconnect`
  unfoldable pub disconnect : InputReceiver L → Outcome (InputReceiver L)
  disconnect ir = and_then (lock ir) (λ ir.
      if ir.connected
      then (let dropped = drop_connection (record ir { reconnect_enabled = false }) in
          finished (
            unlock (
              notify_disconnected (
                notify_status (record dropped {
                  input_backend = L.stop_backend dropped.input_backend;
                  connected = false;
                  control_status = no_control;
                })))))
      else finished (unlock ir))

abbrev pub max_backoff : ℕ
max_backoff = 60

-- `backoff *= 2`, capped, in seconds.
unfoldable pub next_backoff : ℕ → ℕ
next_backoff b = if ltb max_backoff (b * 2) then max_backoff else b * 2

-- `attemptReconnection` over the results of its attempts, while reconnection stays enabled and is
-- not cancelled: the waits between them, and whether it has connected.
unfoldable pub attempt_reconnection : ℕ → List Bool → List ℕ × Bool
unfolding next_backoff
attempt_reconnection backoff [] = ([], false)
attempt_reconnection backoff (connected ∷ results) =
    let (rest, done) = attempt_reconnection (next_backoff backoff) results in
    if connected then ([], true) else (backoff ∷ rest, done)

-- The first wait is one second.
unfoldable pub reconnect : List Bool → List ℕ × Bool
unfolding attempt_reconnection
reconnect results = attempt_reconnection 1 results

unfoldable pub doubled : ℕ → ℕ
doubled zero = 1
doubled (suc k) = doubled k * 2

abbrev pub capped : ℕ → ℕ
capped n = if ltb max_backoff n then max_backoff else n

-- The attempts until the first that connects wait for 1, 2, 4, … seconds, at most 60.
unfoldable pub expected_waits : ℕ → List Bool → List ℕ
unfolding doubled
expected_waits k [] = []
expected_waits k (true ∷ results) = []
expected_waits k (false ∷ results) = capped (doubled k) ∷ expected_waits (suc k) results

abbrev pub any_connected : List Bool → Bool
any_connected [] = false
any_connected (true ∷ results) = true
any_connected (false ∷ results) = any_connected results
