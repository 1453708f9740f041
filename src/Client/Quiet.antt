-- ===== src/Client/Quiet.antt =====
-- internal/client/receiver.go: whether the monitor of the connection ever starts a reconnection.
use waymon.Common.{
  ℕ, ◌≡◌, refl, String, true, false, not, ◌||◌, Option, none, some, List, [], ◌∷◌, arith,
  if◌then◌else◌, subst, sym, ap, ◌∙◌,
}
use waymon.Proto.{
  ControlEvent, Event, mouse_move, mouse_button, mouse_scroll, keyboard, control, mouse_position,
  unset, InputEvent,
}
use waymon.Client.Receiver.{
  Link, InputReceiver, Outcome, finished, blocked, notify_reconnect_status, handle_control_event,
  process_input, process_event, process_input_event,
}
use waymon.Client.Connect.{
  Outside, new_input_receiver, send_client_configuration, connect, request_control_release,
}
use waymon.Client.Reconnect.{Monitoring, monitor_tick, disconnect}

-- What happens to a receiver: the calls of the program, the events of the connection, and the ticks
-- of `monitorConnection`.
pub data Call (L : Link) : Type 0 where
  connects : ℕ → String → Call L
  disconnects ticks : Call L
  processes : ℕ → InputEvent L.Value → Call L
  requests_release : ℕ → Call L

module _ {L : Link} where
  -- A call that waits leaves the state in which it waits.
  abbrev pub left : Outcome (InputReceiver L) → InputReceiver L
  left (finished ir) = ir
  left (blocked ir) = ir

  abbrev pub left_monitoring : Outcome (Monitoring L) → InputReceiver L
  left_monitoring (finished m) = m.receiver
  left_monitoring (blocked m) = m.receiver

  unfoldable pub step : Outside L → InputReceiver L → Call L → InputReceiver L
  step O ir (connects now key) = left (connect O now key ir).0
  step O ir disconnects = left (disconnect ir)
  step O ir ticks = left_monitoring (monitor_tick ir)
  step O ir (processes now e) = left (process_input_event now e ir)
  step O ir (requests_release now) = left (request_control_release O now ir).0

  unfoldable pub run : Outside L → InputReceiver L → List (Call L) → InputReceiver L
  run O ir [] = ir
  run O ir (call ∷ calls) = run O (step O ir call) calls

  -- No reconnection is in progress; and who can take the lock finds a connection wherever
  -- reconnection is enabled.
  record IsQuiet (ir : InputReceiver L) : Type 0 where
    calm : ir.reconnect_in_progress ≡ false
    live : (ir.locked || not ir.reconnect_enabled || ir.connected) ≡ true

  connect-IsQuiet :
      (O : Outside L) (now : ℕ) (key : String) (ir : InputReceiver L)
      → IsQuiet ir
      → IsQuiet (left (connect O now key ir).0)
  unfolding connect send_client_configuration
  connect-IsQuiet O now key ir h = ground (arith, h.calm, h.live)

  disconnect-IsQuiet : (ir : InputReceiver L) → IsQuiet ir → IsQuiet (left (disconnect ir))
  unfolding disconnect
  disconnect-IsQuiet ir h = ground (arith, h.calm, h.live)

  release-IsQuiet :
      (O : Outside L) (now : ℕ) (ir : InputReceiver L)
      → IsQuiet ir
      → IsQuiet (left (request_control_release O now ir).0)
  unfolding request_control_release
  release-IsQuiet O now ir h = ground (arith, h.calm, h.live)

  -- The monitor looks, and leaves everything as it is, or waits for the lock.
  abbrev pub only_looks : InputReceiver L → Outcome (Monitoring L)
  only_looks ir =
      if ir.locked
      then blocked (record { receiver = ir; goes_on = true; started = false })
      else finished (record { receiver = ir; goes_on = ir.reconnect_enabled; started = false })

  tick-IsQuiet : (ir : InputReceiver L) → IsQuiet ir → monitor_tick ir ≡ only_looks ir
  unfolding monitor_tick notify_reconnect_status
  tick-IsQuiet ir h = ground (arith, h.calm, h.live)

  switch-IsQuiet :
      (now : ℕ) (c : ControlEvent L.Value) (ir : InputReceiver L)
      → IsQuiet ir
      → IsQuiet (left (handle_control_event now c ir))
  unfolding handle_control_event notify_reconnect_status
  switch-IsQuiet now c ir h = ground (arith, h.calm, h.live, c.type)

  input-IsQuiet :
      (event : Event L.Value) (ir : InputReceiver L)
      → IsQuiet ir
      → IsQuiet (left (process_input event ir))
  input-IsQuiet event ir h = ground (arith, h.calm, h.live)

  event-IsQuiet :
      (now : ℕ) (event : Event L.Value) (ir : InputReceiver L)
      → IsQuiet ir
      → IsQuiet (left (process_event now event ir))
  event-IsQuiet now (control c) ir h = switch-IsQuiet now c ir h
  event-IsQuiet now (mouse_move dx dy) ir h = input-IsQuiet (mouse_move dx dy) ir h
  event-IsQuiet now (mouse_button button pressed) ir h =
      input-IsQuiet (mouse_button button pressed) ir h
  event-IsQuiet now (mouse_scroll dx dy) ir h = input-IsQuiet (mouse_scroll dx dy) ir h
  event-IsQuiet now (keyboard key pressed) ir h = input-IsQuiet (keyboard key pressed) ir h
  event-IsQuiet now (mouse_position x y) ir h = input-IsQuiet (mouse_position x y) ir h
  event-IsQuiet now unset ir h = input-IsQuiet unset ir h

  only_looks-left : (ir : InputReceiver L) → left_monitoring (only_looks ir) ≡ ir
  only_looks-left ir = ground arith

  step-IsQuiet :
      (O : Outside L) (ir : InputReceiver L) (call : Call L) → IsQuiet ir → IsQuiet (step O ir call)
  unfolding step process_input_event
  step-IsQuiet O ir (connects now key) h = connect-IsQuiet O now key ir h
  step-IsQuiet O ir disconnects h = disconnect-IsQuiet ir h
  step-IsQuiet O ir ticks h =
      subst IsQuiet (sym (ap left_monitoring (tick-IsQuiet ir h) ∙ only_looks-left ir)) h
  step-IsQuiet O ir (processes now e) h = event-IsQuiet now e.event ir h
  step-IsQuiet O ir (requests_release now) h = release-IsQuiet O now ir h

  run-IsQuiet :
      (O : Outside L) (ir : InputReceiver L) (calls : List (Call L))
      → IsQuiet ir
      → IsQuiet (run O ir calls)
  unfolding run
  run-IsQuiet O ir [] h = h
  run-IsQuiet O ir (call ∷ calls) h =
      run-IsQuiet O (step O ir call) calls (step-IsQuiet O ir call h)

  abbrev IsQuietIfSome : Option (InputReceiver L) → Type 0
  IsQuietIfSome none = Unit
  IsQuietIfSome (some ir) = IsQuiet ir

-- No reconnection is ever started. From a new receiver on, however Connect, Disconnect, messages
-- from the connection, requests for a release and ticks of the monitor follow one another, and
-- whatever fails, no reconnection is in progress, and a tick of the monitor finds the lock taken and
-- waits, or leaves everything as it is and ends exactly where reconnection is off.
pub monitor_tick_only_looks :
    (L : Link) (O : Outside L) (backend : L.Backend) (host : Option String) (net : L.Net)
    (address : String) (start : InputReceiver L) (calls : List (Call L))
    → new_input_receiver L (some backend) host net address ≡ some start
    → let ir = run O start calls in
      (ir.reconnect_in_progress ≡ false)
      × (monitor_tick ir ≡ (
          if ir.locked
          then blocked (record { receiver = ir; goes_on = true; started = false })
          else finished
              (record { receiver = ir; goes_on = ir.reconnect_enabled; started = false })))
unfolding new_input_receiver
monitor_tick_only_looks L O backend host net address start calls new =
    let h : IsQuiet (run O start calls) =
      run-IsQuiet O start calls (subst IsQuietIfSome new (record { calm = refl; live = refl })) in
    (h.calm, tick-IsQuiet _ h)
