-- ===== src/Client/Receiver.antt =====
-- internal/client/receiver.go: InputReceiver. The mutex `ir.mu` is a flag: an operation that takes
-- it while it is held never returns, which is the outcome `blocked`. Callbacks are started on their
-- own, and only their calls are kept.
use waymon.Common.{ℕ, ◌+◌, String, Bool, true, false, Option, none, some, List, ◌∷◌, if◌then◌else◌}
use waymon.Common.Int.{uint32}
use waymon.Proto.{
  ControlType, switch_to_local, switch_to_client, request_control, release_control,
  client_list_request, client_list_response, client_config, server_shutdown, ControlEvent, Event,
  mouse_move, mouse_button, mouse_scroll, keyboard, control, mouse_position, unset, InputEvent,
}

-- The calls of the virtual input.
pub data Injection (V : Type 0) : Type 0 where
  inject_mouse_move inject_mouse_scroll : V → V → Injection V
  inject_mouse_button inject_key_event : ℕ → Bool → Injection V
  inject_mouse_position : ℕ → ℕ → Injection V

-- The SSH client and the input backend as the receiver sees them; `inject` is one of the `Inject…`
-- methods, and whether it succeeded.
pub record Link : Type 1 where
  pub Value : Type 0
  pub Net : Type 0
  pub disconnect : Net → Net
  pub Backend : Type 0
  pub stop_backend : Backend → Backend
  pub inject : Injection Value → Backend → Backend × Bool

pub record ControlStatus : Type 0 where
  pub being_controlled : Bool
  pub controller_name : String
  pub controller_id : String
  pub connected_at : ℕ

abbrev pub no_control : ControlStatus
no_control = record {
  being_controlled = false;
  controller_name = "";
  controller_id = "";
  connected_at = 0;
}

pub data ReconnectStatus : Type 0 where
  shutdown_detected connection_lost reconnected : ReconnectStatus
  attempting retrying : ℕ → ReconnectStatus

pub record InputReceiver (L : Link) : Type 0 where
  pub locked : Bool
  pub connected : Bool
  pub server_address : String
  pub ssh_connection : Bool  -- whether `sshConnection` is not nil
  pub net : L.Net
  pub input_backend : L.Backend
  pub control_status : ControlStatus
  pub on_status_change : Bool
  pub status_changes : List ControlStatus  -- the calls of the callback, the newest first
  pub client_id : String
  pub on_connected : Bool
  pub connections : ℕ  -- the calls of the callback
  pub on_disconnected : Bool
  pub disconnections : ℕ
  pub private_key_path : String
  pub monitors : ℕ  -- how often `monitorConnection` has been started
  pub reconnect_enabled : Bool
  pub reconnect_in_progress : Bool
  pub on_reconnect_status : Bool
  pub reconnect_statuses : List ReconnectStatus  -- the calls, the newest first

pub data Outcome (A : Type 0) : Type 0 where
  finished : A → Outcome A
  blocked : A → Outcome A  -- waiting for a lock, in this state

abbrev pub and_then : {A : Type 0} → Outcome A → (A → Outcome A) → Outcome A
and_then (finished a) f = f a
and_then (blocked a) f = blocked a

abbrev pub grant : ℕ → String → ControlStatus → ControlStatus
grant now server s = record s {
  being_controlled = true;
  controller_name = server;
  connected_at = now;
}

abbrev pub revoke : ControlStatus → ControlStatus
revoke s = record s { being_controlled = false; controller_name = "" }

-- `injectEvent`: the call it makes; none is an event of another kind.
abbrev pub injection : {V : Type 0} → Event V → Option (Injection V)
injection (mouse_move dx dy) = some (inject_mouse_move dx dy)
injection (mouse_button button pressed) = some (inject_mouse_button button pressed)
injection (mouse_scroll dx dy) = some (inject_mouse_scroll dx dy)
injection (keyboard key pressed) = some (inject_key_event key pressed)
injection (mouse_position x y) = some (inject_mouse_position (uint32 x) (uint32 y))
injection (control c) = none
injection unset = none

module _ {L : Link} where
  abbrev pub lock : InputReceiver L → Outcome (InputReceiver L)
  lock ir = if ir.locked then blocked ir else finished (record ir { locked = true })

  abbrev pub unlock : InputReceiver L → InputReceiver L
  unlock ir = record ir { locked = false }

  abbrev pub set_control : ControlStatus → InputReceiver L → InputReceiver L
  set_control status ir = record ir { control_status = status }

  -- `if ir.onStatusChange != nil { … }`
  abbrev pub notify_status : InputReceiver L → InputReceiver L
  notify_status ir =
      if ir.on_status_change
      then record ir { status_changes = ir.control_status ∷ ir.status_changes }
      else ir

  -- `if ir.onConnected != nil { … }`
  abbrev pub notify_connected : InputReceiver L → InputReceiver L
  notify_connected ir =
      if ir.on_connected then record ir { connections = ir.connections + 1 } else ir

  -- `if ir.onDisconnected != nil { … }`
  abbrev pub notify_disconnected : InputReceiver L → InputReceiver L
  notify_disconnected ir =
      if ir.on_disconnected then record ir { disconnections = ir.disconnections + 1 } else ir

  -- `notifyReconnectStatus`, which takes the lock to read the callback.
  unfoldable pub notify_reconnect_status :
      ReconnectStatus → InputReceiver L → Outcome (InputReceiver L)
  notify_reconnect_status status ir =
      if ir.locked
      then blocked ir
      else if ir.on_reconnect_status
      then finished (record ir { reconnect_statuses = status ∷ ir.reconnect_statuses })
      else finished ir

  abbrev pub drop_connection : InputReceiver L → InputReceiver L
  drop_connection ir =
      if ir.ssh_connection
      then record ir { ssh_connection = false; net = L.disconnect ir.net }
      else ir

  -- `case protocol.ControlEvent_SERVER_SHUTDOWN`, under the lock.
  abbrev pub shut_down : InputReceiver L → Outcome (InputReceiver L)
  shut_down ir =
      notify_reconnect_status shutdown_detected
        (drop_connection (record ir { connected = false; control_status = no_control }))

  -- The `switch` of `handleControlEvent`.
  abbrev pub switch_control : ℕ → ControlType → String → InputReceiver L → Outcome (InputReceiver L)
  switch_control now request_control target ir =
      finished (set_control (grant now target ir.control_status) ir)
  switch_control now release_control target ir =
      finished (set_control (revoke ir.control_status) ir)
  switch_control now switch_to_local target ir =
      finished (set_control (revoke ir.control_status) ir)
  switch_control now server_shutdown target ir = shut_down ir
  switch_control now switch_to_client target ir = finished ir
  switch_control now client_list_request target ir = finished ir
  switch_control now client_list_response target ir = finished ir
  switch_control now client_config target ir = finished ir

  unfoldable pub handle_control_event :
      ℕ → ControlEvent L.Value → InputReceiver L → Outcome (InputReceiver L)
  unfolding notify_reconnect_status
  handle_control_event now c ir = and_then (lock ir) (λ ir.
      and_then (switch_control now c.type c.target_id ir)
        (λ ir. finished (unlock (notify_status ir))))

  abbrev pub inject_event : Event L.Value → InputReceiver L → InputReceiver L
  inject_event event ir = elim (injection event) [
    | none ↦ ir
    | some call ↦ record ir { input_backend = (L.inject call ir.input_backend).0 }
  ]

  -- The part of `processInputEvent` after the control events.
  abbrev pub process_input : Event L.Value → InputReceiver L → Outcome (InputReceiver L)
  process_input event ir =
      if ir.locked
      then blocked ir
      else if ir.control_status.being_controlled
      then finished (inject_event event ir)
      else finished ir

  abbrev pub process_event : ℕ → Event L.Value → InputReceiver L → Outcome (InputReceiver L)
  process_event now (control c) ir = handle_control_event now c ir
  process_event now (mouse_move dx dy) ir = process_input (mouse_move dx dy) ir
  process_event now (mouse_button button pressed) ir =
      process_input (mouse_button button pressed) ir
  process_event now (mouse_scroll dx dy) ir = process_input (mouse_scroll dx dy) ir
  process_event now (keyboard key pressed) ir = process_input (keyboard key pressed) ir
  process_event now (mouse_position x y) ir = process_input (mouse_position x y) ir
  process_event now unset ir = process_input unset ir

  unfoldable pub process_input_event :
      ℕ → InputEvent L.Value → InputReceiver L → Outcome (InputReceiver L)
  unfolding handle_control_event
  process_input_event now event ir = process_event now event.event ir
