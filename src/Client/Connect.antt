-- ===== src/Client/Connect.antt =====
-- internal/client/receiver.go: NewInputReceiver, Connect, reconnectToServer, the configuration that
-- they send, RequestControlRelease and the setters. Dialling, sending, the displays and the
-- environment are parameters.
use waymon.Common.{
  ℕ, ◌+◌, String, Bool, true, false, not, ◌||◌, Option, none, some, List, [], map, str_eq,
  str_append, if◌then◌else◌,
}
use waymon.Common.Int.{pos}
use waymon.Proto.{
  ClientCapabilities, ClientConfig, ControlEvent, InputEvent, control, client_config,
  release_control,
}
use waymon.Proto
use waymon.Display.Monitor
use waymon.Client.Receiver.{
  Link, InputReceiver, Outcome, finished, blocked, unlock, no_control, drop_connection,
  notify_status, notify_connected, set_control, revoke,
}

-- What the receiver uses of the rest of the client. `displays` is `display.New` with
-- `GetMonitors`, none an error; an unset variable of the environment is empty.
pub record Outside (L : Link) : Type 0 where
  pub start_backend : L.Backend → L.Backend × Bool
  pub dial : String → String → L.Net → L.Net × Bool  -- `Connect` with a key to an address
  pub send : InputEvent L.Value → L.Net → L.Net × Bool
  pub displays : Option (List (Monitor.Monitor L.Value))
  pub getenv : String → String

pub data Error : Type 0 where
  already_connected backend_failed dial_failed not_connected no_display : Error
  send_failed no_connection : Error

-- `NewInputReceiver`, with the backend and the name of the host, none where there is none.
unfoldable pub new_input_receiver :
    (L : Link) → Option L.Backend → Option String → L.Net → String → Option (InputReceiver L)
new_input_receiver L none host net address = none
new_input_receiver L (some backend) host net address = some (record {
  locked = false;
  connected = false;
  server_address = address;
  ssh_connection = false;
  net = net;
  input_backend = backend;
  control_status = no_control;
  on_status_change = false;
  status_changes = [];
  client_id = elim host [ none ↦ "unknown-client" | some name ↦ name ];
  on_connected = false;
  connections = 0;
  on_disconnected = false;
  disconnections = 0;
  private_key_path = "";
  monitors = 0;
  reconnect_enabled = false;
  reconnect_in_progress = false;
  on_reconnect_status = false;
  reconnect_statuses = [];
})

-- `getWaylandCompositor`
unfoldable pub get_wayland_compositor : (String → String) → String
get_wayland_compositor getenv =
    if not (str_eq (getenv "XDG_CURRENT_DESKTOP") "")
    then getenv "XDG_CURRENT_DESKTOP"
    else if not (str_eq (getenv "WAYLAND_DISPLAY") "")
    then str_append "wayland-" (getenv "WAYLAND_DISPLAY")
    else if not (str_eq (getenv "DESKTOP_SESSION") "")
    then getenv "DESKTOP_SESSION"
    else "unknown"

-- A monitor as it is sent.
abbrev pub protocol_monitor : {V : Type 0} → Monitor.Monitor V → Proto.Monitor V
protocol_monitor m = record {
  name = m.name;
  x = m.x;
  y = m.y;
  width = m.width;
  height = m.height;
  primary = m.primary;
  scale = m.scale;
  refresh_rate = pos 60;
}

abbrev pub capabilities : (String → String) → ClientCapabilities
capabilities getenv = record {
  can_receive_keyboard = true;
  can_receive_mouse = true;
  can_receive_scroll = true;
  wayland_compositor = get_wayland_compositor getenv;
  uinput_version = "wayland-virtual-input-v0.1.3";
}

-- The event that carries the configuration.
unfoldable pub configuration_event :
    {V : Type 0} → ℕ → String → (String → String) → List (Monitor.Monitor V) → InputEvent V
configuration_event now client_id getenv ms = record {
  event = control (record {
    type = client_config;
    target_id = "";
    config = some (record {
      client_id = client_id;
      client_name = client_id;
      monitors = map protocol_monitor ms;
      capabilities = some (capabilities getenv);
    });
  });
  timestamp = now;
  source_id = client_id;
}

abbrev pub release_event : {V : Type 0} → ℕ → String → InputEvent V
release_event now client_id = record {
  event = control (record { type = release_control; target_id = ""; config = none });
  timestamp = now;
  source_id = client_id;
}

module _ {L : Link} (O : Outside L) where
  -- `sendClientConfiguration`, under the lock.
  unfoldable pub send_client_configuration : ℕ → InputReceiver L → InputReceiver L × Option Error
  send_client_configuration now ir = elim O.displays [
    | none ↦ (ir, some no_display)
    | some ms ↦
        let (after, sent) = O.send (configuration_event now ir.client_id O.getenv ms) ir.net in
        if ir.ssh_connection
        then (record ir { net = after }, if sent then none else some send_failed)
        else (ir, none)
  ]

  abbrev pub enable_reconnection : InputReceiver L → InputReceiver L
  enable_reconnection ir = record ir { reconnect_enabled = true; monitors = ir.monitors + 1 }

  -- The connection is kept, and the configuration sent; an error of that is only logged.
  abbrev pub established : ℕ → L.Net → InputReceiver L → InputReceiver L
  established now net ir =
      (send_client_configuration now
        (record ir { net = net; ssh_connection = true; connected = true })).0

  -- `Connect` from the dialling on.
  abbrev pub dial_server : ℕ → InputReceiver L → InputReceiver L × Option Error
  dial_server now ir =
      let (net, dialled) = O.dial ir.private_key_path ir.server_address ir.net in
      if dialled then (notify_connected (enable_reconnection (established now net ir)), none) else (
        record ir { net = net; input_backend = L.stop_backend ir.input_backend },
        some dial_failed,
      )

  abbrev pub connect_locked : ℕ → String → InputReceiver L → InputReceiver L × Option Error
  connect_locked now key ir =
      let (backend, started) = O.start_backend ir.input_backend in
      let keyed = record ir { private_key_path = key; input_backend = backend } in
      if ir.connected
      then (ir, some already_connected)
      else if started
      then dial_server now keyed
      else (keyed, some backend_failed)

  -- The lock is held for the whole of an operation.
  abbrev pub with_lock :
      (InputReceiver L → InputReceiver L × Option Error)
      → InputReceiver L
      → Outcome (InputReceiver L) × Option Error
  with_lock f ir =
      let (after, e) = f (record ir { locked = true }) in
      if ir.locked then (blocked ir, none) else (finished (unlock after), e)

  unfoldable pub connect : ℕ → String → InputReceiver L → Outcome (InputReceiver L) × Option Error
  unfolding send_client_configuration
  connect now key ir = with_lock (connect_locked now key) ir

  -- `reconnectToServer` from the dialling on.
  abbrev pub redial : ℕ → InputReceiver L → InputReceiver L × Option Error
  redial now ir =
      let (net, dialled) = O.dial ir.private_key_path ir.server_address ir.net in
      if dialled
      then (notify_connected (established now net ir), none)
      else (record ir { net = net }, some dial_failed)

  unfoldable pub reconnect_to_server :
      ℕ → InputReceiver L → Outcome (InputReceiver L) × Option Error
  unfolding send_client_configuration
  reconnect_to_server now ir = with_lock (λ ir. redial now (drop_connection ir)) ir

  -- `RequestControlRelease`, which takes the lock to read and again to write.
  unfoldable pub request_control_release :
      ℕ → InputReceiver L → Outcome (InputReceiver L) × Option Error
  request_control_release now ir =
      let (net, sent) = O.send (release_event now ir.client_id) ir.net in
      if ir.locked
      then (blocked ir, none)
      else if not ir.ssh_connection
      then (finished ir, some no_connection)
      else if sent
      then (
        finished (notify_status (set_control (revoke ir.control_status) (record ir { net = net }))),
        none,
      )
      else (finished (record ir { net = net }), some send_failed)

-- `SendStatusUpdate`, which does not send yet.
unfoldable pub send_status_update : {L : Link} → InputReceiver L → Option Error
send_status_update ir =
    if not ir.connected || not ir.ssh_connection then some not_connected else none
