-- ===== src/Manager/Clients.antt =====
-- internal/server/manager.go: clients that come, go and describe themselves; the emergency mark.
use waymon.Common.{
  ℕ, String, Bool, true, not, ◌&&◌, ◌||◌, Option, none, some, List, [], ◌∷◌, str_eq, if◌then◌else◌,
  length,
}
use waymon.Common.Assoc.{lookup, insert, delete, adjust}
use waymon.Proto.{ClientConfig, control, server_shutdown, InputEvent, client_idle}
use waymon.Manager.State.{
  Platform, ClientManager, ConnectedClient, CursorState, Rect, client_connected,
  client_disconnected, disconnected_active, client_configured, notify,
}
use waymon.Manager.Cursor.{calculate_total_display_bounds, constrain_cursor_position}
use waymon.Manager.Switch.{server_event}

module _ {V : Type 0} where
  unfoldable pub configure : ClientConfig V → ConnectedClient V → ConnectedClient V
  configure config c = record c {
    monitors = config.monitors;
    capabilities = config.capabilities;
    name =
        if not (str_eq config.client_name "") && not (str_eq c.name config.client_name)
        then config.client_name
        else c.name;
  }

module _ (P : Platform) where
  open P use {float, Ssh, set_target, send_event_to_client}

  -- How a handler ends: normally, with a goroutine started that calls `SwitchToLocal`, or in a
  -- panic, with the state as it was left.
  pub data Outcome : Type 0 where
    done : ClientManager P → Outcome
    then_switch_to_local : ClientManager P → Outcome
    panics : ClientManager P → Outcome

  unfoldable pub register_client : ℕ → String → String → String → ClientManager P → ClientManager P
  register_client now id name address cm = notify P (client_connected name address) (record cm {
    clients =
        insert id
          (record {
            id = id;
            name = name;
            address = address;
            status = client_idle;
            connected_at = now;
            monitors = [];
            capabilities = none;
          })
          cm.clients;
  })

  -- "If this was the active client, switch to local and release input"
  unfoldable pub release_if_active :
      String → ConnectedClient float.Value → ClientManager P → ClientManager P
  release_if_active id c cm =
      let (backend, _) = set_target "" cm.input_backend in
      if str_eq cm.active_client_id id
      then notify P (disconnected_active c.name c.address)
          (record cm { input_backend = backend; active_client_id = ""; controlling_local = true })
      else cm

  abbrev pub remove : String → ClientManager P → ClientManager P
  remove id cm = record cm {
    clients = delete id cm.clients;
    client_cursors = delete id cm.client_cursors;
  }

  unfoldable pub unregister_client : String → ClientManager P → ClientManager P
  unregister_client id cm = elim (lookup id cm.clients) [
    | none ↦ cm
    | some c ↦
        notify P (client_disconnected c.name c.address) (remove id (release_if_active id c cm))
  ]

  -- The test of the search in `updateClientConfiguration`.
  unfoldable pub is_match :
      ClientConfig float.Value → String → String × ConnectedClient float.Value → Bool
  is_match config source (key, c) =
      str_eq c.id config.client_id
      || (str_eq c.name config.client_name
          || (str_eq key config.client_id || (str_eq key source || str_eq c.address source)))

  unfoldable pub find_match :
      ClientConfig float.Value
      → String
      → List (String × ConnectedClient float.Value)
      → Option (String × ConnectedClient float.Value)
  find_match config source [] = none
  find_match config source (e ∷ es) =
      if is_match config source e then some e else find_match config source es

  -- "If no exact match and we only have one client, use that client"
  abbrev pub only_client :
      List (String × ConnectedClient float.Value) → Option (String × ConnectedClient float.Value)
  only_client (e ∷ []) = some e
  only_client _ = none

  unfoldable pub target_client :
      ClientConfig float.Value
      → String
      → List (String × ConnectedClient float.Value)
      → Option (String × ConnectedClient float.Value)
  target_client config source es = elim (find_match config source es) [
    | none ↦ only_client es
    | some e ↦ some e
  ]

  -- New bounds, and the position brought within them.
  unfoldable pub rebound : Rect float.Value → CursorState float.Value → CursorState float.Value
  rebound b cursor =
      let (x, y) = constrain_cursor_position float cursor.x cursor.y b in
      record { x = x; y = y; bounds = b }

  -- "Update cursor bounds if this is the active client"
  unfoldable pub update_cursor_bounds :
      ClientConfig float.Value → String → ClientManager P → ClientManager P
  update_cursor_bounds config id cm = elim config.monitors [
    | [] ↦ cm
    | m ∷ ms ↦
        if str_eq cm.active_client_id id
        then record cm {
          client_cursors =
              adjust id (rebound (calculate_total_display_bounds float (m ∷ ms))) cm.client_cursors;
        }
        else cm
  ]

  -- `config.Capabilities.WaylandCompositor` is read for a log line, and panics on nil.
  unfoldable pub update_client_configuration :
      ClientConfig float.Value → String → ClientManager P → Outcome
  update_client_configuration config source cm = elim (target_client config source cm.clients) [
    | none ↦ done cm
    | some (key, c) ↦
        let updated = record cm { clients = adjust key (configure config) cm.clients } in
        elim config.capabilities [
          | none ↦ panics updated
          | some _ ↦ done (
              update_cursor_bounds config c.id (
                notify P (client_configured (configure config c).name (length config.monitors))
                  updated))
        ]
  ]

  unfoldable pub mark_emergency_release : ℕ → ClientManager P → ClientManager P
  mark_emergency_release now cm = record cm { emergency_release_time = some now }

  -- `Stop`. The SSH server's own `Stop` is in internal/network.
  unfoldable pub stop : (Ssh → Ssh) → ClientManager P → ClientManager P
  stop stop_ssh cm = record cm {
    ssh_server = elim cm.ssh_server [ none ↦ none | some ssh ↦ some (stop_ssh ssh) ];
    clients = [];
    active_client_id = "";
    controlling_local = true;
    client_cursors = [];
  }

  unfoldable pub set_on_activity : Bool → ClientManager P → ClientManager P
  set_on_activity callback cm = record cm { on_activity = callback }

  unfoldable pub set_ssh_server : Ssh → ClientManager P → ClientManager P
  set_ssh_server ssh cm = record cm { ssh_server = some ssh }

  abbrev pub shutdown_event : ℕ → InputEvent float.Value
  shutdown_event now =
      server_event P now
        (control (record { type = server_shutdown; target_id = ""; config = none }))

  -- The loop of `NotifyShutdown`: one event to each client.
  unfoldable pub send_shutdown : ℕ → List (String × ConnectedClient float.Value) → Ssh → Ssh
  send_shutdown now [] ssh = ssh
  send_shutdown now ((key, c) ∷ es) ssh =
      let (sent, _) = send_event_to_client c.address (shutdown_event now) ssh in
      send_shutdown now es sent

  unfoldable pub notify_shutdown : ℕ → ClientManager P → ClientManager P
  notify_shutdown now cm = elim cm.ssh_server [
    | none ↦ cm
    | some ssh ↦ record cm { ssh_server = some (send_shutdown now cm.clients ssh) }
  ]
