-- ===== src/Manager/Switch.antt =====
-- internal/server/manager.go: SwitchToClient, SwitchToLocal, SwitchToNextClient and what they call.
-- An `error` that is only logged is dropped, as in the source. `now` is the time of the call.
use waymon.Common.{
  ℕ, suc, ◌%◌, String, Bool, true, false, not, ◌&&◌, Option, none, some, List, [], ◌∷◌, str_eq,
  if◌then◌else◌, length, get_elem?,
}
use waymon.Common.Assoc.{lookup, insert, adjust, keys}
use waymon.Float.{Float64}
use waymon.Proto.{
  Monitor, ControlType, request_control, release_control, Event, control, mouse_position,
  InputEvent, client_idle, client_being_controlled,
}
use waymon.Manager.State.{
  Platform, ClientManager, ConnectedClient, CursorState, Rect, Error, set_target_failed,
  client_not_found, started_controlling, released_control, set_status, notify,
}
use waymon.Manager.Cursor.{calculate_total_display_bounds, find_main_monitor, center_x, center_y}

-- The index of the active client among `ids`, or none for the -1 of the source.
unfoldable pub index_of : String → List String → Option ℕ
index_of id [] = none
index_of id (j ∷ ids) =
    if str_eq j id then some 0 else elim (index_of id ids) [ none ↦ none | some i ↦ some (suc i) ]

-- `currentIndex + 1`
abbrev pub next_index : Option ℕ → ℕ
next_index none = 0
next_index (some i) = suc i

-- `serverName`
abbrev pub server_name : Option String → String
server_name none = "waymon-server"
server_name (some name) = name

module _ (F : Float64) where
  open F use {Value, add, half, of_int}

  -- A cursor at the centre of a monitor; with none, at the centre of the bounds.
  unfoldable pub cursor_at : Rect Value → Option (Monitor Value) → CursorState Value
  cursor_at b none = record {
    x = half (add b.min_x b.max_x);
    y = half (add b.min_y b.max_y);
    bounds = b;
  }
  cursor_at b (some m) = record { x = of_int (center_x m); y = of_int (center_y m); bounds = b }

  -- The cursor state that `SwitchToClient` sets up, for a client that has monitors.
  unfoldable pub initial_cursor : List (Monitor Value) → CursorState Value
  unfolding cursor_at
  initial_cursor ms = cursor_at (calculate_total_display_bounds F ms) (find_main_monitor ms)

module _ (P : Platform) where
  open P use {float, Backend, Ssh, set_target, send_event_to_client, hostname}

  -- An input event of the server, at time `now`.
  abbrev pub server_event : ℕ → Event float.Value → InputEvent float.Value
  server_event now e = record { event = e; timestamp = now; source_id = "server" }

  abbrev pub control_event : ℕ → ControlType → String → InputEvent float.Value
  control_event now t target =
      server_event now (control (record { type = t; target_id = target; config = none }))

  -- `positionCursorOnMainMonitor`; false is an error, which the caller only logs.
  unfoldable pub position_cursor_on_main_monitor :
      ℕ → ConnectedClient float.Value → Ssh → Ssh × Bool
  position_cursor_on_main_monitor now c ssh = elim (find_main_monitor c.monitors) [
    | none ↦ (ssh, false)
    | some m ↦
        send_event_to_client c.address (server_event now (mouse_position (center_x m) (center_y m)))
          ssh
  ]

  abbrev pub has_monitors : ConnectedClient float.Value → Bool
  has_monitors c = elim c.monitors [ [] ↦ false | m ∷ ms ↦ true ]

  -- The block `if cm.sshServer != nil` of `SwitchToClient`.
  unfoldable pub announce_control :
      ℕ → String → ConnectedClient float.Value → ClientManager P → ClientManager P
  announce_control now id c cm = elim cm.ssh_server [
    | none ↦ cm
    | some ssh ↦
        let (requested, _) =
          send_event_to_client c.address (control_event now request_control (server_name hostname))
            ssh in
        let (positioned, _) = position_cursor_on_main_monitor now c requested in
        record cm {
          ssh_server = some positioned;
          client_cursors =
              if has_monitors c
              then insert id (initial_cursor float c.monitors) cm.client_cursors
              else cm.client_cursors;
        }
  ]

  -- "Update previous client status"
  unfoldable pub idle_previous : ClientManager P → ClientManager P
  idle_previous cm =
      if str_eq cm.active_client_id ""
      then cm
      else record cm { clients = adjust cm.active_client_id (set_status client_idle) cm.clients }

  -- What follows a successful `SetTarget` in `SwitchToClient`.
  unfoldable pub take_control :
      ℕ → String → ConnectedClient float.Value → Backend → ClientManager P → ClientManager P
  take_control now id c backend cm = notify P (started_controlling c.name c.address) (
      announce_control now id c (record cm {
        input_backend = backend;
        active_client_id = id;
        controlling_local = false;
        clients = adjust id (set_status client_being_controlled) cm.clients;
      }))

  unfoldable pub retarget :
      ℕ → String → ConnectedClient float.Value → ClientManager P → ClientManager P × Option Error
  retarget now id c cm =
      let (backend, done) = set_target id cm.input_backend in
      if done
      then (take_control now id c backend cm, none)
      else (record cm { input_backend = backend }, some set_target_failed)

  unfoldable pub switch_to_client : ℕ → String → ClientManager P → ClientManager P × Option Error
  switch_to_client now id cm =
      if str_eq cm.active_client_id id && not cm.controlling_local
      then (cm, none)
      else elim (lookup id cm.clients) [
        | none ↦ (cm, some (client_not_found id))
        | some c ↦ retarget now id c (idle_previous cm)
      ]

  -- The release event of `SwitchToLocal`, sent to the client that was controlled.
  unfoldable pub send_release : ℕ → ConnectedClient float.Value → ClientManager P → ClientManager P
  send_release now prev cm = elim cm.ssh_server [
    | none ↦ cm
    | some ssh ↦
        let (released, _) =
          send_event_to_client prev.address (control_event now release_control cm.active_client_id)
            ssh in
        record cm { ssh_server = some released }
  ]

  -- "Update previous client status and notify them"
  unfoldable pub release_previous : ℕ → ClientManager P → ClientManager P
  release_previous now cm =
      if str_eq cm.active_client_id "" then cm else elim (lookup cm.active_client_id cm.clients) [
        | none ↦ cm
        | some prev ↦
            send_release now prev (record cm {
              clients = adjust cm.active_client_id (set_status client_idle) cm.clients;
            })
      ]

  -- `switchToLocalInternal`, which is the body of `SwitchToLocal` after its first test.
  unfoldable pub switch_to_local_internal : ℕ → ClientManager P → ClientManager P × Option Error
  switch_to_local_internal now cm =
      let freed = release_previous now cm in
      let (backend, _) = set_target "" freed.input_backend in
      (
        notify P released_control (record freed {
          input_backend = backend;
          active_client_id = "";
          controlling_local = true;
        }),
        none,
      )

  unfoldable pub switch_to_local : ℕ → ClientManager P → ClientManager P × Option Error
  switch_to_local now cm =
      if cm.controlling_local then (cm, none) else switch_to_local_internal now cm

  -- `SwitchToNextClient`. There is no such element only where there are no clients.
  unfoldable pub switch_to_next_client : ℕ → ClientManager P → ClientManager P × Option Error
  switch_to_next_client now cm =
      let ids = keys cm.clients in
      elim (get_elem? ids (next_index (index_of cm.active_client_id ids) % length ids)) [
        | none ↦ switch_to_local now cm
        | some id ↦ switch_to_client now id cm
      ]
