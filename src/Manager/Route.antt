-- ===== src/Manager/Route.antt =====
-- internal/server/manager.go: HandleInputEvent and handleControlEvent.
use waymon.Common.{
  ℕ, ◌+◌, ◌*◌, String, Bool, true, false, not, ◌&&◌, ◌||◌, Option, none, some, str_eq, ltb, leb,
  if◌then◌else◌,
}
use waymon.Common.Assoc.{lookup, adjust}
use waymon.Float.{Float64}
use waymon.Proto.{
  ClientConfig, ControlType, ControlEvent, request_control, release_control, client_config, Event,
  mouse_move, mouse_button, mouse_scroll, keyboard, control, mouse_position, unset, InputEvent,
}
use waymon.Manager.State.{
  Platform, ClientManager, ConnectedClient, CursorState, injecting, actively_controlling, second,
  notify,
}
use waymon.Manager.Cursor.{constrain_cursor_position}
use waymon.Manager.Switch
use waymon.Manager.Switch.{has_monitors}
use waymon.Manager.Clients.{Outcome, done, then_switch_to_local, update_client_configuration}

module _ (F : Float64) where
  open F use {Value, add, sub, eqb, zero}

  -- The cursor after a relative move, with the event's new fields; none where the move is
  -- "fully constrained".
  unfoldable pub move_cursor :
      Value → Value → CursorState Value → CursorState Value × Option (Event Value)
  move_cursor dx dy cursor =
      let new_x = add cursor.x dx in
      let new_y = add cursor.y dy in
      let (x, y) = constrain_cursor_position F new_x new_y cursor.bounds in
      let hit_boundary = not (eqb new_x x) || not (eqb new_y y) in
      let actual_dx = sub x cursor.x in
      let actual_dy = sub y cursor.y in
      (
        record cursor { x = x; y = y },
        if hit_boundary
            then (if eqb actual_dx zero && eqb actual_dy zero
                then none
                else some (mouse_move actual_dx actual_dy))
            else some (mouse_move dx dy),
      )

module _ (P : Platform) where
  open P use {float, Ssh, send_event_to_client}

  -- Whether an emergency release is too recent. The zero time is long ago.
  unfoldable pub in_cooldown : ℕ → ClientManager P → Bool
  in_cooldown now cm = elim cm.emergency_release_time [
    | none ↦ false
    | some t ↦ ltb now (t + cm.emergency_cooldown)
  ]

  -- The `switch` of `handleControlEvent`.
  unfoldable pub dispatch_control :
      ℕ → ControlType → Option (ClientConfig float.Value) → String → ClientManager P → Outcome P
  dispatch_control now client_config (some config) source cm =
      update_client_configuration P config source cm
  dispatch_control now request_control config source cm =
      if in_cooldown now cm then done cm else done (Switch.switch_to_client P now source cm).0
  dispatch_control now release_control config source cm = done (Switch.switch_to_local P now cm).0
  dispatch_control now _ config source cm = done cm

  unfoldable pub handle_control_event :
      ℕ → ControlEvent float.Value → String → ClientManager P → Outcome P
  unfolding dispatch_control
  handle_control_event now e source cm = dispatch_control now e.type e.config source cm

  abbrev set_cursor : CursorState float.Value → ClientManager P → ClientManager P
  set_cursor cursor cm = record cm {
    client_cursors = adjust cm.active_client_id (λ _. cursor) cm.client_cursors;
  }

  -- "Handle mouse move events with cursor constraints"
  unfoldable pub track_move :
      float.Value
      → float.Value
      → ConnectedClient float.Value
      → ClientManager P
      → ClientManager P × Option (Event float.Value)
  track_move dx dy c cm = elim (lookup cm.active_client_id cm.client_cursors) [
    | none ↦ (cm, some (mouse_move dx dy))
    | some cursor ↦
        let (moved, event) = move_cursor float dx dy cursor in
        if has_monitors P c then (set_cursor moved cm, event) else (cm, some (mouse_move dx dy))
  ]

  -- The event to send, after the cursor has been tracked.
  unfoldable pub track :
      Event float.Value
      → ConnectedClient float.Value
      → ClientManager P
      → ClientManager P × Option (Event float.Value)
  track (mouse_move dx dy) c cm = track_move dx dy c cm
  track (mouse_position x y) c cm = elim (lookup cm.active_client_id cm.client_cursors) [
    | none ↦ (cm, some (mouse_position x y))
    | some cursor ↦ (
      set_cursor (record cursor { x = float.of_int x; y = float.of_int y }) cm,
      some (mouse_position x y),
    )
  ]
  track (mouse_button button pressed) c cm = (cm, some (mouse_button button pressed))
  track (mouse_scroll dx dy) c cm = (cm, some (mouse_scroll dx dy))
  track (keyboard key pressed) c cm = (cm, some (keyboard key pressed))
  track (control e) c cm = (cm, some (control e))
  track unset c cm = (cm, some unset)

  -- `now.Sub(cm.lastActivityLog) > 2*time.Second`
  unfoldable pub is_stale : ℕ → Option ℕ → Bool
  is_stale now none = true
  is_stale now (some t) = ltb (t + 2 * second) now

  -- "Send to UI with throttling to avoid spam"
  unfoldable pub log_activity : ℕ → ConnectedClient float.Value → ClientManager P → ClientManager P
  log_activity now c cm =
      let count = cm.activity_count + 1 in
      let entry =
        if ltb 1 count
        then actively_controlling c.name c.address count
        else injecting c.name c.address in
      if cm.on_activity
      then (if is_stale now cm.last_activity_log || leb 50 count
          then record (notify P entry cm) { last_activity_log = some now; activity_count = 0 }
          else record cm { activity_count = count })
      else cm

  -- "Send input event to the client via SSH"
  unfoldable pub forward :
      ℕ → InputEvent float.Value → ConnectedClient float.Value → ClientManager P → ClientManager P
  forward now e c cm = elim cm.ssh_server [
    | none ↦ cm
    | some ssh ↦
        let (ssh', sent) = send_event_to_client c.address e ssh in
        let cm' = record cm { ssh_server = some ssh' } in
        if sent then log_activity now c cm' else cm'
  ]

  -- What `HandleInputEvent` does for the active client.
  unfoldable pub route :
      ℕ → InputEvent float.Value → ConnectedClient float.Value → ClientManager P → ClientManager P
  route now e c cm =
      let (tracked, event) = track e.event c cm in
      elim event [ none ↦ tracked | some e' ↦ forward now (record e { event = e' }) c tracked ]

  unfoldable pub handle_other_event : ℕ → InputEvent float.Value → ClientManager P → Outcome P
  handle_other_event now e cm =
      if cm.controlling_local
      then done cm
      else if str_eq cm.active_client_id ""
      then done cm
      else elim (lookup cm.active_client_id cm.clients) [
        | none ↦ then_switch_to_local cm
        | some c ↦ done (route now e c cm)
      ]

  -- "Handle control events specially"
  unfoldable pub dispatch_event :
      ℕ → Event float.Value → InputEvent float.Value → ClientManager P → Outcome P
  dispatch_event now (control c) e cm = handle_control_event now c e.source_id cm
  dispatch_event now _ e cm = handle_other_event now e cm

  unfoldable pub handle_input_event : ℕ → InputEvent float.Value → ClientManager P → Outcome P
  unfolding dispatch_event
  handle_input_event now e cm = dispatch_event now e.event e cm
