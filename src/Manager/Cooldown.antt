-- ===== src/Manager/Cooldown.antt =====
-- internal/server/manager.go: the cooldown after an emergency release, under any sequence of calls
-- that the clients, their connections and the devices cause. The commands over IPC and the keys of
-- the text interface, which ask for a switch too, are not held back by it.
use waymon.Common.{
  ℕ, ◌+◌, ◌<◌, ◌≡◌, refl, true, Option, none, some, String, List, [], ◌∷◌, arith, All,
}
use waymon.Proto.{
  InputEvent, Event, ControlType, ClientConfig, switch_to_local, switch_to_client, request_control,
  release_control, client_list_request, client_list_response, client_config, server_shutdown,
  mouse_move, mouse_button, mouse_scroll, keyboard, control, mouse_position, unset,
}
use waymon.Manager.State.{Platform, ClientManager, notify}
use waymon.Manager.Switch
use waymon.Manager.Switch.{switch_to_local_internal, release_previous, send_release}
use waymon.Manager.Clients.{
  register_client, unregister_client, release_if_active, stop, mark_emergency_release,
  set_on_activity, set_ssh_server, notify_shutdown, update_client_configuration,
  update_cursor_bounds,
}
use waymon.Manager.Route.{
  in_cooldown, dispatch_event, dispatch_control, handle_control_event, handle_other_event,
  handle_input_event,
}
use waymon.Manager.Lifecycle.{state}
use waymon.Manager.Runs.{
  Call, starts_ssh, stops, switches_to_client, switches_to_local, switches_to_next, handles_event,
  handles_command, registers, unregisters, sets_on_activity, marks_emergency, notifies_shutdown,
  step, run,
}

module _ (P : Platform) where
  open P use {float}

  -- A call before the deadline that is no command of the user.
  abbrev pub IsUnprompted : ℕ → ℕ × Call P → Type 0
  IsUnprompted deadline (now, switches_to_client id) = ⊥
  IsUnprompted deadline (now, switches_to_next) = ⊥
  IsUnprompted deadline (now, handles_command action) = ⊥
  IsUnprompted deadline (now, marks_emergency) = ⊥
  IsUnprompted deadline (now, call) = now < deadline

  -- Control is local, and the release is that of `t`.
  record IsHeld (t w : ℕ) (cm : ClientManager P) : Type 0 where
    local : cm.controlling_local ≡ true
    released : cm.emergency_release_time ≡ some t
    cooldown : cm.emergency_cooldown ≡ w

  notify-IsHeld :
      (t w : ℕ) (cm : ClientManager P) → IsHeld t w cm → (a : _) → IsHeld t w (notify P a cm)
  unfolding notify
  notify-IsHeld t w cm h a = ground (arith, h.local, h.released, h.cooldown)

  update_client_configuration-IsHeld :
      (t w : ℕ) (config : ClientConfig float.Value) (source : String) (cm : ClientManager P)
      → IsHeld t w cm
      → IsHeld t w (state P (update_client_configuration P config source cm))
  unfolding update_client_configuration update_cursor_bounds notify
  update_client_configuration-IsHeld t w config source cm h =
      ground (arith, h.local, h.released, h.cooldown)

  unregister_client-IsHeld :
      (t w : ℕ) (id : String) (cm : ClientManager P)
      → IsHeld t w cm
      → IsHeld t w (unregister_client P id cm)
  unfolding unregister_client release_if_active notify
  unregister_client-IsHeld t w id cm h = ground (arith, h.local, h.released, h.cooldown)

  dispatch_control-IsHeld :
      (t w now : ℕ) (type : ControlType) (config : Option (ClientConfig float.Value))
      (source : String) (cm : ClientManager P)
      → now < t + w
      → IsHeld t w cm
      → IsHeld t w (state P (dispatch_control P now type config source cm))
  unfolding dispatch_control in_cooldown Switch.switch_to_local
  dispatch_control-IsHeld t w now client_config (some config) source cm soon h =
      update_client_configuration-IsHeld t w config source cm h
  dispatch_control-IsHeld t w now client_config none source cm soon h = h
  dispatch_control-IsHeld t w now request_control config source cm soon h =
      ground (arith, soon, h.local, h.released, h.cooldown)
  dispatch_control-IsHeld t w now release_control config source cm soon h =
      ground (arith, h.local, h.released, h.cooldown)
  dispatch_control-IsHeld t w now switch_to_local config source cm soon h = h
  dispatch_control-IsHeld t w now switch_to_client config source cm soon h = h
  dispatch_control-IsHeld t w now client_list_request config source cm soon h = h
  dispatch_control-IsHeld t w now client_list_response config source cm soon h = h
  dispatch_control-IsHeld t w now server_shutdown config source cm soon h = h

  handle_other_event-IsHeld :
      (t w now : ℕ) (e : InputEvent float.Value) (cm : ClientManager P)
      → IsHeld t w cm
      → IsHeld t w (state P (handle_other_event P now e cm))
  unfolding handle_other_event
  handle_other_event-IsHeld t w now e cm h = ground (arith, h.local, h.released, h.cooldown)

  dispatch_event-IsHeld :
      (t w now : ℕ) (event : Event float.Value) (e : InputEvent float.Value) (cm : ClientManager P)
      → now < t + w
      → IsHeld t w cm
      → IsHeld t w (state P (dispatch_event P now event e cm))
  unfolding dispatch_event handle_control_event
  dispatch_event-IsHeld t w now (control c) e cm soon h =
      dispatch_control-IsHeld t w now c.type c.config e.source_id cm soon h
  dispatch_event-IsHeld t w now (mouse_move dx dy) e cm soon h =
      handle_other_event-IsHeld t w now e cm h
  dispatch_event-IsHeld t w now (mouse_button button pressed) e cm soon h =
      handle_other_event-IsHeld t w now e cm h
  dispatch_event-IsHeld t w now (mouse_scroll dx dy) e cm soon h =
      handle_other_event-IsHeld t w now e cm h
  dispatch_event-IsHeld t w now (keyboard key pressed) e cm soon h =
      handle_other_event-IsHeld t w now e cm h
  dispatch_event-IsHeld t w now (mouse_position x y) e cm soon h =
      handle_other_event-IsHeld t w now e cm h
  dispatch_event-IsHeld t w now unset e cm soon h = handle_other_event-IsHeld t w now e cm h

  step-IsHeld :
      (t w : ℕ) (call : ℕ × Call P) (cm : ClientManager P)
      → IsUnprompted (t + w) call
      → IsHeld t w cm
      → IsHeld t w (step P cm call)
  unfolding step set_ssh_server stop Switch.switch_to_local register_client set_on_activity
      notify_shutdown handle_input_event
  step-IsHeld t w (now, starts_ssh ssh) cm u h = record {
    local = h.local;
    released = h.released;
    cooldown = h.cooldown;
  }
  step-IsHeld t w (now, stops stop_ssh) cm u h = record {
    local = refl;
    released = h.released;
    cooldown = h.cooldown;
  }
  step-IsHeld t w (now, switches_to_client id) cm u h = absurd u
  step-IsHeld t w (now, switches_to_local) cm u h = ground (arith, h.local, h.released, h.cooldown)
  step-IsHeld t w (now, switches_to_next) cm u h = absurd u
  step-IsHeld t w (now, handles_event e) cm u h = dispatch_event-IsHeld t w now e.event e cm u h
  step-IsHeld t w (now, handles_command action) cm u h = absurd u
  step-IsHeld t w (now, registers id name address) cm u h =
      notify-IsHeld t w _ (record { local = h.local; released = h.released; cooldown = h.cooldown })
        _
  step-IsHeld t w (now, unregisters id) cm u h = unregister_client-IsHeld t w id cm h
  step-IsHeld t w (now, sets_on_activity callback) cm u h = record {
    local = h.local;
    released = h.released;
    cooldown = h.cooldown;
  }
  step-IsHeld t w (now, marks_emergency) cm u h = absurd u
  step-IsHeld t w (now, notifies_shutdown) cm u h = ground (arith, h.local, h.released, h.cooldown)

  run-IsHeld :
      (t w : ℕ) (calls : List (ℕ × Call P)) (cm : ClientManager P)
      → All (IsUnprompted (t + w)) calls
      → IsHeld t w cm
      → IsHeld t w (run P cm calls)
  unfolding run
  run-IsHeld t w [] cm u h = h
  run-IsHeld t w (call ∷ calls) cm u h =
      run-IsHeld t w calls (step P cm call) u.1 (step-IsHeld t w call cm u.0 h)

  -- The manager after an emergency release at a time.
  abbrev pub emergency_release : ℕ → ClientManager P → ClientManager P
  emergency_release t cm = (Switch.switch_to_local P t (mark_emergency_release P t cm)).0

  emergency_release-IsHeld :
      (t : ℕ) (cm : ClientManager P) → IsHeld t cm.emergency_cooldown (emergency_release t cm)
  unfolding mark_emergency_release Switch.switch_to_local switch_to_local_internal release_previous
      send_release notify
  emergency_release-IsHeld t cm = ground arith

  -- After an emergency release, and until the cooldown is over, control stays local, whatever input
  -- events and control messages of clients are handled, and whichever clients connect, disconnect
  -- and describe themselves. Only a command over IPC, a key of the text interface or a new release
  -- is left out of these calls.
  pub emergency_cooldown_holds :
      (t : ℕ) (cm : ClientManager P) (calls : List (ℕ × Call P))
      → All (IsUnprompted (t + cm.emergency_cooldown)) calls
      → (run P (emergency_release t cm) calls).controlling_local ≡ true
  emergency_cooldown_holds t cm calls u =
      (run-IsHeld t cm.emergency_cooldown calls (emergency_release t cm) u
        (emergency_release-IsHeld t cm)).local
