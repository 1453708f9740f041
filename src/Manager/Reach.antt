-- ===== src/Manager/Reach.antt =====
-- internal/server/manager.go: the manager under any sequence of calls, by input events, clients,
-- IPC commands and the emergency release. A handler's goroutine is one more call of `SwitchToLocal`.
use waymon.Common.{
  ℕ, ◌≡◌, ◌≢◌, String, Option, none, some, List, [], ◌∷◌, inl, inr, arith, Option-cases, if_elim,
  length, get_elem?, ◌-◌, ◌==◌,
}
use waymon.Common.Assoc.{lookup}
use waymon.Proto.{
  Event, ControlType, ClientConfig, request_control, release_control, client_config, InputEvent,
  control,
}
use waymon.Manager.State.{Platform, ClientManager, ConnectedClient, Error}
use waymon.Manager.Switch.{index_of}
use waymon.Manager.Clients.{Outcome, then_switch_to_local, update_client_configuration}
use waymon.Manager.Route.{
  in_cooldown, dispatch_control, dispatch_event, handle_control_event, handle_other_event,
  handle_input_event,
}
use waymon.Manager.Rotation.{
  SwitchAction, next, previous, enable, disable, unspecified, sorted_ids, switch_to_place,
  next_place, previous_place, move_from, enable_first, answer, switch_to_next_client_or_local,
  switch_to_previous_client_or_local, enable_sharing, handle_switch_command,
}
use waymon.Manager.Core.{core, core-route}
use waymon.Manager.Steps.{
  Ok, not_missing, switch_to_client-Ok, switch_to_local-Ok, switch_to_local_internal-Ok,
}
use waymon.Manager.Lifecycle.{state, update_client_configuration-Ok}

module _ (P : Platform) where
  open P use {float, Backend, Ssh}

  dispatch_control-Ok :
      (now : ℕ) (t : ControlType) (config : Option (ClientConfig float.Value)) (source : String)
      (cm : ClientManager P)
      → Ok P cm
      → Ok P (state P (dispatch_control P now t config source cm))
  unfolding dispatch_control
  dispatch_control-Ok now client_config (some config) source cm ok =
      update_client_configuration-Ok P config source cm ok
  dispatch_control-Ok now request_control config source cm ok =
      if_elim (λ (o : Outcome P). Ok P (state P o)) (in_cooldown P now cm) (λ _. ok)
        (λ _. switch_to_client-Ok P now source cm ok)
  dispatch_control-Ok now release_control config source cm ok = switch_to_local-Ok P now cm ok
  dispatch_control-Ok now _ config source cm ok = ok

  -- Input other than a control event leaves the clients and the routing alone.
  pub core-handle_other_event :
      (now : ℕ) (e : InputEvent float.Value) (cm : ClientManager P)
      → core (state P (handle_other_event P now e cm)) ≡ core cm
  unfolding handle_other_event
  core-handle_other_event now e cm = elim (Option-cases (lookup cm.active_client_id cm.clients)) [
    | inl missing ↦ ground arith
    | inr (c, found) ↦ ground (arith, core-route P now e c cm)
  ]

  dispatch_event-Ok :
      (now : ℕ) (event : Event float.Value) (e : InputEvent float.Value) (cm : ClientManager P)
      → Ok P cm
      → Ok P (state P (dispatch_event P now event e cm))
  unfolding dispatch_event handle_control_event
  dispatch_event-Ok now (control c) e cm ok =
      dispatch_control-Ok now c.type c.config e.source_id cm ok
  dispatch_event-Ok now _ e cm ok = rw (core-handle_other_event now e cm) ok

  -- Any event that arrives, from the devices or from a client, keeps the invariant.
  pub handle_input_event-Ok :
      (now : ℕ) (e : InputEvent float.Value) (cm : ClientManager P)
      → Ok P cm
      → Ok P (state P (handle_input_event P now e cm))
  unfolding handle_input_event
  handle_input_event-Ok now e cm ok = dispatch_event-Ok now e.event e cm ok

  other_no_fallback :
      (now : ℕ) (e : InputEvent float.Value) (cm cm' : ClientManager P)
      → Ok P cm'
      → handle_other_event P now e cm' ≢ then_switch_to_local cm
  unfolding handle_other_event
  other_no_fallback now e cm cm' ok h = ground (arith, not_missing P cm' ok)

  event_no_fallback :
      (now : ℕ) (event : Event float.Value) (e : InputEvent float.Value) (cm cm' : ClientManager P)
      → Ok P cm'
      → dispatch_event P now event e cm' ≢ then_switch_to_local cm
  unfolding dispatch_event handle_control_event dispatch_control update_client_configuration
  event_no_fallback now (control c) e cm cm' ok h = ground arith
  event_no_fallback now _ e cm cm' ok h = other_no_fallback now e cm cm' ok h

  pub no_fallback :
      (now : ℕ) (e : InputEvent float.Value) (cm cm' : ClientManager P)
      → Ok P cm'
      → handle_input_event P now e cm' ≢ then_switch_to_local cm
  unfolding handle_input_event
  no_fallback now e cm cm' ok h = event_no_fallback now e.event e cm cm' ok h

  switch_to_place-Ok :
      (now : ℕ) (ids : List String) (i : ℕ) (cm : ClientManager P)
      → Ok P cm
      → Ok P (switch_to_place P now ids i cm).0
  unfolding switch_to_place
  switch_to_place-Ok now ids i cm ok = elim (Option-cases (get_elem? ids i)) [
    | inl e ↦ rw (e, switch_to_place) (switch_to_local_internal-Ok P now cm ok)
    | inr (id, e) ↦ rw (e, switch_to_place) (switch_to_client-Ok P now id cm ok)
  ]

  move_from-Ok :
      (now : ℕ) (ids : List String) (move : ℕ → ℕ) (i : Option ℕ) (cm : ClientManager P)
      → Ok P cm
      → Ok P (move_from P now ids move i cm).0
  unfolding move_from
  move_from-Ok now ids move none cm ok = switch_to_local_internal-Ok P now cm ok
  move_from-Ok now ids move (some i) cm ok = switch_to_place-Ok now ids (move i) cm ok

  next_or_local-Ok :
      (now : ℕ) (cm : ClientManager P) → Ok P cm → Ok P (switch_to_next_client_or_local P now cm).0
  unfolding switch_to_next_client_or_local
  next_or_local-Ok now cm ok =
      let ids = sorted_ids P cm in
      if_elim (λ (r : ClientManager P × Option Error). Ok P r.0) (length ids == 0)
        (λ _. switch_to_local_internal-Ok P now cm ok)
        (λ _.
          if_elim (λ (r : ClientManager P × Option Error). Ok P r.0) cm.controlling_local
            (λ _. switch_to_place-Ok now ids 0 cm ok)
            (λ _. move_from-Ok now ids (next_place P ids) (index_of cm.active_client_id ids) cm ok))

  previous_or_local-Ok :
      (now : ℕ) (cm : ClientManager P)
      → Ok P cm
      → Ok P (switch_to_previous_client_or_local P now cm).0
  unfolding switch_to_previous_client_or_local
  previous_or_local-Ok now cm ok =
      let ids = sorted_ids P cm in
      if_elim (λ (r : ClientManager P × Option Error). Ok P r.0) (length ids == 0)
        (λ _. switch_to_local_internal-Ok P now cm ok)
        (λ _.
          if_elim (λ (r : ClientManager P × Option Error). Ok P r.0) cm.controlling_local
            (λ _. switch_to_place-Ok now ids (length ids - 1) cm ok)
            (λ _.
              move_from-Ok now ids (previous_place P ids) (index_of cm.active_client_id ids) cm ok))

  enable_first-Ok :
      (now : ℕ) (es : List (String × ConnectedClient float.Value)) (cm : ClientManager P)
      → Ok P cm
      → Ok P (enable_first P now es cm).0
  unfolding enable_first
  enable_first-Ok now [] cm ok = ok
  enable_first-Ok now ((key, c) ∷ es) cm ok = switch_to_client-Ok P now c.id cm ok

  answer-Ok : (r : ClientManager P × Option Error) → Ok P r.0 → Ok P (answer P r).0
  answer-Ok (cm, none) ok = ok
  answer-Ok (cm, some e) ok = ok

  -- Every IPC command keeps the invariant.
  pub handle_switch_command-Ok :
      (now : ℕ) (action : SwitchAction) (cm : ClientManager P)
      → Ok P cm
      → Ok P (handle_switch_command P now action cm).0
  unfolding handle_switch_command enable_sharing
  handle_switch_command-Ok now next cm ok = answer-Ok _ (next_or_local-Ok now cm ok)
  handle_switch_command-Ok now previous cm ok = answer-Ok _ (previous_or_local-Ok now cm ok)
  handle_switch_command-Ok now enable cm ok = answer-Ok _ (enable_first-Ok now cm.clients cm ok)
  handle_switch_command-Ok now disable cm ok = answer-Ok _ (switch_to_local-Ok P now cm ok)
  handle_switch_command-Ok now unspecified cm ok = ok
