-- ===== src/Manager/Targets.antt =====
-- internal/server/manager.go: where the input goes after a switch, a release and a disconnection.
use mathlib.Core.Option
use waymon.Common.{
  ℕ, ◌≡◌, ◌≢◌, refl, ap, ◌∙◌, String, true, false, not, ◌&&◌, none, some, [], ◌∷◌, arith, str_eq,
  eq_iff, is_some, if◌then◌else◌, ◌<◌,
}
use waymon.Common.Assoc.{
  lookup, adjust, lookup-delete, lookup-delete_self, lookup-adjust, lookup-adjust_self,
}
use waymon.Proto.{
  client_config, client_idle, client_being_controlled, ControlEvent, InputEvent, control,
  ClientConfig,
}
use waymon.Manager.State.{
  Platform, ClientManager, ConnectedClient, set_target_failed, set_status, notify,
}
use waymon.Manager.Switch.{
  idle_previous, take_control, retarget, switch_to_client, switch_to_local,
  switch_to_local_internal,
}
use waymon.Manager.Clients.{
  panics, unregister_client, release_if_active, configure, find_match, target_client,
  update_client_configuration,
}
use waymon.Manager.Route.{handle_control_event, handle_input_event, log_activity}
use waymon.Manager.Core.{core-take_control}

module _ (P : Platform) where
  open P use {float, Backend, set_target}

  lookup_idled :
      (id : String) (c : ConnectedClient float.Value) (cm : ClientManager P)
      → lookup id cm.clients ≡ some c
      → Option.map (set_status client_being_controlled) (lookup id (idle_previous P cm).clients)
        ≡ some (set_status client_being_controlled c)
  unfolding idle_previous
  lookup_idled id c cm found =
      ground (arith, lookup-adjust cm.active_client_id id (set_status client_idle) cm.clients)

  backend-idle_previous :
      (cm : ClientManager P) → (idle_previous P cm).input_backend ≡ cm.input_backend
  unfolding idle_previous
  backend-idle_previous cm = ground arith

  -- What `SwitchToClient` returns for a connected client that the backend accepts.
  switch_to_client_taken :
      (now : ℕ) (id : String) (c : ConnectedClient float.Value) (cm : ClientManager P)
      → (str_eq cm.active_client_id id && not cm.controlling_local) ≡ false
      → lookup id cm.clients ≡ some c
      → (set_target id cm.input_backend).1 ≡ true
      → switch_to_client P now id cm
        ≡ (take_control P now id c (set_target id cm.input_backend).0 (idle_previous P cm), none)
  unfolding switch_to_client retarget
  switch_to_client_taken now id c cm other found accepted = ground (arith, backend-idle_previous cm)

  -- Switching to a connected client that is not already controlled, where the backend accepts the
  -- target: no error, the client is active and marked as being controlled, and control is not local.
  pub switch_to_client_takes_control :
      (now : ℕ) (id : String) (c : ConnectedClient float.Value) (cm : ClientManager P)
      → (str_eq cm.active_client_id id && not cm.controlling_local) ≡ false
      → lookup id cm.clients ≡ some c
      → (set_target id cm.input_backend).1 ≡ true
      → let (cm', error) = switch_to_client P now id cm in
        (error ≡ none)
        × (cm'.active_client_id ≡ id)
        × (cm'.controlling_local ≡ false)
        × (lookup id cm'.clients ≡ some (set_status client_being_controlled c))
  switch_to_client_takes_control now id c cm other found accepted =
      let taken = switch_to_client_taken now id c cm other found accepted in
      let b = (set_target id cm.input_backend).0 in
      let view = core-take_control P now id c b (idle_previous P cm) in
      rw taken (
        refl,
        ap (λ k. k.active) view,
        ap (λ k. k.local) view,
        ap (λ k. lookup id k.clients) view
            ∙ lookup-adjust_self id (set_status client_being_controlled)
                (idle_previous P cm).clients
            ∙ lookup_idled id c cm found,
      )

  -- Where the backend refuses the target, the active client and local control stay, nothing is
  -- sent, and yet the active client is marked idle.
  pub switch_to_client_refused :
      (now : ℕ) (id : String) (c p : ConnectedClient float.Value) (cm : ClientManager P)
      → (str_eq cm.active_client_id id && not cm.controlling_local) ≡ false
      → lookup id cm.clients ≡ some c
      → lookup cm.active_client_id cm.clients ≡ some p
      → cm.active_client_id ≢ ""
      → (set_target id cm.input_backend).1 ≡ false
      → let (cm', error) = switch_to_client P now id cm in
        (error ≡ some set_target_failed)
        × (cm'.active_client_id ≡ cm.active_client_id)
        × (cm'.controlling_local ≡ cm.controlling_local)
        × (cm'.ssh_server ≡ cm.ssh_server)
        × (lookup cm.active_client_id cm'.clients ≡ some (set_status client_idle p))
  unfolding switch_to_client retarget idle_previous
  switch_to_client_refused now id c p cm other found active named refused = ground (
    arith,
    eq_iff cm.active_client_id "",
    lookup-adjust_self cm.active_client_id (set_status client_idle) cm.clients,
  )

  -- `SwitchToLocal` never fails; afterwards control is local, and where it was not before there is
  -- no active client.
  pub switch_to_local_frees :
      (now : ℕ) (cm : ClientManager P)
      → let (cm', error) = switch_to_local P now cm in
        (error ≡ none)
        × (cm'.controlling_local ≡ true)
        × (cm'.active_client_id ≡ (if cm.controlling_local then cm.active_client_id else ""))
  unfolding switch_to_local switch_to_local_internal notify
  switch_to_local_frees now cm = ground arith

  -- A known client that disconnects is gone from the map with its cursor; if it was the active one,
  -- there is no active client and control is local, and otherwise both are as before; and every
  -- other client stays as it was.
  pub unregister_client_forgets :
      (id j : String) (cm : ClientManager P)
      → is_some (lookup id cm.clients) ≡ true
      → id ≢ j
      → let cm' = unregister_client P id cm in
        (lookup id cm'.clients ≡ none)
        × (lookup id cm'.client_cursors ≡ none)
        × (cm'.active_client_id
            ≡ (if str_eq cm.active_client_id id then "" else cm.active_client_id))
        × (cm'.controlling_local
            ≡ (if str_eq cm.active_client_id id then true else cm.controlling_local))
        × (lookup j cm'.clients ≡ lookup j cm.clients)
  unfolding unregister_client release_if_active notify
  unregister_client_forgets id j cm known other = ground (
    arith,
    lookup-delete_self id cm.clients,
    lookup-delete_self id cm.client_cursors,
    lookup-delete id j cm.clients,
    eq_iff id j,
    eq_iff cm.active_client_id id,
  )

  -- With a single client connected, a configuration event that carries no capabilities ends the
  -- server in a panic, whatever client the event names.
  configuration_without_capabilities_panics :
      (now : ℕ) (e : InputEvent float.Value) (ctl : ControlEvent float.Value)
      (config : ClientConfig float.Value) (key : String) (c : ConnectedClient float.Value)
      (cm : ClientManager P)
      → e.event ≡ control ctl
      → ctl.type ≡ client_config
      → ctl.config ≡ some config
      → config.capabilities ≡ none
      → cm.clients ≡ (key, c) ∷ []
      → handle_input_event P now e cm
        ≡ panics (record cm { clients = adjust key (configure config) cm.clients })
  unfolding handle_input_event handle_control_event update_client_configuration target_client
      find_match
  configuration_without_capabilities_panics now e ctl config key c cm event type given bare single =
      ground arith

  -- Where the throttle holds back fewer than 50 events, it does so after one more event too.
  log_activity_bounded :
      (now : ℕ) (c : ConnectedClient float.Value) (cm : ClientManager P)
      → cm.activity_count < 50
      → (log_activity P now c cm).activity_count < 50
  unfolding log_activity notify
  log_activity_bounded now c cm h = ground arith
