-- ===== src/Manager/Runs.antt =====
-- internal/server/manager.go: the manager under any sequence of calls, by input events, clients,
-- IPC commands, the UI and the emergency release. A handler's goroutine is one more call of
-- `SwitchToLocal`.
use waymon.Common.{
  ℕ, ◌≡◌, ◌≢◌, refl, String, Bool, List, [], ◌∷◌, inl, inr, arith, All, Option-cases, get_elem?,
  length, ◌%◌,
}
use waymon.Common.Assoc.{keys}
use waymon.Proto.{InputEvent}
use waymon.Manager.State.{Platform, ClientManager, initial}
use waymon.Manager.Switch.{
  switch_to_client, switch_to_local, switch_to_next_client, index_of, next_index,
}
use waymon.Manager.Clients.{
  then_switch_to_local, register_client, unregister_client, stop, mark_emergency_release,
  set_on_activity, set_ssh_server, notify_shutdown,
}
use waymon.Manager.Route.{handle_input_event}
use waymon.Manager.Rotation.{SwitchAction, handle_switch_command}
use waymon.Manager.Core.{core}
use waymon.Manager.Steps.{Ok, switch_to_client-Ok, switch_to_local-Ok}
use waymon.Manager.Lifecycle.{register_client-Ok, unregister_client-Ok, state}
use waymon.Manager.Reach.{no_fallback, handle_input_event-Ok, handle_switch_command-Ok}

module _ (P : Platform) where
  open P use {float, Backend, Ssh}

  -- The methods of the manager that change it. Registration gives an ID, a name and an address.
  pub data Call : Type 0 where
    starts_ssh : Ssh → Call
    stops : (Ssh → Ssh) → Call
    switches_to_client : String → Call
    switches_to_local switches_to_next : Call
    handles_event : InputEvent float.Value → Call
    handles_command : SwitchAction → Call
    registers : String → String → String → Call
    unregisters : String → Call
    sets_on_activity : Bool → Call
    marks_emergency notifies_shutdown : Call

  unfoldable pub step : ClientManager P → ℕ × Call → ClientManager P
  step cm (now, starts_ssh ssh) = set_ssh_server P ssh cm
  step cm (now, stops stop_ssh) = stop P stop_ssh cm
  step cm (now, switches_to_client id) = (switch_to_client P now id cm).0
  step cm (now, switches_to_local) = (switch_to_local P now cm).0
  step cm (now, switches_to_next) = (switch_to_next_client P now cm).0
  step cm (now, handles_event e) = state P (handle_input_event P now e cm)
  step cm (now, handles_command action) = (handle_switch_command P now action cm).0
  step cm (now, registers id name address) = register_client P now id name address cm
  step cm (now, unregisters id) = unregister_client P id cm
  step cm (now, sets_on_activity callback) = set_on_activity P callback cm
  step cm (now, marks_emergency) = mark_emergency_release P now cm
  step cm (now, notifies_shutdown) = notify_shutdown P now cm

  unfoldable pub run : ClientManager P → List (ℕ × Call) → ClientManager P
  run cm [] = cm
  run cm (c ∷ cs) = run (step cm c) cs

  -- Clients register under the address of their connection, which is not empty.
  abbrev pub IsAdmissible : ℕ × Call → Type 0
  IsAdmissible (now, registers id name address) = id ≢ ""
  IsAdmissible (now, c) = Unit {0}

  switch_to_next_client-Ok :
      (now : ℕ) (cm : ClientManager P) → Ok P cm → Ok P (switch_to_next_client P now cm).0
  unfolding switch_to_next_client
  switch_to_next_client-Ok now cm ok =
      let ids = keys cm.clients in
      let i = next_index (index_of cm.active_client_id ids) % length ids in
      elim (Option-cases (get_elem? ids i)) [
        | inl e ↦ rw (e, switch_to_next_client) (switch_to_local-Ok P now cm ok)
        | inr (id, e) ↦ rw (e, switch_to_next_client) (switch_to_client-Ok P now id cm ok)
      ]

  core-notify_shutdown :
      (now : ℕ) (cm : ClientManager P) → core (notify_shutdown P now cm) ≡ core cm
  unfolding notify_shutdown
  core-notify_shutdown now cm = ground arith

  step-Ok : (cm : ClientManager P) (c : ℕ × Call) → IsAdmissible c → Ok P cm → Ok P (step cm c)
  unfolding step set_ssh_server stop set_on_activity mark_emergency_release
  step-Ok cm (now, starts_ssh ssh) a ok = ok
  step-Ok cm (now, stops stop_ssh) a ok = record {
    entries = tt;
    idle = λ _. refl;
    connected = λ e. cc;
  }
  step-Ok cm (now, switches_to_client id) a ok = switch_to_client-Ok P now id cm ok
  step-Ok cm (now, switches_to_local) a ok = switch_to_local-Ok P now cm ok
  step-Ok cm (now, switches_to_next) a ok = switch_to_next_client-Ok now cm ok
  step-Ok cm (now, handles_event e) a ok = handle_input_event-Ok P now e cm ok
  step-Ok cm (now, handles_command action) a ok = handle_switch_command-Ok P now action cm ok
  step-Ok cm (now, registers id name address) a ok =
      register_client-Ok P now id name address cm a ok
  step-Ok cm (now, unregisters id) a ok = unregister_client-Ok P id cm ok
  step-Ok cm (now, sets_on_activity callback) a ok = ok
  step-Ok cm (now, marks_emergency) a ok = ok
  step-Ok cm (now, notifies_shutdown) a ok = rw (core-notify_shutdown now cm) ok

  pub run-Ok :
      (cm : ClientManager P) (cs : List (ℕ × Call))
      → All IsAdmissible cs
      → Ok P cm
      → Ok P (run cm cs)
  unfolding run
  run-Ok cm [] a ok = ok
  run-Ok cm (c ∷ cs) a ok = run-Ok (step cm c) cs a.1 (step-Ok cm c a.0 ok)

  -- From a new manager, whatever calls are made with IDs that are not empty: local control means
  -- that there is no active client; otherwise the active client is connected; every client is
  -- stored under its ID, which is not empty; and a client that is marked as being controlled is
  -- the active one.
  pub run-initial-Ok :
      (backend : Backend) (cs : List (ℕ × Call))
      → All IsAdmissible cs
      → Ok P (run (initial P backend) cs)
  unfolding initial
  run-initial-Ok backend cs a =
      run-Ok _ cs a (record { entries = tt; idle = λ _. refl; connected = λ e. cc })

  -- Whatever calls a new manager has had, with IDs that are not empty, no event makes
  -- `HandleInputEvent` miss the active client and fall back to a goroutine that switches to local.
  pub handle_input_event_no_fallback :
      (backend : Backend) (cs : List (ℕ × Call)) (now : ℕ) (e : InputEvent float.Value)
      (cm : ClientManager P)
      → All IsAdmissible cs
      → handle_input_event P now e (run (initial P backend) cs) ≢ then_switch_to_local cm
  handle_input_event_no_fallback backend cs now e cm a =
      no_fallback P now e cm (run (initial P backend) cs) (run-initial-Ok backend cs a)
