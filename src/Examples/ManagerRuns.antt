-- ===== src/Examples/ManagerRuns.antt =====
-- internal/server/manager.go: a server with two clients.
use waymon.Common.{
  eq_iff, ℕ, ◌≡◌, ◌≢◌, refl, String, true, false, none, some, List, [], ◌∷◌, All, arith, str_eq,
  if◌then◌else◌, length,
}
use waymon.Common.Assoc.{lookup}
use waymon.Common.Int.{ℤ, pos}
use waymon.Float.{whole}
use waymon.Proto.{
  InputEvent, ControlEvent, control, mouse_move, request_control, client_idle,
  client_being_controlled,
}
use waymon.Manager.State.{
  Platform, ClientManager, ConnectedClient, initial, set_status, set_target_failed,
}
use waymon.Manager.Switch.{switch_to_client, switch_to_local}
use waymon.Manager.Clients.{then_switch_to_local, unregister_client}
use waymon.Manager.Route.{handle_input_event}
use waymon.Manager.Rotation.{handle_status_query, sorted_ids}
use waymon.Common.Sort.{sort_strings}
use waymon.Manager.Steps.{Ok}
use waymon.Manager.Runs.{
  Call, registers, switches_to_client, switches_to_local, unregisters, handles_event, run,
  IsAdmissible, run-initial-Ok, handle_input_event_no_fallback,
}
use waymon.Manager.Targets.{
  switch_to_client_takes_control, switch_to_client_refused, unregister_client_forgets,
}
use waymon.Manager.Cooldown.{emergency_release, emergency_cooldown_holds}
use waymon.Manager.Status.{PointsTo, status_names_controlled}
use waymon.Ui.Base.{new_base_ui}
use waymon.Ui.ServerModel.{ServerModel, new_server_model, set_client_manager, update_key}
use waymon.Ui.Control.{settle, update_key_releases}

differs : (a b : String) → str_eq a b ≡ false → a ≢ b
differs a b h e = ground (arith, eq_iff a b, h, e)

-- A backend that keeps its target and accepts every one but "broken", and a server that keeps what
-- it sends.
abbrev site : Platform
site = record {
  float = whole;
  Backend = String;
  set_target = λ id b. if str_eq id "broken" then (b, false) else (id, true);
  Ssh = List String;
  send_event_to_client = λ id e ssh. (id ∷ ssh, true);
  hostname = some "desk";
}

abbrev laptop : ConnectedClient ℤ
laptop = record {
  id = "10.0.0.2:22";
  name = "laptop";
  address = "10.0.0.2:22";
  status = client_idle;
  connected_at = 0;
  monitors = [];
  capabilities = none;
}

abbrev tower : ConnectedClient ℤ
tower = record laptop { id = "broken"; name = "tower"; address = "broken" }

abbrev base : ClientManager site
base = record {
  clients = [];
  active_client_id = "";
  input_backend = "";
  ssh_server = none;
  controlling_local = true;
  on_activity = false;
  activities = [];
  last_activity_log = none;
  activity_count = 0;
  client_cursors = [];
  emergency_release_time = none;
  emergency_cooldown = 5;
}

abbrev two_clients : ClientManager site
two_clients = record base { clients = ("10.0.0.2:22", laptop) ∷ ("broken", tower) ∷ [] }

abbrev controlling : ClientManager site
controlling = record two_clients {
  clients = ("10.0.0.2:22", set_status client_being_controlled laptop) ∷ ("broken", tower) ∷ [];
  active_client_id = "10.0.0.2:22";
  controlling_local = false;
}

abbrev move : InputEvent ℤ
move = record { event = mouse_move (pos 3) (pos 4); timestamp = 9; source_id = "desk" }

abbrev calls : List (ℕ × Call site)
calls =
    (1, registers "10.0.0.2:22" "laptop" "10.0.0.2:22")
    ∷ (2, switches_to_client "10.0.0.2:22")
    ∷ (3, handles_event move)
    ∷ (4, switches_to_local)
    ∷ (5, unregisters "10.0.0.2:22")
    ∷ []

calls-IsAdmissible : All (IsAdmissible site) calls
calls-IsAdmissible = (differs "10.0.0.2:22" "" refl, (tt, (tt, (tt, (tt, tt)))))

run-initial-Ok_example : Ok site (run site (initial site "") calls)
run-initial-Ok_example = run-initial-Ok site "" calls calls-IsAdmissible

handle_input_event_no_fallback_example :
    handle_input_event site 6 move (run site (initial site "") calls) ≢ then_switch_to_local base
handle_input_event_no_fallback_example =
    handle_input_event_no_fallback site "" calls 6 move base calls-IsAdmissible

switch_to_client_takes_control_example :
    let (cm, error) = switch_to_client site 7 "10.0.0.2:22" two_clients in
    (error ≡ none)
    × (cm.active_client_id ≡ "10.0.0.2:22")
    × (cm.controlling_local ≡ false)
    × (lookup "10.0.0.2:22" cm.clients ≡ some (set_status client_being_controlled laptop))
unfolding lookup
switch_to_client_takes_control_example =
    switch_to_client_takes_control site 7 "10.0.0.2:22" laptop two_clients refl refl refl

switch_to_client_refused_example :
    let (cm, error) = switch_to_client site 7 "broken" controlling in
    (error ≡ some set_target_failed)
    × (cm.active_client_id ≡ "10.0.0.2:22")
    × (cm.controlling_local ≡ false)
    × (cm.ssh_server ≡ none)
    × (lookup "10.0.0.2:22" cm.clients
        ≡ some (set_status client_idle (set_status client_being_controlled laptop)))
unfolding lookup
switch_to_client_refused_example =
    switch_to_client_refused site 7 "broken" tower (set_status client_being_controlled laptop)
      controlling refl refl refl (differs "10.0.0.2:22" "" refl) refl

abbrev shown : ServerModel site
shown = set_client_manager site controlling (new_server_model site new_base_ui)

update_key_releases_example :
    let pressed = update_key site 8 "esc" shown in
    (pressed.local_control ≡ true)
    × ((settle site 9 pressed).local_control ≡ true)
    × ((settle site 9 pressed).active_client ≡ none)
    × ((settle site 9 pressed).client_manager ≡ some (switch_to_local site 9 controlling).0)
unfolding set_client_manager new_server_model new_base_ui
update_key_releases_example =
    update_key_releases site 8 9 true shown controlling refl refl refl refl refl

unregister_client_forgets_example :
    let cm = unregister_client site "10.0.0.2:22" controlling in
    (lookup "10.0.0.2:22" cm.clients ≡ none)
    × (lookup "10.0.0.2:22" cm.client_cursors ≡ none)
    × (cm.active_client_id ≡ "")
    × (cm.controlling_local ≡ true)
    × (lookup "broken" cm.clients ≡ lookup "broken" controlling.clients)
unfolding lookup
unregister_client_forgets_example =
    unregister_client_forgets site "10.0.0.2:22" "broken" controlling refl
      (differs "10.0.0.2:22" "broken" refl)

abbrev asking : ControlEvent ℤ
asking = record { type = request_control; target_id = ""; config = none }

abbrev afterwards : List (ℕ × Call site)
afterwards =
    (11, handles_event move)
    ∷ (12, handles_event (record move { event = control asking; source_id = "10.0.0.2:22" }))
    ∷ (13, registers "10.0.0.9:22" "laptop" "10.0.0.9:22")
    ∷ (14, unregisters "broken")
    ∷ []

emergency_cooldown_holds_example :
    (run site (emergency_release site 10 controlling) afterwards).controlling_local ≡ true
emergency_cooldown_holds_example =
    emergency_cooldown_holds site 10 controlling afterwards
      (omega arith, (omega arith, (omega arith, (omega arith, tt))))

status_names_controlled_example :
    let s = handle_status_query site controlling in
    (s.active ≡ true)
    × (s.total_computers ≡ pos (length s.computer_names))
    × PointsTo site s "laptop"
unfolding lookup sorted_ids sort_strings
status_names_controlled_example =
    status_names_controlled site (set_status client_being_controlled laptop) controlling refl refl
      (omega arith)
