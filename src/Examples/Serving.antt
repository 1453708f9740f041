-- ===== src/Examples/Serving.antt =====
-- internal/server and internal/network: an emergency while the first of two devices is grabbed, and
-- a session that opens with an approved key.
use waymon.Common.{◌≡◌, refl, String, true, false, none, some, [], ◌∷◌, ◌||◌, All, arith, length}
use waymon.Common.Int.{pos, ◌≤ℤ◌}
use waymon.Common.Sort.{has}
use waymon.Config.Store.{Store, Config, get, whitelist, is_ssh_key_whitelisted}
use waymon.Capture.State.{AllDevicesCapture}
use waymon.Capture.Grabs.{grabbed_count}
use waymon.Examples.Devices.{kernel}
use waymon.Manager.State.{ClientManager}
use waymon.Server.State.{EmergencyRelease}
use waymon.Server.Emergency.{trigger_release}
use waymon.Server.Release.{capture_platform, trigger_release_frees}
use waymon.Network.Frame.{Writer}
use waymon.Network.Sessions.{SshClient, Session, public_key_auth, on_auth_request, open_session}
use waymon.Network.Whitelist.{whitelist_only, unknown_key_accepted}
use waymon.Network.Admission.{
  World, authenticates, opens, Reach, here, then_step, authenticate, reachable_sessions,
}

abbrev capture : AllDevicesCapture kernel
capture = record {
  devices = record { path = "event3"; name = "mouse"; grabbed = true } ∷ [];
  ignored_devices = [];
  event_chan = [];
  current_target = "10.0.0.2:22";
  capturing = true;
  grab_timeout = 30;
  grab_timer = none;
  armed = [];
  next_timer = 0;
  emergency_key = 1;
  last_activity = 0;
  no_grab = false;
  ctrl_pressed = false;
  kernel = 1;
}

abbrev manager : ClientManager (capture_platform kernel 90 Unit (λ id e s. (s, true)))
manager = record {
  clients = [];
  active_client_id = "10.0.0.2:22";
  input_backend = capture;
  ssh_server = none;
  controlling_local = false;
  on_activity = false;
  activities = [];
  last_activity_log = none;
  activity_count = 0;
  client_cursors = [];
  emergency_release_time = none;
  emergency_cooldown = 5;
}

abbrev watchdog : EmergencyRelease
watchdog = record { activity_timeout = 30; last_activity = 10; stopped = false }

trigger_release_frees_example :
    let (er, cm) =
      trigger_release
        (capture_platform kernel 90 Unit (λ id e s. (s, true)))
        90
        (watchdog, manager) in
    (cm.controlling_local ≡ true)
    × (cm.emergency_release_time ≡ some 90)
    × (er.last_activity ≡ 90)
    × (grabbed_count cm.input_backend.devices ≡ 0)
trigger_release_frees_example =
    trigger_release_frees kernel 90 Unit (λ id e s. (s, true)) (λ path k. refl) watchdog manager

abbrev discard : Writer
discard = record { State = Unit; write = λ bytes s. (s, true); flush = none }

abbrev config : Config
config = record {
  server = record {
    port = pos 52525;
    bind_address = "0.0.0.0";
    name = "desk";
    max_clients = pos 1;
    ssh_host_key_path = "/etc/waymon/host_key";
    ssh_auth_keys_path = "/etc/waymon/authorized_keys";
    ssh_whitelist = [];
    ssh_whitelist_only = true;
  };
  client = record {
    server_address = "";
    auto_connect = false;
    reconnect_delay = pos 5;
    edge_threshold = pos 5;
    screen_position = "right";
    edge_mappings = [];
    hotkey_modifier = "ctrl+alt";
    hotkey_key = "s";
    ssh_private_key = "";
  };
  logging = record { file_logging = true; log_level = "" };
  hosts = [];
}

abbrev defaults : Store
defaults = record { current = none; default = config }

unknown_key_accepted_example :
    let (after, ok) =
      public_key_auth true
        (some "SHA256:a")
        (some (on_auth_request "10.0.0.2:22" "SHA256:a"))
        defaults in
    (ok ≡ true)
    × (has "SHA256:a" (whitelist after)
        ≡ (whitelist_only defaults || has "SHA256:a" (whitelist defaults)))
unknown_key_accepted_example = unknown_key_accepted true "10.0.0.2:22" "SHA256:a" defaults

abbrev fresh : World discard
fresh = record {
  server = record {
    port = pos 52525;
    host_key_path = "";
    auth_keys_path = "";
    max_clients = pos 1;
    clients = [];
    stopped = false;
    notices = [];
  };
  config = defaults;
  accepted = [];
}

abbrev session : Session discard
session = record {
  id = "1";
  remote_addr = "10.0.0.2:22";
  fingerprint = some "SHA256:a";
  writer = tt;
}

-- The key is approved.
abbrev asked : World discard
asked = authenticate discard true (some "SHA256:a") (some true) fresh

asked_accepts : has "SHA256:a" asked.accepted ≡ true
unfolding public_key_auth is_ssh_key_whitelisted whitelist get
asked_accepts = refl

abbrev opened : World discard
opened = record asked { server = (open_session discard session asked.server).0 }

to_opened : Reach discard fresh opened
to_opened =
    then_step (then_step here (authenticates fresh true (some "SHA256:a") (some true)))
      (opens asked session "SHA256:a" refl asked_accepts)

fresh_only : whitelist_only fresh.config ≡ true
unfolding whitelist_only get
fresh_only = refl

reachable_sessions_example :
    (pos (length opened.server.clients) ≤ℤ pos 1)
    × All
        (λ (e : String × SshClient discard).
          is_ssh_key_whitelisted e.1.public_key opened.config ≡ true)
        opened.server.clients
reachable_sessions_example =
    reachable_sessions discard fresh opened fresh_only refl refl (omega arith) to_opened
