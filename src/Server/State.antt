-- ===== src/Server/State.antt =====
-- internal/server/server.go: what the server consists of, how it starts and stops, and the two
-- callbacks that it gives to the input backend. The backend and the SSH server are those that the
-- manager holds. A network server that ends with an error only logs it.
use waymon.Common.{ℕ, ◌*◌, Bool, true, false, not, Option, none, some, if◌then◌else◌}
use waymon.Proto.{InputEvent}
use waymon.Manager.State.{Platform, ClientManager, new_client_manager, second}
use waymon.Manager.Switch.{switch_to_local}
use waymon.Manager.Clients.{mark_emergency_release, notify_shutdown}
use waymon.Manager.Route.{handle_input_event}
use waymon.Manager.Lifecycle.{state}

-- `EmergencyRelease`, without the manager that it shares with the server.
pub record EmergencyRelease : Type 0 where
  pub activity_timeout : ℕ
  pub last_activity : ℕ
  pub stopped : Bool  -- whether `stopChan` is closed

-- `NewEmergencyRelease`
unfoldable pub new_emergency_release : ℕ → EmergencyRelease
new_emergency_release now = record {
  activity_timeout = 30 * second;
  last_activity = now;
  stopped = false;
}

pub data Error : Type 0 where
  input_failed manager_failed directory_failed backend_failed no_ssh_server : Error

module _ (P : Platform) where
  open P use {float, Backend, Ssh}

  pub record Server : Type 0 where
    pub input_backend : Option Backend  -- before the manager takes it
    pub client_manager : Option (ClientManager P)
    pub ssh_server : Option Ssh
    pub emergency : Option EmergencyRelease
    pub stopped : Bool  -- whether `stopOnce` is used up

  -- What the system answers while the server starts: `CreateServerBackend`, the two `MkdirAll`,
  -- `NewSSHServer` with `SetMaxClients`, and the backend's `Start`.
  pub record Startup : Type 0 where
    pub created : Option Backend
    pub host_key_directory : Bool
    pub auth_keys_directory : Bool
    pub new_ssh_server : Ssh
    pub start_backend : Backend → Backend × Bool

  unfoldable pub new : Server
  new = record {
    input_backend = none;
    client_manager = none;
    ssh_server = none;
    emergency = none;
    stopped = false;
  }

  unfoldable pub init_input : Option Backend → Server → Server × Option Error
  init_input none s = (s, some input_failed)
  init_input (some backend) s = (record s { input_backend = some backend }, none)

  abbrev pub with_manager : Option (ClientManager P) → Server → Server × Option Error
  with_manager none s = (s, some manager_failed)
  with_manager (some cm) s = (record s { client_manager = some cm }, none)

  unfoldable pub init_client_manager : Server → Server × Option Error
  init_client_manager s = with_manager (new_client_manager P s.input_backend) s

  unfoldable pub init_network : Startup → Server → Server × Option Error
  init_network env s =
      if not env.host_key_directory
      then (s, some directory_failed)
      else if not env.auth_keys_directory
      then (s, some directory_failed)
      else (record s { ssh_server = some env.new_ssh_server }, none)

  -- `s.inputBackend.Start(ctx)`, on the backend that the manager holds.
  abbrev pub start_manager : Startup → Option (ClientManager P) → Server → Server × Option Error
  start_manager env none s = (s, none)
  start_manager env (some cm) s =
      let (backend, started) = env.start_backend cm.input_backend in
      let running = record s { client_manager = some (record cm { input_backend = backend }) } in
      if started then (running, none) else (running, some backend_failed)

  unfoldable pub start_input : Startup → Server → Server × Option Error
  start_input env s = start_manager env s.client_manager s

  unfoldable pub init_emergency : ℕ → Server → Server × Option Error
  init_emergency now s = (record s { emergency = some (new_emergency_release now) }, none)

  -- The next step of `Start`, unless the one before returned an error.
  abbrev pub unless_failed :
      Server × Option Error → (Server → Server × Option Error) → Server × Option Error
  unless_failed (s, none) k = k s
  unless_failed (s, some e) k = (s, some e)

  unfoldable pub start : ℕ → Startup → Server → Server × Option Error
  start now env s =
      unless_failed
        (unless_failed
          (unless_failed (unless_failed (init_input env.created s) init_client_manager)
            (init_network env))
          (start_input env))
        (init_emergency now)

  -- `StartNetworking`; true where the network server's goroutine is started.
  unfoldable pub start_networking : Server → Bool × Option Error
  start_networking s = elim s.ssh_server [
    | none ↦ (false, some no_ssh_server)
    | some ssh ↦ (true, none)
  ]

  abbrev pub with_clients : (ClientManager P → ClientManager P) → Server → Server
  with_clients f s = record s {
    client_manager = elim s.client_manager [ none ↦ none | some cm ↦ some (f cm) ];
  }

  -- `UpdateActivity`
  unfoldable pub update_activity : ℕ → EmergencyRelease → EmergencyRelease
  update_activity now er = record er { last_activity = now }

  abbrev pub with_emergency : (EmergencyRelease → EmergencyRelease) → Server → Server
  with_emergency f s = record s {
    emergency = elim s.emergency [ none ↦ none | some er ↦ some (f er) ];
  }

  -- The callback for the emergency key of the capture.
  unfoldable pub emergency_handler : ℕ → Server → Server
  emergency_handler now s =
      with_clients (λ cm. (switch_to_local P now (mark_emergency_release P now cm)).0) s

  -- The callback for an event of the input backend.
  unfoldable pub on_input_event : ℕ → InputEvent float.Value → Server → Server
  on_input_event now e s =
      with_clients (λ cm. state P (handle_input_event P now e cm))
        (with_emergency (update_activity now) s)

  abbrev pub stop_server : (Ssh → Ssh) → Option Ssh → Option Ssh
  stop_server stop_ssh none = none
  stop_server stop_ssh (some ssh) = some (stop_ssh ssh)

  abbrev pub stop_parts : (Ssh → Ssh) → (Backend → Backend) → ClientManager P → ClientManager P
  stop_parts stop_ssh stop_backend cm = record cm {
    ssh_server = stop_server stop_ssh cm.ssh_server;
    input_backend = stop_backend cm.input_backend;
  }

  -- `Stop`; `stop_ssh` and `stop_backend` are those of the SSH server and of the backend. The
  -- server's SSH server and the manager's are one.
  unfoldable pub stop : (Ssh → Ssh) → (Backend → Backend) → ℕ → Server → Server
  stop stop_ssh stop_backend now s =
      let quiet = with_emergency (λ er. record er { stopped = true }) s in
      let told = with_clients (notify_shutdown P now) quiet in
      let ended =
        with_clients (stop_parts stop_ssh stop_backend)
          (record told { ssh_server = stop_server stop_ssh s.ssh_server; stopped = true }) in
      if s.stopped then s else ended
