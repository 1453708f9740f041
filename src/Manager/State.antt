-- ===== src/Manager/State.antt =====
-- internal/server/manager.go: the state of the client manager, and what it calls.
-- A method takes the manager and returns the new one. Times are nanoseconds; `time.Now()` is an
-- argument. A `map` is an association list, and a `*ConnectedClient` the entry that it points to.
use waymon.Common.{
  ℕ, String, Bool, true, false, ◌*◌, Option, none, some, List, [], ◌∷◌, if◌then◌else◌,
}
use waymon.Float.{Float64}
use waymon.Proto.{Monitor, ClientCapabilities, ClientStatus, InputEvent}

-- The input backend and the SSH server as the manager sees them: each call returns the new state
-- and whether it succeeded.
pub record Platform : Type 1 where
  pub float : Float64
  pub Backend : Type 0
  pub set_target : String → Backend → Backend × Bool
  pub Ssh : Type 0
  pub send_event_to_client : String → InputEvent float.Value → Ssh → Ssh × Bool
  pub hostname : Option String  -- `os.Hostname()`

pub data Error : Type 0 where
  no_backend set_target_failed no_clients unknown_action : Error
  client_not_found : String → Error

-- The calls of `onActivity`, with what their texts are made of.
pub data Activity : Type 0 where
  released_control : Activity
  started_controlling disconnected_active : String → String → Activity
  client_connected client_disconnected : String → String → Activity
  client_configured : String → ℕ → Activity
  injecting : String → String → Activity  -- an input event, with its client
  actively_controlling : String → String → ℕ → Activity

pub record Rect (V : Type 0) : Type 0 where
  pub min_x : V
  pub min_y : V
  pub max_x : V
  pub max_y : V

pub record CursorState (V : Type 0) : Type 0 where
  pub x : V
  pub y : V
  pub bounds : Rect V

pub record ConnectedClient (V : Type 0) : Type 0 where
  pub id : String
  pub name : String
  pub address : String
  pub status : ClientStatus
  pub connected_at : ℕ
  pub monitors : List (Monitor V)
  pub capabilities : Option ClientCapabilities

pub record ClientManager (P : Platform) : Type 0 where
  pub clients : List (String × ConnectedClient P.float.Value)
  pub active_client_id : String
  pub input_backend : P.Backend
  pub ssh_server : Option P.Ssh
  pub controlling_local : Bool
  pub on_activity : Bool  -- whether the callback is set
  pub activities : List Activity  -- its calls, the newest first
  pub last_activity_log : Option ℕ  -- none is the zero time
  pub activity_count : ℕ
  pub client_cursors : List (String × CursorState P.float.Value)
  pub emergency_release_time : Option ℕ
  pub emergency_cooldown : ℕ

abbrev pub second : ℕ
second = 1_000_000_000

abbrev pub set_status : {V : Type 0} → ClientStatus → ConnectedClient V → ConnectedClient V
set_status s c = record c { status = s }

module _ (P : Platform) where
  unfoldable pub initial : P.Backend → ClientManager P
  initial backend = record {
    clients = [];
    active_client_id = "";
    input_backend = backend;
    ssh_server = none;
    controlling_local = true;
    on_activity = false;
    activities = [];
    last_activity_log = none;
    activity_count = 0;
    client_cursors = [];
    emergency_release_time = none;
    emergency_cooldown = 5 * second;
  }

  -- `NewClientManager`, which refuses a nil backend.
  unfoldable pub new_client_manager : Option P.Backend → Option (ClientManager P)
  unfolding initial
  new_client_manager none = none
  new_client_manager (some backend) = some (initial backend)

  -- `if cm.onActivity != nil { cm.onActivity(…) }`
  unfoldable pub notify : Activity → ClientManager P → ClientManager P
  notify a cm = if cm.on_activity then record cm { activities = a ∷ cm.activities } else cm
