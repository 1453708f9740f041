-- ===== src/Input/EdgeDetector.antt =====
-- internal/input/edge_detector.go: the cursor at the edges of the monitors, and the capture that
-- begins and ends there. The callbacks are recorded where they are set; the `network.Client` is a
-- parameter. Times are milliseconds.
use waymon.Common.{
  ℕ, String, Bool, true, false, not, ◌&&◌, ◌||◌, Option, none, some, List, [], ◌∷◌, str_eq,
  if◌then◌else◌, length, ◌==◌,
}
use waymon.Common.Int.{ℤ, pos, ◌+ℤ◌, int32, leb_ℤ}
use waymon.Float.{Float64}
use waymon.Config.Store.{EdgeMapping, ClientConfig}
use waymon.Display.Monitor.{
  Monitor, Edge, edge_none, edge_left, edge_right, edge_top, edge_bottom, edge_string, get_edge,
  get_monitor_at,
}

-- internal/proto: the mouse event that goes to the other machine. `type` is one of the last five.
pub data EventType : Type 0 where
  type_move type_click type_scroll type_enter type_leave : EventType

pub record MouseEvent (V : Type 0) : Type 0 where
  pub type : EventType
  pub x : V
  pub y : V
  pub button : ℕ
  pub direction : ℕ
  pub is_pressed : Bool
  pub timestamp_ms : ℕ

-- `network.Client`: whether it is connected, and what sending an event does.
pub record Client (V : Type 0) : Type 1 where
  pub State : Type 0
  pub is_connected : State → Bool
  pub send_mouse_event : MouseEvent V → State → State × Bool

pub data Error : Type 0 where
  no_host send_failed : Error

-- The calls of `onEdgeEnter` and `onEdgeLeave`.
pub data Call : Type 0 where
  entered : Edge → ℤ → ℤ → Call
  left : Call

-- Go's `==` on edges.
abbrev pub edge_number : Edge → ℕ
edge_number edge_none = 0
edge_number edge_left = 1
edge_number edge_right = 2
edge_number edge_top = 3
edge_number edge_bottom = 4

abbrev pub same_edge : Edge → Edge → Bool
same_edge a b = edge_number a == edge_number b

module _ (F : Float64) (C : Client F.Value) where
  open F use {Value}

  pub record EdgeDetector : Type 0 where
    pub display : List (Monitor Value)
    pub client : Option C.State
    pub threshold : ℤ
    pub edge_mappings : List EdgeMapping
    pub active : Bool
    pub capturing : Bool
    pub last_x : ℤ
    pub last_y : ℤ
    pub last_edge : Edge
    pub active_host : String
    pub callbacks : Bool  -- whether they are set
    pub calls : List Call  -- the newest first

  unfoldable pub new_edge_detector :
      List (Monitor Value) → Option C.State → ℤ → List EdgeMapping → EdgeDetector
  new_edge_detector display client threshold mappings = record {
    display = display;
    client = client;
    threshold = if leb_ℤ threshold (pos 0) then pos 5 else threshold;
    edge_mappings = mappings;
    active = false;
    capturing = false;
    last_x = pos 0;
    last_y = pos 0;
    last_edge = edge_none;
    active_host = "";
    callbacks = false;
    calls = [];
  }

  unfoldable pub set_callbacks : Bool → EdgeDetector → EdgeDetector
  set_callbacks set e = record e { callbacks = set }

  -- `Start` and `Stop`, without the goroutine, whose ticks are `check_cursor_position`.
  unfoldable pub start : EdgeDetector → EdgeDetector
  start e = record e { active = true }

  unfoldable pub stop : EdgeDetector → EdgeDetector
  stop e = record e { active = false }

  abbrev pub is_mapped : EdgeMapping → Monitor Value → Edge → Bool
  is_mapped mapping m edge =
      str_eq mapping.edge (edge_string edge)
      && (str_eq mapping.monitor_id m.id
          || (str_eq mapping.monitor_id m.name
              || ((str_eq mapping.monitor_id "primary" && m.primary)
                  || str_eq mapping.monitor_id "*")))

  -- The host of the first mapping for an edge of a monitor.
  unfoldable pub find_host : List EdgeMapping → Monitor Value → Edge → Option String
  find_host [] m edge = none
  find_host (mapping ∷ rest) m edge =
      if is_mapped mapping m edge then some mapping.host else find_host rest m edge

  -- "Fallback to legacy screen_position if no mappings configured"
  abbrev pub legacy_host : ClientConfig → List EdgeMapping → Edge → String
  legacy_host cfg mappings edge =
      if length mappings == 0
        && (not (str_eq cfg.screen_position "")
            && (not (str_eq cfg.server_address "")
                && str_eq cfg.screen_position (edge_string edge)))
      then cfg.server_address
      else ""

  abbrev pub host_or : String → Option String → String
  host_or fallback none = fallback
  host_or fallback (some host) = host

  unfoldable pub get_host_for_edge : ClientConfig → Monitor Value → Edge → EdgeDetector → String
  unfolding find_host
  get_host_for_edge cfg m edge e =
      host_or (legacy_host cfg e.edge_mappings edge) (find_host e.edge_mappings m edge)

  abbrev pub call : Call → EdgeDetector → EdgeDetector
  call c e = if e.callbacks then record e { calls = c ∷ e.calls } else e

  abbrev pub enter_host : String → Edge → ℤ → ℤ → EdgeDetector → EdgeDetector
  enter_host host edge x y e =
      if str_eq host "" then e else call (entered edge x y) (record e { active_host = host })

  -- The block for a new edge, where the monitor at the point is known.
  abbrev pub enter_edge :
      ClientConfig → Option (Monitor Value) → Edge → ℤ → ℤ → EdgeDetector → EdgeDetector
  enter_edge cfg none edge x y e = e
  enter_edge cfg (some m) edge x y e =
      if e.capturing then e else enter_host (get_host_for_edge cfg m edge e) edge x y e

  -- "We've left the edge"
  abbrev pub leave_edge : EdgeDetector → EdgeDetector
  leave_edge e = if e.capturing then call left e else e

  abbrev pub at_edge : ClientConfig → Edge → ℤ → ℤ → EdgeDetector → EdgeDetector
  at_edge cfg edge x y e =
      if not (same_edge edge edge_none) && not (same_edge edge e.last_edge)
      then enter_edge cfg (get_monitor_at x y e.display) edge x y (record e { last_edge = edge })
      else if same_edge edge edge_none && not (same_edge e.last_edge edge_none)
      then leave_edge (record e { last_edge = edge })
      else e

  unfoldable pub check_cursor_position : ClientConfig → ℤ → ℤ → EdgeDetector → EdgeDetector
  unfolding get_host_for_edge
  check_cursor_position cfg x y e =
      if e.active then at_edge cfg (get_edge x y e.threshold e.display) x y e else e

  unfoldable pub update_cursor_position : ClientConfig → ℤ → ℤ → EdgeDetector → EdgeDetector
  unfolding check_cursor_position
  update_cursor_position cfg x y e =
      check_cursor_position cfg x y (record e { last_x = x; last_y = y })

  abbrev pub sent : C.State × Bool → EdgeDetector → EdgeDetector × Option Error
  sent (c, true) e = (record e { client = some c }, none)
  sent (c, false) e = (record e { client = some c }, some send_failed)

  -- `e.client != nil && e.client.IsConnected()`, and the send.
  abbrev pub send_to :
      Option C.State → MouseEvent Value → EdgeDetector → EdgeDetector × Option Error
  send_to none event e = (e, none)
  send_to (some c) event e =
      if C.is_connected c then sent (C.send_mouse_event event c) e else (e, none)

  abbrev pub event_at : EventType → ℤ → ℤ → ℕ → ℕ → Bool → ℕ → MouseEvent Value
  event_at type x y button direction pressed now = record {
    type = type;
    x = F.of_int x;
    y = F.of_int y;
    button = button;
    direction = direction;
    is_pressed = pressed;
    timestamp_ms = now;
  }

  abbrev pub begin_capture : ℕ → String → Edge → EdgeDetector → EdgeDetector × Option Error
  begin_capture now host edge e =
      if str_eq host ""
      then (e, some no_host)
      else send_to e.client (event_at type_enter e.last_x e.last_y 0 0 false now)
          (record e { capturing = true; active_host = host; last_edge = edge })

  unfoldable pub start_capture :
      ℕ → ClientConfig → Edge → Monitor Value → EdgeDetector → EdgeDetector × Option Error
  unfolding get_host_for_edge
  start_capture now cfg edge m e =
      if e.capturing then (e, none) else begin_capture now (get_host_for_edge cfg m edge e) edge e

  unfoldable pub stop_capture : ℕ → EdgeDetector → EdgeDetector × Option Error
  stop_capture now e =
      if e.capturing
      then send_to e.client (event_at type_leave e.last_x e.last_y 0 0 false now)
          (record e { capturing = false })
      else (e, none)

  -- The guard that the three handlers share.
  abbrev pub is_sending : EdgeDetector → Bool
  is_sending e = e.capturing && elim e.client [ none ↦ false | some c ↦ C.is_connected c ]

  unfoldable pub handle_mouse_move : ℕ → ℤ → ℤ → EdgeDetector → EdgeDetector × Option Error
  handle_mouse_move now dx dy e =
      if is_sending e
      then send_to e.client (event_at type_move dx dy 0 0 false now)
          (record e { last_x = int32 (e.last_x +ℤ dx); last_y = int32 (e.last_y +ℤ dy) })
      else (e, none)

  unfoldable pub handle_mouse_button : ℕ → ℕ → Bool → EdgeDetector → EdgeDetector × Option Error
  handle_mouse_button now button pressed e =
      if is_sending e
      then send_to e.client (event_at type_click e.last_x e.last_y button 0 pressed now) e
      else (e, none)

  unfoldable pub handle_mouse_scroll : ℕ → ℕ → EdgeDetector → EdgeDetector × Option Error
  handle_mouse_scroll now direction e =
      if is_sending e
      then send_to e.client (event_at type_scroll e.last_x e.last_y 0 direction false now) e
      else (e, none)
