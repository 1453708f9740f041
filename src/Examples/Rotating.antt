-- ===== src/Examples/Rotating.antt =====
-- internal/input: three computers, a cursor at an edge, and clicks in quick succession.
use waymon.Common.{◌≡◌, refl, Bool, true, false, none, List, [], ◌∷◌, arith}
use waymon.Common.Int.{ℤ, pos, ◌+ℤ◌, ◌-ℤ◌, int32}
use waymon.Float.{whole}
use waymon.Proto.{InputEvent, mouse_button}
use waymon.Config.Store.{ClientConfig}
use waymon.Display.Monitor.{
  Monitor, edge_none, edge_right, get_edge, get_monitor_at, contains, edge_of,
}
use waymon.Input.Switch.{SwitchManager, done, new_switch_manager, current_computer_name}
use waymon.Input.Contract.{add, remove, select_next, select_previous, successor, predecessor}
use waymon.Input.Refinement.{
  Command, adds, removes, moves_previous, run, replays, replay, name_of, initial_rotation,
  run_names_selected,
}
use waymon.Input.Aggregator.{new_rate_limit_filter}
use waymon.Input.RateLimit.{passed, IsSpaced, passed-IsSpaced}
use waymon.Input.EdgeDetector.{Client, EdgeDetector, update_cursor_position}
use waymon.Input.Debounce.{updates, edge_entered_once}

-- Two computers join, the second of them is selected, and the first one leaves.
abbrev commands : List Command
commands = adds "laptop" ∷ adds "tower" ∷ moves_previous ∷ removes "laptop" ∷ []

run_names_selected_example :
    (sm : SwitchManager) × (run commands new_switch_manager ≡ done sm none)
    × (sm.computers ≡ (replays commands initial_rotation).names)
    × (current_computer_name sm ≡ name_of (replays commands initial_rotation).selected)
run_names_selected_example = run_names_selected commands (omega arith)

replays_test : name_of (replays commands initial_rotation).selected ≡ "tower"
unfolding replays replay add remove select_next select_previous successor predecessor
replays_test = refl

abbrev click : Bool → InputEvent ℤ
click down = record { event = mouse_button 1 down; timestamp = 0; source_id = "server" }

passed-IsSpaced_example : IsSpaced 10 (
    passed
      (new_rate_limit_filter 10)
      ((100, click true) ∷ (105, click false) ∷ (110, click true) ∷ []))
passed-IsSpaced_example =
    passed-IsSpaced 10 ((100, click true) ∷ (105, click false) ∷ (110, click true) ∷ [])

-- A client that is not connected.
abbrev offline : Client ℤ
offline = record { State = Unit; is_connected = λ s. false; send_mouse_event = λ e s. (s, false) }

abbrev screen : Monitor ℤ
screen = record {
  id = "0";
  name = "DP-1";
  x = pos 0;
  y = pos 0;
  width = pos 1920;
  height = pos 1080;
  primary = true;
  scale = pos 1;
}

abbrev settings : ClientConfig
settings = record {
  server_address = "10.0.0.1:52525";
  auto_connect = false;
  reconnect_delay = pos 5;
  edge_threshold = pos 5;
  screen_position = "right";
  edge_mappings = [];
  hotkey_modifier = "ctrl+alt";
  hotkey_key = "s";
  ssh_private_key = "";
}

abbrev watching : EdgeDetector whole offline
watching = record {
  display = screen ∷ [];
  client = none;
  threshold = pos 5;
  edge_mappings = [];
  active = true;
  capturing = false;
  last_x = pos 0;
  last_y = pos 0;
  last_edge = edge_none;
  active_host = "";
  callbacks = true;
  calls = [];
}

edge_entered_once_example :
    (updates whole offline settings ((pos 1917, pos 500) ∷ (pos 1918, pos 510) ∷ []) watching).calls
    ≡ (update_cursor_position whole offline settings (pos 1917) (pos 500) watching).calls
unfolding get_edge get_monitor_at contains edge_of ◌+ℤ◌ ◌-ℤ◌ int32
edge_entered_once_example =
    edge_entered_once whole offline settings edge_right (pos 1917) (pos 500)
      ((pos 1918, pos 510) ∷ []) watching refl (refl, (refl, tt))
