-- ===== src/Examples/Injecting.antt =====
-- internal/input: the side button of a mouse, on a virtual pointer that counts its calls.
use waymon.Common.{ℕ, ◌+◌, ◌≡◌, refl, true, false, none, some, []}
use waymon.Float.{whole}
use waymon.Proto.{mouse_button}
use waymon.Capture.Events.{button_number}
use waymon.Client.Receiver.{InputReceiver, process_input_event, finished}
use waymon.Client.VirtualInput.{Wayland, VirtualInput}
use waymon.Client.Injection.{wayland_link}
use waymon.Client.Buttons.{HasSameButtons, button_arrives}
use waymon.Examples.Devices.{kernel, kernel-HasLinuxButtons}

abbrev counting : Wayland
counting = record {
  float = whole;
  Pointer = ℕ;
  Keyboard = Unit;
  create_pointer = some 0;
  create_keyboard = none;
  motion = λ dx dy p. (p + 1, true);
  motion_absolute = λ x y w h p. (p + 1, true);
  button = λ code pressed p. (p + code, true);
  axis_source_wheel = λ p. (p, true);
  axis = λ a d p. (p + 1, true);
  frame = λ p. (p, true);
  key = λ code pressed k. (k, true);
  lock_pointer = false;
  inhibit_shortcuts = false;
  btn_left = 272;
  btn_right = 273;
  btn_middle = 274;
  btn_side = 275;
  btn_extra = 276;
}

abbrev started : VirtualInput counting
started = record {
  pointer_mgr = true;
  keyboard_mgr = false;
  virtual_ptr = some 0;
  virtual_kbd = none;
  has_seat = false;
  has_pointer = false;
  has_surface = false;
  constraints_mgr = false;
  locked_pointer = false;
  shortcuts_inhibitor_mgr = false;
  shortcuts_inhibitor = false;
  on_input_event = false;
  events = [];
  current_target = "";
  capturing = true;
}

abbrev controlled : InputReceiver (wayland_link counting Unit (λ n. n))
controlled = record {
  locked = false;
  connected = true;
  server_address = "10.0.0.1:52525";
  ssh_connection = true;
  net = tt;
  input_backend = started;
  control_status = record {
    being_controlled = true;
    controller_name = "desk";
    controller_id = "";
    connected_at = 0;
  };
  on_status_change = false;
  status_changes = [];
  client_id = "laptop";
  on_connected = true;
  connections = 1;
  on_disconnected = true;
  disconnections = 0;
  private_key_path = "";
  monitors = 1;
  reconnect_enabled = false;
  reconnect_in_progress = false;
  on_reconnect_status = false;
  reconnect_statuses = [];
}

counting-HasSameButtons : HasSameButtons kernel counting
counting-HasSameButtons = record {
  left = refl;
  right = refl;
  middle = refl;
  side = refl;
  extra = refl;
}

button_arrives_example :
    process_input_event 9
      (record { event = mouse_button 4 true; timestamp = 8; source_id = "server" })
      controlled
    ≡ finished (record controlled { input_backend = record started { virtual_ptr = some 275 } })
unfolding button_number
button_arrives_example =
    button_arrives kernel counting kernel-HasLinuxButtons counting-HasSameButtons Unit (λ n. n) 9 8
      275 4 "server" true controlled 0 refl refl refl refl refl
