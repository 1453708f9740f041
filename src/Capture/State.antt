-- ===== src/Capture/State.antt =====
-- internal/input/all_devices_capture.go: AllDevicesCapture and deviceHandler. The methods take the
-- state and return the new one. A `map` of devices is a list in the order in which a loop meets
-- them. `device != nil` holds of every handler that `addDevice` makes.
use waymon.Common.{ℕ, String, Bool, false, Option, none, List, []}
use waymon.Float.{Float64}
use waymon.Proto.{InputEvent}

-- What `device.Capabilities` lists of a type: its number, and the codes.
pub record Capability : Type 0 where
  pub type : ℕ
  pub codes : List ℕ

pub record DeviceInfo : Type 0 where
  pub name : String
  pub capabilities : List Capability

-- The evdev package over the kernel's state: what `Open`, `Grab` and `Release` do, the event codes,
-- and the strings package as far as the names of devices need it.
pub record Evdev : Type 1 where
  pub float : Float64
  pub Kernel : Type 0
  pub open_device : String → Kernel → Kernel × Option DeviceInfo
  pub grab : String → Kernel → Kernel × Bool
  pub release : String → Kernel → Kernel × Bool
  pub to_lower : String → String
  pub contains : String → String → Bool
  pub rel_x : ℕ
  pub rel_y : ℕ
  pub rel_wheel : ℕ
  pub rel_hwheel : ℕ
  pub key_leftctrl : ℕ
  pub key_rightctrl : ℕ
  pub key_esc : ℕ
  pub key_a : ℕ
  pub key_z : ℕ
  pub key_space : ℕ
  pub key_enter : ℕ
  pub key_tab : ℕ
  pub btn_left : ℕ
  pub btn_right : ℕ
  pub btn_middle : ℕ
  pub btn_side : ℕ
  pub btn_extra : ℕ
  pub btn_task : ℕ

-- `deviceHandler`
pub record DeviceHandler : Type 0 where
  pub path : String
  pub name : String
  pub grabbed : Bool

-- `AllDevicesCapture`. A timer is a number; `armed` holds the deadlines of those that run.
pub record AllDevicesCapture (E : Evdev) : Type 0 where
  pub devices : List DeviceHandler
  pub ignored_devices : List String
  pub event_chan : List (InputEvent E.float.Value)  -- the oldest first
  pub current_target : String
  pub capturing : Bool
  pub grab_timeout : ℕ
  pub grab_timer : Option ℕ
  pub armed : List (ℕ × ℕ)
  pub next_timer : ℕ
  pub emergency_key : ℕ
  pub last_activity : ℕ
  pub no_grab : Bool
  pub ctrl_pressed : Bool
  pub kernel : E.Kernel

abbrev pub set_grabbed : Bool → DeviceHandler → DeviceHandler
set_grabbed b d = record d { grabbed = b }

-- The capacity of `eventChan`.
abbrev pub capacity : ℕ
capacity = 1000

-- `NewAllDevicesCapture`
unfoldable pub new_all_devices_capture : (E : Evdev) → E.Kernel → AllDevicesCapture E
new_all_devices_capture E kernel = record {
  devices = [];
  ignored_devices = [];
  event_chan = [];
  current_target = "";
  capturing = false;
  grab_timeout = 30_000_000_000;
  grab_timer = none;
  armed = [];
  next_timer = 0;
  emergency_key = E.key_esc;
  last_activity = 0;
  no_grab = false;
  ctrl_pressed = false;
  kernel = kernel;
}
