-- ===== src/Examples/Devices.antt =====
-- internal/input/all_devices_capture.go: a mouse and a keyboard.
use waymon.Common.{
  ℕ, ◌≡◌, refl, true, false, none, some, List, [], ◌∷◌, arith, if◌then◌else◌, str_eq, ◌+◌, ◌-◌,
}
use waymon.Common.Int.{pos, negsuc, int32, ◌+ℤ◌}
use waymon.Float.{whole}
use waymon.Capture.State.{Evdev, AllDevicesCapture, DeviceHandler}
use waymon.Capture.Target.{set_target, expire}
use waymon.Capture.Events.{DeviceEvent, ev_rel, ev_key, Reading, read_events}
use waymon.Capture.Grabs.{
  released, grabbed_paths, unmarked, IsTargeted, set_target-IsTargeted, expire_releases,
}
use waymon.Capture.Keys.{HasLinuxButtons, ctrl_after, read_events-ctrl_after}
use waymon.Capture.Motion.{moved, read_events-moved}

-- Devices that all but "event9" can be grabbed, with the kernel's codes.
abbrev pub kernel : Evdev
kernel = record {
  float = whole;
  Kernel = ℕ;
  open_device = λ path k. (k, none);
  grab = λ path k. if str_eq path "event9" then (k, false) else (k + 1, true);
  release = λ path k. (k - 1, true);
  to_lower = λ name. name;
  contains = λ text pattern. str_eq text pattern;
  rel_x = 0;
  rel_y = 1;
  rel_wheel = 8;
  rel_hwheel = 6;
  key_leftctrl = 29;
  key_rightctrl = 97;
  key_esc = 1;
  key_a = 30;
  key_z = 44;
  key_space = 57;
  key_enter = 28;
  key_tab = 15;
  btn_left = 272;
  btn_right = 273;
  btn_middle = 274;
  btn_side = 275;
  btn_extra = 276;
  btn_task = 279;
}

abbrev mouse : DeviceHandler
mouse = record { path = "event3"; name = "mouse"; grabbed = false }

abbrev busy : DeviceHandler
busy = record { path = "event9"; name = "keyboard"; grabbed = false }

abbrev idle : AllDevicesCapture kernel
idle = record {
  devices = mouse ∷ busy ∷ [];
  ignored_devices = [];
  event_chan = [];
  current_target = "";
  capturing = true;
  grab_timeout = 30;
  grab_timer = none;
  armed = [];
  next_timer = 0;
  emergency_key = 1;
  last_activity = 0;
  no_grab = false;
  ctrl_pressed = false;
  kernel = 0;
}

-- The keyboard refuses: the mouse stays grabbed, with no client to send its input to.
set_target-IsTargeted_example : IsTargeted 10 "laptop" idle (set_target 10 "laptop" idle)
set_target-IsTargeted_example = set_target-IsTargeted 10 "laptop" idle refl refl

abbrev grabbing : AllDevicesCapture kernel
grabbing = record idle {
  devices = record mouse { grabbed = true } ∷ [];
  current_target = "laptop";
  grab_timer = some 0;
  armed = (0, 40) ∷ [];
  next_timer = 1;
  kernel = 1;
}

expire_releases_example :
    ((expire 0 grabbing).current_target ≡ "")
    × ((expire 0 grabbing).kernel ≡ 0)
    × ((expire 0 grabbing).devices ≡ mouse ∷ [])
unfolding released grabbed_paths unmarked
expire_releases_example = expire_releases 0 grabbing refl

pub kernel-HasLinuxButtons : HasLinuxButtons kernel
kernel-HasLinuxButtons = record {
  right = refl;
  middle = refl;
  side = refl;
  extra = refl;
  task = refl;
}

-- Ctrl is pressed, repeats, and the mouse moves.
abbrev events : List DeviceEvent
events =
    record { type = ev_key; code = 29; value = pos 1 }
    ∷ record { type = ev_rel; code = 0; value = negsuc 2 }
    ∷ record { type = ev_key; code = 29; value = pos 2 }
    ∷ record { type = ev_rel; code = 0; value = pos 10 }
    ∷ []

abbrev reading : Reading kernel
reading = record { capture = grabbing; acc_x = pos 0; acc_y = pos 0; emergencies = 0 }

read_events-ctrl_after_example :
    (read_events 60 events reading).capture.ctrl_pressed ≡ ctrl_after kernel events false
read_events-ctrl_after_example = read_events-ctrl_after 60 events reading

read_events-moved_example :
    ((read_events 60 events reading).acc_x ≡ int32 (pos 0 +ℤ moved 0 events))
    × ((read_events 60 events reading).acc_y ≡ int32 (pos 0 +ℤ moved 1 events))
read_events-moved_example =
    read_events-moved (λ e. absurd (omega (arith, e))) 60 events reading (omega arith) (omega arith)
