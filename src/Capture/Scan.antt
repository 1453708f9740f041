-- ===== src/Capture/Scan.antt =====
-- internal/input/all_devices_capture.go: a scan of the directory leaves no path undecided.
use waymon.Common.{◌≡◌, String, true, ◌||◌, str_eq}
use waymon.Capture.State.{Evdev, AllDevicesCapture}
use waymon.Capture.Devices.{any, has_device}

module _ {E : Evdev} where
  -- The path is captured, or ignored.
  abbrev pub Decided : String → AllDevicesCapture E → Type 0
  Decided p a = (has_device p a.devices || any (str_eq p) a.ignored_devices) ≡ true
