-- ===== src/Capture/Devices.antt =====
-- internal/input/all_devices_capture.go: the devices that are captured, added and removed.
use waymon.Common.{
  ℕ, String, Bool, true, false, ◌&&◌, ◌||◌, ◌==◌, leb, none, some, List, [], ◌∷◌, if◌then◌else◌,
  str_eq,
}
use waymon.Capture.State.{Capability, DeviceInfo, Evdev, DeviceHandler, AllDevicesCapture}

abbrev pub exclude_patterns : List String
exclude_patterns =
    "virtual console" ∷ "system console" ∷ "tty" ∷ "vt" ∷ "console mouse" ∷ "speakup" ∷ "pc speaker"
    ∷ "hdmi" ∷ "video bus" ∷ "power button" ∷ "sleep button" ∷ "lid switch" ∷ []

abbrev pub any : {A : Type 0} → (A → Bool) → List A → Bool
any p [] = false
any p (x ∷ xs) = p x || any p xs

module _ (E : Evdev) where
  -- The codes of `EV_KEY` and of `EV_REL` that make a device one to capture.
  abbrev pub is_wanted_key : ℕ → Bool
  is_wanted_key code =
      (leb E.btn_left code && leb code E.btn_task)
      || (leb E.key_a code && leb code E.key_z)
      || (code == E.key_space)
      || (code == E.key_enter)
      || (code == E.key_esc)
      || (code == E.key_tab)

  abbrev pub is_wanted_rel : ℕ → Bool
  is_wanted_rel code =
      (code == E.rel_x) || (code == E.rel_y) || (code == E.rel_wheel) || (code == E.rel_hwheel)

  abbrev pub is_wanted : Capability → Bool
  is_wanted c =
      if c.type == 1
      then any is_wanted_key c.codes
      else if c.type == 2
      then any is_wanted_rel c.codes
      else false

  unfoldable pub is_valid_input_device : DeviceInfo → Bool
  is_valid_input_device device =
      if any (E.contains (E.to_lower device.name)) exclude_patterns
      then false
      else any is_wanted device.capabilities

abbrev pub has_device : String → List DeviceHandler → Bool
has_device path ds = any (λ (d : DeviceHandler). str_eq d.path path) ds

unfoldable pub delete_device : String → List DeviceHandler → List DeviceHandler
delete_device path [] = []
delete_device path (d ∷ ds) =
    let rest = delete_device path ds in if str_eq d.path path then rest else d ∷ rest

-- The last two loops of `checkForDeviceChanges`.
abbrev pub keep_devices : List String → List DeviceHandler → List DeviceHandler
keep_devices paths [] = []
keep_devices paths (d ∷ ds) =
    let rest = keep_devices paths ds in if any (str_eq d.path) paths then d ∷ rest else rest

abbrev pub keep_ignored : List String → List String → List String
keep_ignored paths [] = []
keep_ignored paths (p ∷ ps) =
    let rest = keep_ignored paths ps in if any (str_eq p) paths then p ∷ rest else rest

module _ {E : Evdev} where
  -- `addDevice`: the new state, and whether it succeeded.
  unfoldable pub add_device : String → AllDevicesCapture E → AllDevicesCapture E × Bool
  unfolding is_valid_input_device
  add_device path a =
      let (kernel, opened) = E.open_device path a.kernel in
      if has_device path a.devices then (a, true) else elim opened [
        | none ↦ (record a { kernel = kernel }, false)
        | some info ↦
            if is_valid_input_device E info
            then (
              record a {
                kernel = kernel;
                devices = record { path = path; name = info.name; grabbed = false } ∷ a.devices;
              },
              true,
            )
            else (record a { kernel = kernel }, false)
      ]

  -- A path that could not be added is ignored from then on.
  abbrev pub ignore_unless_added : String → AllDevicesCapture E × Bool → AllDevicesCapture E
  ignore_unless_added path (a, true) = a
  ignore_unless_added path (a, false) = record a { ignored_devices = path ∷ a.ignored_devices }

  -- The loop of `discoverAndStartDevices`, over the paths of the directory.
  unfoldable pub discover_devices : List String → AllDevicesCapture E → AllDevicesCapture E
  unfolding add_device
  discover_devices [] a = a
  discover_devices (path ∷ paths) a =
      let skipped = discover_devices paths a in
      let tried = discover_devices paths (ignore_unless_added path (add_device path a)) in
      if any (str_eq path) a.ignored_devices then skipped else tried

  unfoldable pub remove_device : String → AllDevicesCapture E → AllDevicesCapture E
  unfolding delete_device
  remove_device path a = record a { devices = delete_device path a.devices }

  unfoldable pub check_for_device_changes : List String → AllDevicesCapture E → AllDevicesCapture E
  unfolding discover_devices
  check_for_device_changes paths a =
      let added = discover_devices paths a in
      record added {
        devices = keep_devices paths added.devices;
        ignored_devices = keep_ignored paths added.ignored_devices;
      }

  -- `Stop`
  unfoldable pub stop : AllDevicesCapture E → AllDevicesCapture E
  stop a =
      if a.capturing
      then record a { devices = []; ignored_devices = []; event_chan = []; capturing = false }
      else a
