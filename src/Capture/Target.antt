-- ===== src/Capture/Target.antt =====
-- internal/input/all_devices_capture.go: SetTarget, the safety timer and the setters.
use waymon.Common.{
  ℕ, suc, ◌+◌, String, Bool, true, false, ◌==◌, none, some, List, [], ◌∷◌, if◌then◌else◌, str_eq,
}
use waymon.Capture.State.{Evdev, DeviceHandler, AllDevicesCapture, set_grabbed}

-- The timers without the one that is stopped.
unfoldable pub stop_timer : ℕ → List (ℕ × ℕ) → List (ℕ × ℕ)
stop_timer id [] = []
stop_timer id ((k, at) ∷ ts) =
    let rest = stop_timer id ts in if k == id then rest else (k, at) ∷ rest

module _ (E : Evdev) where
  -- The loop that releases: a device that refuses stays marked as grabbed.
  unfoldable pub release_devices : List DeviceHandler → E.Kernel → List DeviceHandler × E.Kernel
  release_devices [] k = ([], k)
  release_devices (d ∷ ds) k =
      let (k1, ok) = E.release d.path k in
      let (ds1, k2) = release_devices ds k1 in
      let (ds3, k3) = release_devices ds k in
      if d.grabbed then ((if ok then set_grabbed false d else d) ∷ ds1, k2) else (d ∷ ds3, k3)

  -- The loop that grabs, and how many devices have refused.
  unfoldable pub grab_devices : List DeviceHandler → E.Kernel → List DeviceHandler × E.Kernel × ℕ
  grab_devices [] k = ([], k, 0)
  grab_devices (d ∷ ds) k =
      let (k1, ok) = E.grab d.path k in
      let (ds1, k2, n) = grab_devices ds k1 in
      let (ds3, k3, m) = grab_devices ds k in
      if d.grabbed
      then (d ∷ ds3, k3, m)
      else if ok
      then (set_grabbed true d ∷ ds1, k2, n)
      else (d ∷ ds1, k2, suc n)

  -- The loop of the timer's function, which ignores what `Release` returns.
  unfoldable pub force_release : List DeviceHandler → E.Kernel → List DeviceHandler × E.Kernel
  force_release [] k = ([], k)
  force_release (d ∷ ds) k =
      let (k1, ok) = E.release d.path k in
      let (ds1, k2) = force_release ds k1 in
      let (ds3, k3) = force_release ds k in
      if d.grabbed then (set_grabbed false d ∷ ds1, k2) else (d ∷ ds3, k3)

module _ {E : Evdev} where
  abbrev pub stop_grab_timer : AllDevicesCapture E → AllDevicesCapture E
  stop_grab_timer a = elim a.grab_timer [
    | none ↦ a
    | some id ↦ record a { grab_timer = none; armed = stop_timer id a.armed }
  ]

  -- `SetTarget("")`
  unfoldable pub clear_target : AllDevicesCapture E → AllDevicesCapture E
  clear_target a =
      let stopped = stop_grab_timer a in
      let (devices, kernel) = release_devices E a.devices a.kernel in
      record stopped { current_target = ""; devices = devices; kernel = kernel }

  -- `time.AfterFunc(a.grabTimeout, …)`, kept as the new `grabTimer`.
  abbrev pub start_grab_timer : ℕ → AllDevicesCapture E → AllDevicesCapture E
  start_grab_timer now a = record a {
    last_activity = now;
    grab_timer = some a.next_timer;
    armed = (a.next_timer, now + a.grab_timeout) ∷ a.armed;
    next_timer = suc a.next_timer;
  }

  abbrev pub with_devices :
      List DeviceHandler → E.Kernel → AllDevicesCapture E → AllDevicesCapture E
  with_devices devices kernel a = record a { devices = devices; kernel = kernel }

  -- `SetTarget` of a client: the new state, and whether it succeeded.
  unfoldable pub grab_target : ℕ → String → AllDevicesCapture E → AllDevicesCapture E × Bool
  grab_target now client_id a =
      let targeted = record a { current_target = client_id } in
      let (devices, kernel, refused) = grab_devices E a.devices a.kernel in
      if a.no_grab
      then (targeted, true)
      else if refused == 0
      then (start_grab_timer now (with_devices devices kernel targeted), true)
      else (with_devices devices kernel a, false)

  unfoldable pub set_target : ℕ → String → AllDevicesCapture E → AllDevicesCapture E × Bool
  unfolding clear_target grab_target
  set_target now client_id a =
      if str_eq client_id "" then (clear_target a, true) else grab_target now client_id a

  -- A timer's function runs.
  unfoldable pub expire : ℕ → AllDevicesCapture E → AllDevicesCapture E
  expire id a =
      let fired = record a { armed = stop_timer id a.armed } in
      let (devices, kernel) = force_release E a.devices a.kernel in
      if str_eq a.current_target ""
      then fired
      else record fired { current_target = ""; devices = devices; kernel = kernel }

  abbrev pub set_grab_timeout : ℕ → AllDevicesCapture E → AllDevicesCapture E
  set_grab_timeout timeout a = record a { grab_timeout = timeout }

  abbrev pub set_emergency_key : ℕ → AllDevicesCapture E → AllDevicesCapture E
  set_emergency_key key_code a = record a { emergency_key = key_code }

  abbrev pub set_no_grab : Bool → AllDevicesCapture E → AllDevicesCapture E
  set_no_grab no_grab a = record a { no_grab = no_grab }
