-- ===== src/Capture/Events.antt =====
-- internal/input/all_devices_capture.go: captureFromDevice, the send functions and processEvents.
use waymon.Common.{
  ℕ, suc, ◌+◌, ◌-◌, String, Bool, not, ◌&&◌, ◌||◌, ◌==◌, ltb, leb, length, Option, none, some, List,
  [], ◌∷◌, ◌++◌, if◌then◌else◌, str_eq,
}
use waymon.Common.Int.{ℤ, pos, ◌+ℤ◌, int32, ltb_ℤ, eqb_ℤ}
use waymon.Proto.{Event, InputEvent, mouse_move, mouse_button, mouse_scroll, keyboard}
use waymon.Capture.State.{Evdev, AllDevicesCapture, capacity}
use waymon.Capture.Target.{set_target}

-- The types of an evdev event that the loop tells apart; `EV_SYN`, `EV_MSC` and the rest do nothing.
pub data EventType : Type 0 where
  ev_rel ev_key ev_other : EventType

pub record DeviceEvent : Type 0 where
  pub type : EventType
  pub code : ℕ
  pub value : ℤ

-- `grabTimer.Reset(grabTimeout)`: the timer runs again, whether or not it has fired.
unfoldable pub reset_timer : ℕ → ℕ → List (ℕ × ℕ) → List (ℕ × ℕ)
reset_timer id at [] = (id, at) ∷ []
reset_timer id at ((k, old) ∷ ts) =
    let rest = reset_timer id at ts in if k == id then (k, at) ∷ ts else (k, old) ∷ rest

module _ (E : Evdev) where
  abbrev pub captured : ℕ → Event E.float.Value → InputEvent E.float.Value
  captured now event = record { event = event; timestamp = now; source_id = "all-devices-capture" }

  -- The `switch` of `sendMouseButtonEvent`: none is the unknown code.
  unfoldable pub button_number : ℕ → Option ℕ
  button_number code =
      if code == E.btn_left
      then some 1
      else if code == E.btn_right
      then some 2
      else if code == E.btn_middle
      then some 3
      else if code == E.btn_side
      then some 4
      else if code == E.btn_extra
      then some 5
      else if leb E.btn_left code && leb code E.btn_task
      then some (code - E.btn_left + 1)
      else none

  abbrev pub is_ctrl : ℕ → Bool
  is_ctrl code = code == E.key_leftctrl || code == E.key_rightctrl

module _ {E : Evdev} where
  abbrev pub touch : ℕ → AllDevicesCapture E → AllDevicesCapture E
  touch now a =
      let active = record a { last_activity = now } in
      if str_eq a.current_target "" then a else elim a.grab_timer [
        | none ↦ active
        | some id ↦ record active { armed = reset_timer id (now + a.grab_timeout) a.armed }
      ]

  -- A full channel drops the event.
  unfoldable pub send_event :
      ℕ → InputEvent E.float.Value → AllDevicesCapture E → AllDevicesCapture E
  unfolding reset_timer
  send_event now event a =
      let touched = touch now a in
      if ltb (length a.event_chan) capacity
      then record touched { event_chan = a.event_chan ++ (event ∷ []) }
      else touched

  abbrev pub send_button : ℕ → ℤ → Option ℕ → AllDevicesCapture E → AllDevicesCapture E
  send_button now value none a = a
  send_button now value (some button) a =
      send_event now (captured E now (mouse_button button (eqb_ℤ value (pos 1)))) a

  unfoldable pub send_mouse_button_event : ℕ → ℕ → ℤ → AllDevicesCapture E → AllDevicesCapture E
  unfolding button_number send_event
  send_mouse_button_event now code value a = send_button now value (button_number E code) a

  unfoldable pub send_scroll_event :
      ℕ → E.float.Value → E.float.Value → AllDevicesCapture E → AllDevicesCapture E
  unfolding send_event
  send_scroll_event now dx dy a = send_event now (captured E now (mouse_scroll dx dy)) a

  unfoldable pub send_keyboard_event : ℕ → ℕ → ℤ → AllDevicesCapture E → AllDevicesCapture E
  unfolding send_event
  send_keyboard_event now code value a =
      send_event now (captured E now (keyboard code (ltb_ℤ (pos 0) value))) a

-- The loop's own variables, with the capture: `accX` and `accY`, and whether a release by
-- emergency has been started, which runs on its own.
pub record Reading (E : Evdev) : Type 0 where
  pub capture : AllDevicesCapture E
  pub acc_x : ℤ
  pub acc_y : ℤ
  pub emergencies : ℕ

module _ {E : Evdev} where
  abbrev pub with_capture : Reading E → AllDevicesCapture E → Reading E
  with_capture r a = record r { capture = a }

  -- `case evdev.EV_REL`
  unfoldable pub read_rel : ℕ → ℕ → ℤ → Reading E → Reading E
  unfolding send_scroll_event
  read_rel now code value r =
      if code == E.rel_x
      then record r { acc_x = int32 (r.acc_x +ℤ value) }
      else if code == E.rel_y
      then record r { acc_y = int32 (r.acc_y +ℤ value) }
      else if code == E.rel_wheel
      then with_capture r (send_scroll_event now E.float.zero (E.float.of_int value) r.capture)
      else if code == E.rel_hwheel
      then with_capture r (send_scroll_event now (E.float.of_int value) E.float.zero r.capture)
      else r

  abbrev pub track_ctrl : ℕ → ℤ → AllDevicesCapture E → AllDevicesCapture E
  track_ctrl code value a =
      if is_ctrl E code then record a { ctrl_pressed = eqb_ℤ value (pos 1) } else a

  -- `!noGrab && event.Code == emergencyKey && event.Value == 1 && currentTarget != "" && ctrlPressed`
  abbrev pub is_emergency : ℕ → ℤ → AllDevicesCapture E → Bool
  is_emergency code value a =
      not a.no_grab
      && (code == a.emergency_key)
      && eqb_ℤ value (pos 1)
      && not (str_eq a.current_target "")
      && a.ctrl_pressed

  -- `case evdev.EV_KEY`
  unfoldable pub read_key : ℕ → ℕ → ℤ → Reading E → Reading E
  unfolding send_mouse_button_event send_keyboard_event
  read_key now code value r =
      let a = track_ctrl code value r.capture in
      if is_emergency code value a
      then record r { capture = a; emergencies = suc r.emergencies }
      else if leb E.btn_left code && leb code E.btn_task
      then with_capture r (send_mouse_button_event now code value a)
      else with_capture r (send_keyboard_event now code value a)

  -- The `switch` on the type.
  abbrev pub read_type : EventType → ℕ → ℕ → ℤ → Reading E → Reading E
  read_type ev_rel now code value r = read_rel now code value r
  read_type ev_key now code value r = read_key now code value r
  read_type ev_other now code value r = r

  unfoldable pub read_events : ℕ → List DeviceEvent → Reading E → Reading E
  unfolding read_rel read_key
  read_events now [] r = r
  read_events now (event ∷ events) r =
      read_events now events (read_type event.type now event.code event.value r)

  -- `case <-ticker.C`. The source, `all-devices-` with the base of the device's path, is an argument.
  unfoldable pub tick : ℕ → String → Reading E → Reading E
  unfolding send_event
  tick now source_id r =
      let move : InputEvent E.float.Value = record {
        event = mouse_move (E.float.of_int r.acc_x) (E.float.of_int r.acc_y);
        timestamp = now;
        source_id = source_id;
      } in
      if not (eqb_ℤ r.acc_x (pos 0)) || not (eqb_ℤ r.acc_y (pos 0))
      then record r { capture = send_event now move r.capture; acc_x = pos 0; acc_y = pos 0 }
      else r

  -- The goroutine of an emergency: the target is cleared, and the handler is called, if it is set.
  unfoldable pub release_in_emergency :
      {M : Type 0} → ℕ → Option (M → M) → AllDevicesCapture E → M → AllDevicesCapture E × M
  unfolding set_target
  release_in_emergency now handler a m =
      ((set_target now "" a).0, elim handler [ none ↦ m | some h ↦ h m ])

  -- A turn of `processEvents`: the event leaves the channel, and goes to the callback where there
  -- is a target and a callback.
  unfoldable pub process_event :
      {M : Type 0}
      → Option (InputEvent E.float.Value → M → M)
      → AllDevicesCapture E
      → M
      → AllDevicesCapture E × M
  process_event callback a m = elim a.event_chan [
    | [] ↦ (a, m)
    | event ∷ rest ↦
        let taken = record a { event_chan = rest } in
        if str_eq a.current_target ""
        then (taken, m)
        else elim callback [ none ↦ (taken, m) | some f ↦ (taken, f event m) ]
  ]
