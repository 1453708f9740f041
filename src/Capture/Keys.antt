-- ===== src/Capture/Keys.antt =====
-- internal/input/all_devices_capture.go: the buttons, the Ctrl key and the emergency release.
use waymon.Common.{
  if_elim, ℕ, ◌+◌, ◌-◌, ◌≡◌, refl, ap, ◌∙◌, Bool, ◌&&◌, ◌==◌, leb, ltb, Option, none, some, List,
  [], ◌∷◌, if◌then◌else◌, arith, length,
}
use waymon.Common.Int.{ℤ, pos, eqb_ℤ}
use waymon.Proto.{InputEvent}
use waymon.Capture.State.{Evdev, AllDevicesCapture, capacity}
use waymon.Capture.Events.{
  EventType, ev_rel, ev_key, ev_other, DeviceEvent, Reading, send_button, track_ctrl, touch,
  send_event, button_number, send_mouse_button_event, send_scroll_event, send_keyboard_event,
  read_rel, read_key, read_type, read_events, is_ctrl, is_emergency,
}

-- The numbers of the mouse buttons in linux/input-event-codes.h follow each other.
pub record HasLinuxButtons (E : Evdev) : Type 0 where
  pub right : E.btn_right ≡ E.btn_left + 1
  pub middle : E.btn_middle ≡ E.btn_left + 2
  pub side : E.btn_side ≡ E.btn_left + 3
  pub extra : E.btn_extra ≡ E.btn_left + 4
  pub task : E.btn_task ≡ E.btn_left + 7

module _ (E : Evdev) where
  -- With the kernel's codes, the five named buttons agree with the rule for the others: the buttons
  -- from `btn_left` to `btn_task` are numbered from 1, and no other code is a button.
  button_number_rule :
      HasLinuxButtons E
      → (code : ℕ)
      → button_number E code ≡ (
          if leb E.btn_left code && leb code E.btn_task then some (code - E.btn_left + 1) else none)
  unfolding button_number
  button_number_rule l code = ground (arith, l.right, l.middle, l.side, l.extra, l.task)

  -- Whether Ctrl counts as pressed: the last event of a Ctrl key has the value 1.
  abbrev pub ctrl_step : EventType → ℕ → ℤ → Bool → Bool
  ctrl_step ev_rel code value b = b
  ctrl_step ev_key code value b = if is_ctrl E code then eqb_ℤ value (pos 1) else b
  ctrl_step ev_other code value b = b

  unfoldable pub ctrl_after : List DeviceEvent → Bool → Bool
  ctrl_after [] b = b
  ctrl_after (e ∷ es) b = ctrl_after es (ctrl_step e.type e.code e.value b)

module _ {E : Evdev} where
  touch_ctrl : (now : ℕ) (a : AllDevicesCapture E) → (touch now a).ctrl_pressed ≡ a.ctrl_pressed
  touch_ctrl now a = ground arith

  send_event_ctrl :
      (now : ℕ) (event : InputEvent E.float.Value) (a : AllDevicesCapture E)
      → (send_event now event a).ctrl_pressed ≡ a.ctrl_pressed
  unfolding send_event
  send_event_ctrl now event a =
      if_elim (λ (r : AllDevicesCapture E). r.ctrl_pressed ≡ a.ctrl_pressed)
        (ltb (length a.event_chan) capacity) (λ _. touch_ctrl now a) (λ _. touch_ctrl now a)

  after_button :
      (number : Option ℕ) (now : ℕ) (value : ℤ) (a : AllDevicesCapture E)
      → (send_button now value number a).ctrl_pressed ≡ a.ctrl_pressed
  after_button none now value a = refl
  after_button (some n) now value a = send_event_ctrl now _ a

  button_ctrl :
      (now code : ℕ) (value : ℤ) (a : AllDevicesCapture E)
      → (send_mouse_button_event now code value a).ctrl_pressed ≡ a.ctrl_pressed
  unfolding send_mouse_button_event
  button_ctrl now code value a = after_button (button_number E code) now value a

  -- The reading's Ctrl state is `b`.
  abbrev CtrlIs : Bool → Reading E → Type 0
  CtrlIs b r = r.capture.ctrl_pressed ≡ b

  rel_ctrl :
      (now code : ℕ) (value : ℤ) (r : Reading E)
      → CtrlIs r.capture.ctrl_pressed (read_rel now code value r)
  unfolding read_rel send_scroll_event
  rel_ctrl now code value r =
      if_elim (CtrlIs r.capture.ctrl_pressed) (code == E.rel_x) (λ _. refl)
        (λ _.
          if_elim (CtrlIs r.capture.ctrl_pressed) (code == E.rel_y) (λ _. refl)
            (λ _.
              if_elim (CtrlIs r.capture.ctrl_pressed) (code == E.rel_wheel)
                (λ _. send_event_ctrl now _ r.capture)
                (λ _.
                  if_elim (CtrlIs r.capture.ctrl_pressed) (code == E.rel_hwheel)
                    (λ _. send_event_ctrl now _ r.capture) (λ _. refl))))

  track_ctrl_now :
      (code : ℕ) (value : ℤ) (a : AllDevicesCapture E)
      → (track_ctrl code value a).ctrl_pressed ≡ ctrl_step E ev_key code value a.ctrl_pressed
  track_ctrl_now code value a = ground arith

  key_ctrl :
      (now code : ℕ) (value : ℤ) (r : Reading E)
      → CtrlIs (ctrl_step E ev_key code value r.capture.ctrl_pressed) (read_key now code value r)
  unfolding read_key send_keyboard_event
  key_ctrl now code value r =
      let a = track_ctrl code value r.capture in
      let b = ctrl_step E ev_key code value r.capture.ctrl_pressed in
      let e : a.ctrl_pressed ≡ b = track_ctrl_now code value r.capture in
      if_elim (CtrlIs b) (is_emergency code value a) (λ _. e)
        (λ _.
          if_elim (CtrlIs b) (leb E.btn_left code && leb code E.btn_task)
            (λ _. button_ctrl now code value a ∙ e) (λ _. send_event_ctrl now _ a ∙ e))

  type_ctrl :
      (type : EventType) (now code : ℕ) (value : ℤ) (r : Reading E)
      → CtrlIs
          (ctrl_step E type code value r.capture.ctrl_pressed)
          (read_type type now code value r)
  type_ctrl ev_rel now code value r = rel_ctrl now code value r
  type_ctrl ev_key now code value r = key_ctrl now code value r
  type_ctrl ev_other now code value r = refl

  -- Ctrl counts as pressed exactly where the last event of a Ctrl key in the sequence has the value
  -- 1, and as before where there is none: its repetition, with the value 2, ends the press.
  pub read_events-ctrl_after :
      (now : ℕ) (es : List DeviceEvent) (r : Reading E)
      → (read_events now es r).capture.ctrl_pressed ≡ ctrl_after E es r.capture.ctrl_pressed
  unfolding read_events ctrl_after
  read_events-ctrl_after now [] r = refl
  read_events-ctrl_after now (e ∷ es) r =
      read_events-ctrl_after now es (read_type e.type now e.code e.value r)
      ∙ ap (ctrl_after E es) (type_ctrl e.type now e.code e.value r)
