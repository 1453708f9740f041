-- ===== src/Client/Injection.antt =====
-- internal/input/wayland_virtual_input.go: scrolling, keys, and the handlers of captured events,
-- which nothing calls yet. The virtual input as the backend of the receiver.
use waymon.Common.{
  ℕ, Bool, true, false, not, ◌||◌, ◌==◌, Option, none, some, ◌∷◌, str_eq, if◌then◌else◌,
}
use waymon.Proto.{Event, mouse_move, mouse_button, mouse_scroll, keyboard}
use waymon.Client.Receiver.{
  Link, Injection, inject_mouse_move, inject_mouse_scroll, inject_mouse_button, inject_key_event,
  inject_mouse_position,
}
use waymon.Client.VirtualInput
use waymon.Client.VirtualInput.{
  Wayland, Error, Axis, axis_vertical, axis_horizontal, not_available, injection_failed, framed,
  with_pointer, stop,
}

module _ (W : Wayland) where
  open W use {float, Pointer, Keyboard}

  -- The next call on the pointer, where the one before succeeded.
  abbrev pub then_call : Pointer × Bool → (Pointer → Pointer × Bool) → Pointer × Bool
  then_call (p, false) f = (p, false)
  then_call (p, true) f = f p

  -- An axis is only moved by a distance other than 0.
  abbrev pub scroll_axis : Axis → Bool → float.Value → Pointer → Pointer × Bool
  scroll_axis a zero distance p =
      let moved = W.axis a distance p in if zero then (p, true) else moved

  unfoldable pub scroll : float.Value → float.Value → Pointer → Pointer × Bool
  scroll dx dy p =
      then_call
        (then_call (W.axis_source_wheel p)
          (scroll_axis axis_vertical (float.eqb dy float.zero) (float.sub float.zero dy)))
        (scroll_axis axis_horizontal (float.eqb dx float.zero) dx)

  unfoldable pub inject_scroll :
      float.Value
      → float.Value
      → VirtualInput.VirtualInput W
      → VirtualInput.VirtualInput W × Option Error
  unfolding scroll
  inject_scroll dx dy w = with_pointer W w.virtual_ptr (λ p. framed W (scroll dx dy p)) w

  abbrev pub press_key :
      Option Keyboard
      → ℕ
      → Bool
      → VirtualInput.VirtualInput W
      → VirtualInput.VirtualInput W × Option Error
  press_key none key pressed w = (w, some not_available)
  press_key (some k) key pressed w =
      let (after, ok) = W.key key pressed k in
      if w.capturing
      then (record w { virtual_kbd = some after }, if ok then none else some injection_failed)
      else (w, some not_available)

  unfoldable pub inject_key :
      ℕ → Bool → VirtualInput.VirtualInput W → VirtualInput.VirtualInput W × Option Error
  inject_key key pressed w = press_key w.virtual_kbd key pressed w

  -- What the four handlers share: with a target and a callback, the event is passed on.
  abbrev pub pass_on :
      ℕ → Event float.Value → VirtualInput.VirtualInput W → VirtualInput.VirtualInput W
  pass_on now event w = if str_eq w.current_target "" || not w.on_input_event then w else record w {
    events = record { event = event; timestamp = now; source_id = "wayland-capture" } ∷ w.events;
  }

  unfoldable pub handle_pointer_motion :
      ℕ → float.Value → float.Value → VirtualInput.VirtualInput W → VirtualInput.VirtualInput W
  handle_pointer_motion now x y w = pass_on now (mouse_move x y) w

  unfoldable pub handle_pointer_button :
      ℕ → ℕ → ℕ → VirtualInput.VirtualInput W → VirtualInput.VirtualInput W
  handle_pointer_button now button state w = pass_on now (mouse_button button (state == 1)) w

  unfoldable pub handle_pointer_axis :
      ℕ → ℕ → float.Value → VirtualInput.VirtualInput W → VirtualInput.VirtualInput W
  handle_pointer_axis now axis value w =
      if axis == 0
      then pass_on now (mouse_scroll float.zero value) w
      else pass_on now (mouse_scroll value float.zero) w

  unfoldable pub handle_keyboard_key :
      ℕ → ℕ → ℕ → VirtualInput.VirtualInput W → VirtualInput.VirtualInput W
  handle_keyboard_key now key state w = pass_on now (keyboard key (state == 1)) w

  -- Whether a call of the backend succeeded.
  abbrev pub succeeded :
      VirtualInput.VirtualInput W × Option Error → VirtualInput.VirtualInput W × Bool
  succeeded (w, none) = (w, true)
  succeeded (w, some e) = (w, false)

  abbrev pub inject :
      Injection float.Value → VirtualInput.VirtualInput W → VirtualInput.VirtualInput W × Bool
  inject (inject_mouse_move dx dy) w = succeeded (VirtualInput.inject_mouse_move W dx dy w)
  inject (inject_mouse_scroll dx dy) w = succeeded (inject_scroll dx dy w)
  inject (inject_mouse_button button pressed) w =
      succeeded (VirtualInput.inject_mouse_button W button pressed w)
  inject (inject_key_event key pressed) w = succeeded (inject_key key pressed w)
  inject (inject_mouse_position x y) w = succeeded (VirtualInput.inject_mouse_position W x y w)

  -- The receiver's backend is the virtual input; the SSH client stays a parameter.
  abbrev pub wayland_link : (N : Type 0) → (N → N) → Link
  wayland_link N disconnect = record {
    Value = float.Value;
    Net = N;
    disconnect = disconnect;
    Backend = VirtualInput.VirtualInput W;
    stop_backend = stop W;
    inject = inject;
  }
