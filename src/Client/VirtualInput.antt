-- ===== src/Client/VirtualInput.antt =====
-- internal/input/wayland_virtual_input.go: the virtual pointer and keyboard that the client injects
-- input with. The Wayland libraries are a parameter: a device is a state, and a call returns the
-- new one and whether it succeeded. The pointer to a surface, a seat or a manager that is only
-- tested against nil is a flag. Times are left to the libraries.
use waymon.Common.{
  ℕ, String, Bool, true, false, ◌&&◌, ◌==◌, Option, none, some, List, [], str_eq, if◌then◌else◌,
}
use waymon.Float.{Float64}
use waymon.Proto.{InputEvent}

pub data Axis : Type 0 where
  axis_vertical axis_horizontal : Axis

pub record Wayland : Type 1 where
  pub float : Float64
  pub Pointer : Type 0
  pub Keyboard : Type 0
  pub create_pointer : Option Pointer
  pub create_keyboard : Option Keyboard
  pub motion : float.Value → float.Value → Pointer → Pointer × Bool
  pub motion_absolute : ℕ → ℕ → ℕ → ℕ → Pointer → Pointer × Bool
  pub button : ℕ → Bool → Pointer → Pointer × Bool
  pub axis_source_wheel : Pointer → Pointer × Bool
  pub axis : Axis → float.Value → Pointer → Pointer × Bool
  pub frame : Pointer → Pointer × Bool
  pub key : ℕ → Bool → Keyboard → Keyboard × Bool
  pub lock_pointer : Bool  -- whether `LockPointerAtCurrentPosition` succeeds
  pub inhibit_shortcuts : Bool
  pub btn_left : ℕ
  pub btn_right : ℕ
  pub btn_middle : ℕ
  pub btn_side : ℕ
  pub btn_extra : ℕ

pub data Error : Type 0 where
  already_started not_available injection_failed frame_failed : Error
  unsupported_button : ℕ → Error

module _ (W : Wayland) where
  open W use {float, Pointer, Keyboard}

  pub record VirtualInput : Type 0 where
    pub pointer_mgr : Bool
    pub keyboard_mgr : Bool
    pub virtual_ptr : Option Pointer
    pub virtual_kbd : Option Keyboard
    pub has_seat : Bool
    pub has_pointer : Bool
    pub has_surface : Bool
    pub constraints_mgr : Bool
    pub locked_pointer : Bool
    pub shortcuts_inhibitor_mgr : Bool
    pub shortcuts_inhibitor : Bool
    pub on_input_event : Bool  -- whether the callback is set
    pub events : List (InputEvent float.Value)  -- its calls, the newest first
    pub current_target : String
    pub capturing : Bool

  -- `NewWaylandVirtualInput`, by what it connects to and which managers it gets; none is an error.
  unfoldable pub new_wayland_virtual_input : Bool → Bool → Bool → Bool → Bool → Option VirtualInput
  new_wayland_virtual_input connected pointers keyboards constraints inhibitors =
      if connected && pointers
      then some (record {
        pointer_mgr = true;
        keyboard_mgr = keyboards;
        virtual_ptr = none;
        virtual_kbd = none;
        has_seat = false;
        has_pointer = false;
        has_surface = false;
        constraints_mgr = constraints;
        locked_pointer = false;
        shortcuts_inhibitor_mgr = inhibitors;
        shortcuts_inhibitor = false;
        on_input_event = false;
        events = [];
        current_target = "";
        capturing = false;
      })
      else none

  -- A new device where there is a manager that creates one, else the one before.
  abbrev pub created : {D : Type 0} → Bool → Option D → Option D → Option D
  created false new old = old
  created true none old = old
  created true (some d) old = some d

  -- `Start`, without the goroutine that waits for the context.
  unfoldable pub start : VirtualInput → VirtualInput × Option Error
  start w = if w.capturing then (w, some already_started) else (
    record w {
      capturing = true;
      virtual_ptr = created w.pointer_mgr W.create_pointer w.virtual_ptr;
      virtual_kbd = created w.keyboard_mgr W.create_keyboard w.virtual_kbd;
    },
    none,
  )

  unfoldable pub enable_exclusive_capture : VirtualInput → VirtualInput
  enable_exclusive_capture w = record w {
    locked_pointer =
        if w.constraints_mgr && (w.has_surface && (w.has_pointer && W.lock_pointer))
        then true
        else w.locked_pointer;
    shortcuts_inhibitor =
        if w.shortcuts_inhibitor_mgr && (w.has_surface && (w.has_seat && W.inhibit_shortcuts))
        then true
        else w.shortcuts_inhibitor;
  }

  unfoldable pub disable_exclusive_capture : VirtualInput → VirtualInput
  disable_exclusive_capture w = record w { locked_pointer = false; shortcuts_inhibitor = false }

  -- `Stop`, which drops the devices and the managers.
  unfoldable pub stop : VirtualInput → VirtualInput
  unfolding disable_exclusive_capture
  stop w =
      if w.capturing
      then record (disable_exclusive_capture w) {
        capturing = false;
        virtual_ptr = none;
        virtual_kbd = none;
        pointer_mgr = false;
        keyboard_mgr = false;
        constraints_mgr = false;
        shortcuts_inhibitor_mgr = false;
      }
      else w

  unfoldable pub set_target : String → VirtualInput → VirtualInput
  unfolding enable_exclusive_capture disable_exclusive_capture
  set_target client_id w =
      let targeted = record w { current_target = client_id } in
      if str_eq client_id ""
      then if str_eq w.current_target "" then targeted else disable_exclusive_capture targeted
      else if str_eq w.current_target ""
      then enable_exclusive_capture targeted
      else targeted

  unfoldable pub set_on_input_event : Bool → VirtualInput → VirtualInput
  set_on_input_event callback w = record w { on_input_event = callback }

  -- A call, and the `Frame` that ends it; `Frame` is not reached where the call fails.
  abbrev pub framed : Pointer × Bool → Pointer × Option Error
  framed (p, false) = (p, some injection_failed)
  framed (p, true) = let (q, ok) = W.frame p in if ok then (q, none) else (q, some frame_failed)

  -- What an injection does with the pointer, which has to be there.
  abbrev pub with_pointer :
      Option Pointer
      → (Pointer → Pointer × Option Error)
      → VirtualInput
      → VirtualInput × Option Error
  with_pointer none f w = (w, some not_available)
  with_pointer (some p) f w =
      let (q, e) = f p in
      if w.capturing then (record w { virtual_ptr = some q }, e) else (w, some not_available)

  unfoldable pub inject_mouse_move :
      float.Value → float.Value → VirtualInput → VirtualInput × Option Error
  inject_mouse_move dx dy w = with_pointer w.virtual_ptr (λ p. framed (W.motion dx dy p)) w

  unfoldable pub inject_mouse_position : ℕ → ℕ → VirtualInput → VirtualInput × Option Error
  inject_mouse_position x y w =
      with_pointer w.virtual_ptr (λ p. framed (W.motion_absolute x y 1920 1080 p)) w

  -- The `switch` of `InjectMouseButton`; none is an unsupported number.
  unfoldable pub linux_button : ℕ → Option ℕ
  linux_button button =
      if button == 1
      then some W.btn_left
      else if button == 2
      then some W.btn_right
      else if button == 3
      then some W.btn_middle
      else if button == 4
      then some W.btn_side
      else if button == 5
      then some W.btn_extra
      else none

  abbrev pub press : ℕ → Option ℕ → Bool → Pointer → Pointer × Option Error
  press button none pressed p = (p, some (unsupported_button button))
  press button (some code) pressed p = framed (W.button code pressed p)

  unfoldable pub inject_mouse_button : ℕ → Bool → VirtualInput → VirtualInput × Option Error
  unfolding linux_button
  inject_mouse_button button pressed w =
      with_pointer w.virtual_ptr (press button (linux_button button) pressed) w
