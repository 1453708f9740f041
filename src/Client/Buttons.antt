-- ===== src/Client/Buttons.antt =====
-- internal/input: a mouse button from the capture of the server to the virtual pointer of the
-- client, through the receiver.
use waymon.Common.{
  ℕ, ◌≡◌, refl, ap, ◌∙◌, Bool, true, false, Option, none, some, arith, if◌then◌else◌, if-true,
  if-false, leb, String,
}
use waymon.Proto.{mouse_button}
use waymon.Capture.State.{Evdev}
use waymon.Capture.Events.{button_number}
use waymon.Capture.Keys.{HasLinuxButtons}
use waymon.Client.Receiver.{InputReceiver, finished, process_input_event}
use waymon.Client.VirtualInput.{
  Wayland, Error, VirtualInput, linux_button, press, with_pointer, inject_mouse_button,
}
use waymon.Client.Injection.{wayland_link, succeeded}

-- The evdev and the Wayland library name the kernel's codes.
pub record HasSameButtons (E : Evdev) (W : Wayland) : Type 0 where
  pub left : W.btn_left ≡ E.btn_left
  pub right : W.btn_right ≡ E.btn_right
  pub middle : W.btn_middle ≡ E.btn_middle
  pub side : W.btn_side ≡ E.btn_side
  pub extra : W.btn_extra ≡ E.btn_extra

module _ (E : Evdev) (W : Wayland) (linux : HasLinuxButtons E) (same : HasSameButtons E W) where
  -- The client turns the number back into the code, up to the extra button.
  linux_button-button_number :
      (code n : ℕ)
      → button_number E code ≡ some n
      → linux_button W n ≡ (if leb code E.btn_extra then some code else none)
  unfolding button_number linux_button
  linux_button-button_number code n h = ground (
    arith, h, linux.right, linux.middle, linux.side, linux.extra, linux.task, same.left, same.right,
    same.middle, same.side, same.extra,
  )

  -- An injection with a pointer on a started backend.
  inject_mouse_button-pointer :
      (code n : ℕ) (pressed : Bool) (w : VirtualInput W) (p : W.Pointer)
      → button_number E code ≡ some n
      → w.capturing ≡ true
      → w.virtual_ptr ≡ some p
      → (succeeded W (inject_mouse_button W n pressed w)).0 ≡ record w {
        virtual_ptr =
            some (press W n (if leb code E.btn_extra then some code else none) pressed p).0;
      }
  unfolding inject_mouse_button
  inject_mouse_button-pointer code n pressed w p h started there =
      ap (λ o. (succeeded W (with_pointer W o (press W n (linux_button W n) pressed) w)).0) there
      ∙ (ap (λ (r : VirtualInput W × Option Error). (succeeded W r).0) (if-true _ _ _ started)
          ∙ (succeeded_state _
              ∙ ap (λ o. record w { virtual_ptr = some (press W n o pressed p).0 })
                  (linux_button-button_number code n h)))
    where
      succeeded_state : (r : VirtualInput W × Option Error) → (succeeded W r).0 ≡ r.0
      succeeded_state (v, none) = refl
      succeeded_state (v, some e) = refl

  -- A button that the server captures and numbers is handed to the virtual pointer of a controlled
  -- client under the code that it was captured with, from the left to the extra button. The client
  -- refuses the numbers of the buttons after these, which the server sends all the same.
  pub button_arrives :
      (N : Type 0) (disconnect : N → N) (now time code n : ℕ) (source : String) (pressed : Bool)
      (ir : InputReceiver (wayland_link W N disconnect)) (p : W.Pointer)
      → button_number E code ≡ some n
      → ir.locked ≡ false
      → ir.control_status.being_controlled ≡ true
      → ir.input_backend.capturing ≡ true
      → ir.input_backend.virtual_ptr ≡ some p
      → process_input_event now
          (record { event = mouse_button n pressed; timestamp = time; source_id = source })
          ir
        ≡ finished (record ir {
          input_backend = record ir.input_backend {
            virtual_ptr =
                some (press W n (if leb code E.btn_extra then some code else none) pressed p).0;
          };
        })
  unfolding process_input_event
  button_arrives N disconnect now time code n source pressed ir p h free controlled started there =
      if-false _ _ _ free
      ∙ (if-true _ _ _ controlled
          ∙ ap (λ (w : VirtualInput W). finished (record ir { input_backend = w }))
              (inject_mouse_button-pointer code n pressed ir.input_backend p h started there))
