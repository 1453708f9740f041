-- ===== src/Client/Control.antt =====
-- internal/client/receiver.go: the shutdown of the server, and input without control.
use waymon.Common.{
  ℕ, ◌≡◌, refl, ap, ◌∙◌, String, true, false, Option, if_elim, if-true, if-false, arith,
}
use waymon.Proto.{
  server_shutdown, ControlEvent, ClientConfig, Event, control, InputEvent, mouse_move, mouse_button,
  mouse_scroll, keyboard, mouse_position, unset,
}
use waymon.Client.Receiver.{
  Link, InputReceiver, Outcome, finished, blocked, and_then, notify_reconnect_status,
  handle_control_event, process_input_event, process_input, process_event, no_control, lock,
  shut_down, shutdown_detected, ReconnectStatus,
}

abbrev pub control_message : {V : Type 0} → ℕ → String → ControlEvent V → InputEvent V
control_message stamp source c = record { event = control c; timestamp = stamp; source_id = source }

and_then-blocked :
    {A : Type 0} (o : Outcome A) (a : A) (f : A → Outcome A)
    → o ≡ blocked a
    → and_then o f ≡ blocked a
and_then-blocked o a f h = ap (λ q. and_then q f) h

-- A message that is no control message.
abbrev pub IsInput : {V : Type 0} → Event V → Type 0
IsInput (control c) = ⊥
IsInput _ = Unit

module _ {L : Link} where
  -- The outcome is a wait for the lock that the same call holds.
  abbrev pub Deadlocks : (InputReceiver L → Type 0) → Outcome (InputReceiver L) → Type 0
  Deadlocks P (finished ir) = ⊥
  Deadlocks P (blocked ir) = (ir.locked ≡ true) × P ir

  -- The message is not processed, but waits.
  abbrev pub IsStuck : ℕ → InputEvent L.Value → InputReceiver L → Type 0
  IsStuck later next ir = process_input_event later next ir ≡ blocked ir

  stuck_on :
      (later : ℕ) (event : Event L.Value) (ir : InputReceiver L)
      → ir.locked ≡ true
      → process_event later event ir ≡ blocked ir
  unfolding handle_control_event
  stuck_on later (control c) ir h = and_then-blocked (lock ir) ir _ (if-true ir.locked _ _ h)
  stuck_on later (mouse_move dx dy) ir h = if-true ir.locked _ _ h
  stuck_on later (mouse_button button pressed) ir h = if-true ir.locked _ _ h
  stuck_on later (mouse_scroll dx dy) ir h = if-true ir.locked _ _ h
  stuck_on later (keyboard key pressed) ir h = if-true ir.locked _ _ h
  stuck_on later (mouse_position x y) ir h = if-true ir.locked _ _ h
  stuck_on later unset ir h = if-true ir.locked _ _ h

  -- What the lock protects when `notifyReconnectStatus` asks for it again.
  abbrev IsLost : ℕ → InputEvent L.Value → InputReceiver L → Type 0
  IsLost later next after =
      (after.connected ≡ false) × (after.control_status ≡ no_control) × IsStuck later next after

  abbrev DeadlocksThen :
      ℕ
      → InputEvent L.Value
      → (InputReceiver L → Outcome (InputReceiver L))
      → Outcome (InputReceiver L)
      → Type 0
  DeadlocksThen later next f o = Deadlocks (IsLost later next) (and_then o f)

  notify_deadlocks :
      (later : ℕ) (next : InputEvent L.Value) (status : ReconnectStatus) (ir : InputReceiver L)
      (f : InputReceiver L → Outcome (InputReceiver L))
      → ir.locked ≡ true
      → ir.connected ≡ false
      → ir.control_status ≡ no_control
      → DeadlocksThen later next f (notify_reconnect_status status ir)
  unfolding notify_reconnect_status process_input_event
  notify_deadlocks later next status ir f h c s =
      if_elim (DeadlocksThen later next f) ir.locked
        (λ _. (h, (c, s, stuck_on later next.event ir h))) (λ e. absurd (ground (arith, e, h)))

  shut_down_deadlocks :
      (later : ℕ) (next : InputEvent L.Value) (ir : InputReceiver L)
      (f : InputReceiver L → Outcome (InputReceiver L))
      → ir.locked ≡ true
      → DeadlocksThen later next f (shut_down ir)
  shut_down_deadlocks later next ir f h =
      if_elim
        (λ (dropped : InputReceiver L).
          DeadlocksThen later next f (notify_reconnect_status shutdown_detected dropped))
        ir.ssh_connection (λ _. notify_deadlocks later next shutdown_detected _ f h refl refl)
        (λ _. notify_deadlocks later next shutdown_detected _ f h refl refl)

  pub after_lock :
      (P : Outcome (InputReceiver L) → Type 0) (ir : InputReceiver L)
      (f : InputReceiver L → Outcome (InputReceiver L))
      → ir.locked ≡ false
      → P (f (record ir { locked = true }))
      → P (and_then (lock ir) f)
  after_lock P ir f free h =
      if_elim (λ (o : Outcome (InputReceiver L)). P (and_then o f)) ir.locked
        (λ e. absurd (ground (arith, e, free))) (λ _. h)

  -- The message that a server which shuts down sends blocks the receiver while it holds its lock,
  -- disconnected and no longer controlled; and whatever message comes later waits as well.
  pub server_shutdown-Deadlocks :
      (now stamp : ℕ) (source target : String) (config : Option (ClientConfig L.Value))
      (ir : InputReceiver L) (later : ℕ) (next : InputEvent L.Value)
      → ir.locked ≡ false
      → Deadlocks
          (λ (after : InputReceiver L).
            (after.connected ≡ false)
            × (after.control_status ≡ no_control)
            × IsStuck later next after)
          (process_input_event now
            (control_message stamp source
              (record { type = server_shutdown; target_id = target; config = config }))
            ir)
  unfolding process_input_event handle_control_event notify_reconnect_status
  server_shutdown-Deadlocks now stamp source target config ir later next free =
      after_lock (Deadlocks (IsLost later next)) ir _ free
        (shut_down_deadlocks later next (record ir { locked = true }) _ refl)

  ignored :
      (event : Event L.Value) (ir : InputReceiver L)
      → ir.locked ≡ false
      → ir.control_status.being_controlled ≡ false
      → process_input event ir ≡ finished ir
  ignored event ir free h = if-false ir.locked _ _ free ∙ if-false _ _ _ h

  ignored_event :
      (now : ℕ) (event : Event L.Value) (ir : InputReceiver L)
      → IsInput event
      → ir.locked ≡ false
      → ir.control_status.being_controlled ≡ false
      → process_event now event ir ≡ finished ir
  ignored_event now (control c) ir i free h = absurd i
  ignored_event now (mouse_move dx dy) ir i free h = ignored (mouse_move dx dy) ir free h
  ignored_event now (mouse_button button pressed) ir i free h =
      ignored (mouse_button button pressed) ir free h
  ignored_event now (mouse_scroll dx dy) ir i free h = ignored (mouse_scroll dx dy) ir free h
  ignored_event now (keyboard key pressed) ir i free h = ignored (keyboard key pressed) ir free h
  ignored_event now (mouse_position x y) ir i free h = ignored (mouse_position x y) ir free h
  ignored_event now unset ir i free h = ignored unset ir free h

  -- While the client is not controlled, a message that is no control message returns and changes
  -- nothing: no input is injected.
  process_input_event_ignores :
      (now : ℕ) (event : InputEvent L.Value) (ir : InputReceiver L)
      → IsInput event.event
      → ir.locked ≡ false
      → ir.control_status.being_controlled ≡ false
      → process_input_event now event ir ≡ finished ir
  unfolding process_input_event
  process_input_event_ignores now event ir i free h = ignored_event now event.event ir i free h
