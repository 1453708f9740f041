-- ===== src/Client/Messages.antt =====
-- internal/client/receiver.go: who controls the client after control messages.
use waymon.Common.{
  ℕ, ◌≡◌, refl, ap, ◌∙◌, String, Bool, true, false, Option, none, some, List, [], ◌∷◌, All, subst,
  if_elim,
}
use waymon.Proto.{
  ControlType, switch_to_local, switch_to_client, request_control, release_control,
  client_list_request, client_list_response, client_config, server_shutdown, ControlEvent,
}
use waymon.Client.Receiver.{
  Link, InputReceiver, Outcome, finished, blocked, and_then, handle_control_event, switch_control,
  unlock, notify_status,
}
use waymon.Client.Control.{after_lock}

-- The kinds of control messages that do not end the connection.
abbrev pub IsOrdinary : ControlType → Type 0
IsOrdinary server_shutdown = ⊥
IsOrdinary _ = Unit

-- What a message says of the control: who takes it, that nobody has it, or nothing.
abbrev pub said : ControlType → String → Option (Option String)
said request_control target = some (some target)
said release_control target = some none
said switch_to_local target = some none
said _ target = none

abbrev pub later_or_earlier :
    Option (Option String) → Option (Option String) → Option (Option String)
later_or_earlier none earlier = earlier
later_or_earlier (some word) earlier = some word

-- The last word of the messages.
unfoldable pub last_said : {V : Type 0} → List (ℕ × ControlEvent V) → Option (Option String)
last_said [] = none
last_said ((now, c) ∷ messages) = later_or_earlier (last_said messages) (said c.type c.target_id)

-- Whether there is control, and whose, after a word.
abbrev pub told : Option (Option String) → Bool × String → Bool × String
told none before = before
told (some none) before = (false, "")
told (some (some name)) before = (true, name)

told-later_or_earlier :
    (later earlier : Option (Option String)) (before : Bool × String)
    → told later (told earlier before) ≡ told (later_or_earlier later earlier) before
told-later_or_earlier none earlier before = refl
told-later_or_earlier (some none) earlier before = refl
told-later_or_earlier (some (some name)) earlier before = refl

module _ {L : Link} where
  -- The outcome is a return with the lock free, whose state has the property.
  abbrev pub Returns : (InputReceiver L → Type 0) → Outcome (InputReceiver L) → Type 0
  Returns P (finished ir) = (ir.locked ≡ false) × P ir
  Returns P (blocked ir) = ⊥

  -- Who controls the client.
  abbrev pub controller : InputReceiver L → Bool × String
  controller ir = (ir.control_status.being_controlled, ir.control_status.controller_name)

  -- The messages are handled one after the other.
  unfoldable pub handle_all :
      List (ℕ × ControlEvent L.Value) → InputReceiver L → Outcome (InputReceiver L)
  handle_all [] ir = finished ir
  handle_all ((now, c) ∷ messages) ir =
      and_then (handle_control_event now c ir) (handle_all messages)

  abbrev Controlled : Bool × String → InputReceiver L → Type 0
  Controlled who ir = controller ir ≡ who

  finish :
      (who : Bool × String) (ir : InputReceiver L)
      → Controlled who ir
      → Returns (Controlled who) (finished (unlock (notify_status ir)))
  finish who ir h =
      if_elim (λ (r : InputReceiver L). Returns (Controlled who) (finished (unlock r)))
        ir.on_status_change (λ _. (refl, h)) (λ _. (refl, h))

  switched :
      (now : ℕ) (type : ControlType) (target : String) (ir : InputReceiver L)
      → IsOrdinary type
      → Returns
          (Controlled (told (said type target) (controller ir)))
          (and_then (switch_control now type target ir) (λ r. finished (unlock (notify_status r))))
  switched now request_control target ir o = finish (true, target) _ refl
  switched now release_control target ir o = finish (false, "") _ refl
  switched now switch_to_local target ir o = finish (false, "") _ refl
  switched now server_shutdown target ir o = absurd o
  switched now switch_to_client target ir o = finish _ ir refl
  switched now client_list_request target ir o = finish _ ir refl
  switched now client_list_response target ir o = finish _ ir refl
  switched now client_config target ir o = finish _ ir refl

  handle_control_event-Returns :
      (now : ℕ) (c : ControlEvent L.Value) (ir : InputReceiver L)
      → IsOrdinary c.type
      → ir.locked ≡ false
      → Returns
          (Controlled (told (said c.type c.target_id) (controller ir)))
          (handle_control_event now c ir)
  unfolding handle_control_event
  handle_control_event-Returns now c ir o free =
      after_lock (Returns (Controlled (told (said c.type c.target_id) (controller ir)))) ir _ free
        (switched now c.type c.target_id (record ir { locked = true }) o)

  Returns-then :
      (who after : Bool × String) (o : Outcome (InputReceiver L))
      (f : InputReceiver L → Outcome (InputReceiver L))
      → Returns (Controlled who) o
      → ((ir : InputReceiver L)
          → ir.locked ≡ false
          → controller ir ≡ who
          → Returns (Controlled after) (f ir))
      → Returns (Controlled after) (and_then o f)
  Returns-then who after (finished ir) f h next = next ir h.0 h.1
  Returns-then who after (blocked ir) f h next = absurd h

  -- Whatever control messages arrive one after the other, as long as none is that of the shutdown,
  -- each returns, with the lock free. Afterwards the client is controlled by the server that the
  -- last request names, under this name, if no release and no switch to local follows it, and by
  -- nobody, under no name, if one does; without any of these it is as before.
  pub handle_all-Returns :
      (messages : List (ℕ × ControlEvent L.Value)) (ir : InputReceiver L)
      → All (λ m. IsOrdinary m.1.type) messages
      → ir.locked ≡ false
      → Returns
          (λ (after : InputReceiver L).
            controller after ≡ told (last_said messages) (controller ir))
          (handle_all messages ir)
  unfolding handle_all last_said
  handle_all-Returns [] ir ordinary free = (free, refl)
  handle_all-Returns ((now, c) ∷ messages) ir (o, ordinary) free =
      let first = said c.type c.target_id in
      Returns-then (told first (controller ir))
        (told (last_said ((now, c) ∷ messages)) (controller ir)) (handle_control_event now c ir)
        (handle_all messages) (handle_control_event-Returns now c ir o free)
        (λ next unlocked named.
          subst (λ who. Returns (Controlled who) (handle_all messages next))
            (ap (told (last_said messages)) named
              ∙ told-later_or_earlier (last_said messages) first (controller ir))
            (handle_all-Returns messages next ordinary unlocked))
