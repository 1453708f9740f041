-- ===== src/Ipc/Client.antt =====
-- internal/ipc/client.go: a command, and what its sender makes of the answer. `peer` is the other
-- end of the connection: what it becomes, and writes, for the bytes that it is sent.
use waymon.Common.{Bool, true, false, ℕ, ◌⊎◌, inl, inr, Option, none, some, List, if◌then◌else◌}
use waymon.Manager.Rotation.{SwitchAction, next, previous}
use waymon.Input.Switch.{Status}
use waymon.Ipc.Messages.{
  Message, ErrorText, MessageType, type_status_response, type_error, new_switch_message,
  new_switch_message_legacy, new_status_message, get_status_response, get_error_response,
}
use waymon.Ipc.Socket.{Codec, write_message, read_message}

pub data ClientError (X : Type 0) : Type 0 where
  not_running send_failed read_failed invalid_payload : ClientError X
  server_error : ErrorText X → ClientError X
  unexpected_type : MessageType → ClientError X

-- What a call ends with; an error message without its payload is a nil dereference.
pub data Result (X : Type 0) : Type 0 where
  status : Status → Result X
  failed : ClientError X → Result X
  crashes : Result X

module _ {X : Type 0} where
  abbrev pub received : Option (Message X × List ℕ) → Message X ⊎ ClientError X
  received none = inr read_failed
  received (some (m, rest)) = inl m

  abbrev pub status_result : Option Status → Result X
  status_result none = failed invalid_payload
  status_result (some s) = status s

  abbrev pub error_result : Option (ErrorText X) → Result X
  error_result none = crashes
  error_result (some e) = failed (server_error e)

  -- "no error"
  abbrev pub is_status : Result X → Bool
  is_status (status s) = true
  is_status (failed e) = false
  is_status crashes = false

module _ {X : Type 0} (C : Codec X) {S : Type 0} where
  abbrev pub reply :
      (List ℕ → S → S × List ℕ) → Option (List ℕ) → S → S × (Message X ⊎ ClientError X)
  reply peer none s = (s, inr send_failed)
  reply peer (some bytes) s =
      let (s', answer) = peer bytes s in (s', received (read_message C answer))

  -- `sendMessage`; `connected` is whether the dial succeeded.
  unfoldable pub send_message :
      Bool → (List ℕ → S → S × List ℕ) → Message X → S → S × (Message X ⊎ ClientError X)
  send_message connected peer m s =
      if connected then reply peer (write_message C m) s else (s, inr not_running)

  -- The `switch response.Type` that the three calls share.
  abbrev pub result : S × (Message X ⊎ ClientError X) → S × Result X
  result (s, inr e) = (s, failed e)
  result (s, inl m) = (
    s,
    elim m.type [
      | type_status_response ↦ status_result (get_status_response m)
      | type_error ↦ error_result (get_error_response m)
      | t ↦ failed (unexpected_type t)
    ],
  )

  unfoldable pub send_switch : Bool → (List ℕ → S → S × List ℕ) → SwitchAction → S → S × Result X
  send_switch connected peer action s =
      result (send_message connected peer (new_switch_message action) s)

  unfoldable pub send_switch_next : Bool → (List ℕ → S → S × List ℕ) → S → S × Result X
  send_switch_next connected peer s = send_switch connected peer next s

  unfoldable pub send_switch_previous : Bool → (List ℕ → S → S × List ℕ) → S → S × Result X
  send_switch_previous connected peer s = send_switch connected peer previous s

  unfoldable pub send_switch_legacy :
      Bool → (List ℕ → S → S × List ℕ) → Option Bool → S → S × Result X
  send_switch_legacy connected peer on s =
      result (send_message connected peer (new_switch_message_legacy on) s)

  unfoldable pub send_status : Bool → (List ℕ → S → S × List ℕ) → S → S × Result X
  send_status connected peer s = result (send_message connected peer new_status_message s)

  unfoldable pub is_waymon_running : Bool → (List ℕ → S → S × List ℕ) → S → S × Bool
  is_waymon_running connected peer s =
      let (s', r) = send_status connected peer s in (s', is_status r)
