-- ===== src/Ipc/Messages.antt =====
-- internal/ipc/protocol.go, and the messages of internal/proto/mouse.proto that it builds. `X` is
-- the text of a handler's error; the texts that internal/ipc makes are told apart by constructors.
use waymon.Common.{String, Bool, true, false, Option, none, some, [], ◌∷◌}
use waymon.Common.Int.{pos}
use waymon.Manager.Rotation.{SwitchAction, next, enable, disable}
use waymon.Input.Switch.{Status}

pub data MessageType : Type 0 where
  type_unspecified type_switch type_status type_status_response type_error : MessageType

pub record SwitchCommand : Type 0 where
  pub enable : Option Bool
  pub action : SwitchAction

pub data ErrorText (X : Type 0) : Type 0 where
  handler_error : X → ErrorText X
  invalid_switch_command invalid_status_query : ErrorText X
  unknown_message_type : MessageType → ErrorText X

-- The `oneof payload`.
pub data Payload (X : Type 0) : Type 0 where
  switch_command : SwitchCommand → Payload X
  status_query : Payload X
  status_response : Status → Payload X
  error_response : ErrorText X → Payload X
  no_payload : Payload X

-- `IPCMessage`
pub record Message (X : Type 0) : Type 0 where
  pub type : MessageType
  pub payload : Payload X

abbrev pub legacy_command : Option Bool → SwitchCommand
legacy_command none = record { enable = none; action = next }
legacy_command (some true) = record { enable = some true; action = enable }
legacy_command (some false) = record { enable = some false; action = disable }

module _ {X : Type 0} where
  unfoldable pub new_switch_message : SwitchAction → Message X
  new_switch_message action = record {
    type = type_switch;
    payload = switch_command (record { enable = none; action = action });
  }

  unfoldable pub new_switch_message_legacy : Option Bool → Message X
  new_switch_message_legacy on = record {
    type = type_switch;
    payload = switch_command (legacy_command on);
  }

  unfoldable pub new_status_message : Message X
  new_status_message = record { type = type_status; payload = status_query }

  unfoldable pub new_status_response_message : Status → Message X
  new_status_response_message s = record {
    type = type_status_response;
    payload = status_response s;
  }

  unfoldable pub new_status_response_message_legacy : Bool → Bool → String → Message X
  unfolding new_status_response_message
  new_status_response_message_legacy active connected host = new_status_response_message (record {
    active = active;
    connected = connected;
    server_host = host;
    current_computer = pos 0;
    total_computers = pos 1;
    computer_names = "server" ∷ [];
  })

  unfoldable pub new_error_message : ErrorText X → Message X
  new_error_message e = record { type = type_error; payload = error_response e }

  -- The getters; none is an error.
  unfoldable pub get_switch_command : Message X → Option SwitchCommand
  get_switch_command m = elim m.type [
    | type_switch ↦ elim m.payload [ switch_command c ↦ some c | _ ↦ none ]
    | _ ↦ none
  ]

  -- The query has no fields.
  unfoldable pub is_status_query : Message X → Bool
  is_status_query m = elim m.type [
    | type_status ↦ elim m.payload [ status_query ↦ true | _ ↦ false ]
    | _ ↦ false
  ]

  unfoldable pub get_status_response : Message X → Option Status
  get_status_response m = elim m.type [
    | type_status_response ↦ elim m.payload [ status_response s ↦ some s | _ ↦ none ]
    | _ ↦ none
  ]

  unfoldable pub get_error_response : Message X → Option (ErrorText X)
  get_error_response m = elim m.type [
    | type_error ↦ elim m.payload [ error_response e ↦ some e | _ ↦ none ]
    | _ ↦ none
  ]
