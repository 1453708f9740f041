-- ===== src/Examples/Commands.antt =====
-- internal/ipc: a command to a manager without clients, under a codec that knows two messages.
use waymon.Common.{
  ℕ, ◌≡◌, refl, String, Bool, true, false, Option, none, some, List, [], ◌∷◌, arith, if◌then◌else◌,
  str_eq, eq_iff, ◌&&◌, ◌==◌, not,
}
use waymon.Common.Int.{ℤ, pos, negsuc, int32}
use waymon.Common.Sort.{sort_strings}
use waymon.Float.{whole}
use waymon.Manager.State
use waymon.Manager.State.{Platform, ClientManager}
use waymon.Manager.Switch.{switch_to_local_internal, release_previous}
use waymon.Manager.Rotation
use waymon.Manager.Rotation.{SwitchAction, next, previous, enable, disable, unspecified}
use waymon.Input.Switch.{Status}
use waymon.Network.Receive.{loop, server_turn, client_turn}
use waymon.Network.Frame
use waymon.Ipc.Messages.{
  Message, MessageType, Payload, type_unspecified, type_switch, type_status, type_status_response,
  type_error, switch_command, status_query, status_response, error_response, no_payload,
  new_switch_message, new_status_response_message,
}
use waymon.Ipc.Socket.{Codec, IsCodec, serve}
use waymon.Ipc.Client.{send_switch}
use waymon.Ipc.Handlers.{manager_handler}
use waymon.Ipc.Exchange.{peer, told, send_switch-told}
use waymon.Ipc.Termination.{Serves, loops_end}
use waymon.Network.Loop.{Runs}

abbrev quiet : Platform
quiet = record {
  float = whole;
  Backend = String;
  set_target = λ id b. (id, true);
  Ssh = Unit;
  send_event_to_client = λ id e s. (s, true);
  hostname = none;
}

abbrev alone : Status
alone = record {
  active = false;
  connected = true;
  server_host = "localhost";
  current_computer = pos 0;
  total_computers = pos 1;
  computer_names = "server" ∷ [];
}

-- "next" is sent as a 1, and the status of a server without clients as a 2.
abbrev command_bytes : Option Bool → SwitchAction → Option (List ℕ)
command_bytes none next = some (1 ∷ [])
command_bytes none previous = none
command_bytes none enable = none
command_bytes none disable = none
command_bytes none unspecified = none
command_bytes (some on) action = none

abbrev names_match : List String → Bool
names_match [] = false
names_match (n ∷ []) = str_eq n "server"
names_match (n ∷ m ∷ ns) = false

abbrev number_is : ℕ → ℤ → Bool
number_is n (pos k) = k == n
number_is n (negsuc k) = false

abbrev status_bytes : Status → Option (List ℕ)
status_bytes s =
    if not s.active
      && (s.connected
          && (str_eq s.server_host "localhost"
              && (number_is 0 s.current_computer
                  && (number_is 1 s.total_computers && names_match s.computer_names))))
    then some (2 ∷ [])
    else none

abbrev switch_bytes : Payload State.Error → Option (List ℕ)
switch_bytes (switch_command c) = command_bytes c.enable c.action
switch_bytes status_query = none
switch_bytes (status_response s) = none
switch_bytes (error_response e) = none
switch_bytes no_payload = none

abbrev response_bytes : Payload State.Error → Option (List ℕ)
response_bytes (switch_command c) = none
response_bytes status_query = none
response_bytes (status_response s) = status_bytes s
response_bytes (error_response e) = none
response_bytes no_payload = none

abbrev to_bytes : MessageType → Payload State.Error → Option (List ℕ)
to_bytes type_unspecified p = none
to_bytes type_switch p = switch_bytes p
to_bytes type_status p = none
to_bytes type_status_response p = response_bytes p
to_bytes type_error p = none

abbrev next_message : Message State.Error
next_message = record {
  type = type_switch;
  payload = switch_command (record { enable = none; action = next });
}

abbrev alone_message : Message State.Error
alone_message = record { type = type_status_response; payload = status_response alone }

abbrev from_bytes : List ℕ → Option (Message State.Error)
from_bytes [] = none
from_bytes (b ∷ []) = if b == 1 then some next_message else some alone_message
from_bytes (b ∷ c ∷ bs) = none

abbrev codec : Codec State.Error
codec = record { marshal = λ m. to_bytes m.type m.payload; unmarshal = from_bytes }

command_round :
    (on : Option Bool) (action : SwitchAction) (bs : List ℕ)
    → command_bytes on action ≡ some bs
    → from_bytes bs
      ≡ some (record {
        type = type_switch;
        payload = switch_command (record { enable = on; action = action });
      })
command_round none next bs h = ground (arith, h)
command_round none previous bs h = ground (arith, h)
command_round none enable bs h = ground (arith, h)
command_round none disable bs h = ground (arith, h)
command_round none unspecified bs h = ground (arith, h)
command_round (some on) action bs h = ground (arith, h)

names_round : (ns : List String) → names_match ns ≡ true → ns ≡ "server" ∷ []
names_round [] h = ground (arith, h)
names_round (n ∷ []) h = ground (arith, h, eq_iff n "server")
names_round (n ∷ m ∷ ns) h = ground (arith, h)

status_round :
    (s : Status) (bs : List ℕ)
    → status_bytes s ≡ some bs
    → from_bytes bs ≡ some (record { type = type_status_response; payload = status_response s })
status_round s bs h =
    ground (arith, h, eq_iff s.server_host "localhost", names_round s.computer_names)

switch_round :
    (p : Payload State.Error) (bs : List ℕ)
    → switch_bytes p ≡ some bs
    → from_bytes bs ≡ some (record { type = type_switch; payload = p })
switch_round (switch_command c) bs h = command_round c.enable c.action bs h
switch_round status_query bs h = ground (arith, h)
switch_round (status_response s) bs h = ground (arith, h)
switch_round (error_response e) bs h = ground (arith, h)
switch_round no_payload bs h = ground (arith, h)

response_round :
    (p : Payload State.Error) (bs : List ℕ)
    → response_bytes p ≡ some bs
    → from_bytes bs ≡ some (record { type = type_status_response; payload = p })
response_round (switch_command c) bs h = ground (arith, h)
response_round status_query bs h = ground (arith, h)
response_round (status_response s) bs h = status_round s bs h
response_round (error_response e) bs h = ground (arith, h)
response_round no_payload bs h = ground (arith, h)

round :
    (t : MessageType) (p : Payload State.Error) (bs : List ℕ)
    → to_bytes t p ≡ some bs
    → from_bytes bs ≡ some (record { type = t; payload = p })
round type_unspecified p bs h = ground (arith, h)
round type_switch p bs h = switch_round p bs h
round type_status p bs h = ground (arith, h)
round type_status_response p bs h = response_round p bs h
round type_error p bs h = ground (arith, h)

codec-IsCodec : IsCodec codec
codec-IsCodec = record { unmarshal-marshal = λ m bs h. round m.type m.payload bs h }

abbrev idle : ClientManager quiet
idle = State.initial quiet ""

send_switch-told_example :
    send_switch codec true (peer codec codec-IsCodec (manager_handler quiet 7)) next idle
    ≡ told (Rotation.handle_switch_command quiet 7 next idle)
unfolding Rotation.handle_switch_command new_switch_message Rotation.switch_to_next_client_or_local
    Rotation.sorted_ids sort_strings State.initial switch_to_local_internal
    new_status_response_message Rotation.handle_status_query State.notify release_previous int32
    Rotation.current_index Rotation.computer_names
send_switch-told_example =
    send_switch-told quiet codec codec-IsCodec 7 next idle (1 ∷ []) (2 ∷ []) (refl, omega arith)
      (refl, omega arith)

abbrev no_codec : Frame.Codec Unit
no_codec = record { marshal = λ e. none; unmarshal = λ bs. none }

loops_end_example :
    Runs (server_turn no_codec) (0 ∷ 0 ∷ 0 ∷ []) (loop (server_turn no_codec) 9 (0 ∷ 0 ∷ 0 ∷ []))
    × Runs (client_turn no_codec) (0 ∷ 0 ∷ 0 ∷ []) (loop (client_turn no_codec) 9 (0 ∷ 0 ∷ 0 ∷ []))
    × Serves codec
        (manager_handler quiet 7)
        (0 ∷ 0 ∷ 0 ∷ [])
        idle
        (serve codec (manager_handler quiet 7) 9 (0 ∷ 0 ∷ 0 ∷ []) idle)
loops_end_example =
    loops_end no_codec codec (manager_handler quiet 7) idle 9 (0 ∷ 0 ∷ 0 ∷ []) (omega arith)
