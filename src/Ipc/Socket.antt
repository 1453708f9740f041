-- ===== src/Ipc/Socket.antt =====
-- internal/ipc/socket.go: a connection of the socket server. A connection is the bytes that are
-- still to come, and those written so far; each write succeeds. The frame of a message is that of
-- internal/network: the length as four bytes, the most significant first, here without a limit.
use waymon.Common.{◌≡◌, ℕ, zero, suc, Option, none, some, List, [], ◌++◌, length, if◌then◌else◌}
use waymon.Network.Frame.{length_prefix, decode_length, read_full}
use waymon.Ipc.Messages.{
  Message, SwitchCommand, type_switch, type_status, invalid_switch_command, invalid_status_query,
  unknown_message_type, handler_error, new_error_message, get_switch_command, is_status_query,
}

-- `proto.Marshal` and `proto.Unmarshal` for `IPCMessage`.
pub record Codec (X : Type 0) : Type 0 where
  pub marshal : Message X → Option (List ℕ)
  pub unmarshal : List ℕ → Option (Message X)

pub record IsCodec {X : Type 0} (C : Codec X) : Type 0 where
  pub unmarshal-marshal :
      (m : Message X) (bs : List ℕ) → C.marshal m ≡ some bs → C.unmarshal bs ≡ some m

-- What a handler returns: a message, an `error`, or a panic, which ends the process.
pub data Answer (X : Type 0) : Type 0 where
  replied : Message X → Answer X
  failed : X → Answer X
  panicked : Answer X

-- `MessageHandler`, the interface that the socket server calls.
pub record MessageHandler (X : Type 0) : Type 1 where
  pub State : Type 0
  pub handle_switch_command : SwitchCommand → State → State × Answer X
  pub handle_status_query : State → State × Answer X

abbrev pub framed : Option (List ℕ) → Option (List ℕ)
framed none = none
framed (some payload) = some (length_prefix (length payload) ++ payload)

abbrev pub with_rest : {X : Type 0} → List ℕ → Option (Message X) → Option (Message X × List ℕ)
with_rest rest none = none
with_rest rest (some m) = some (m, rest)

module _ {X : Type 0} (C : Codec X) where
  -- The bytes of a message, or none where it does not marshal.
  unfoldable pub write_message : Message X → Option (List ℕ)
  write_message m = framed (C.marshal m)

  abbrev pub unmarshal_data : Option (List ℕ × List ℕ) → Option (Message X × List ℕ)
  unmarshal_data none = none
  unmarshal_data (some (payload, rest)) = with_rest rest (C.unmarshal payload)

  abbrev pub read_data : Option (List ℕ × List ℕ) → Option (Message X × List ℕ)
  read_data none = none
  read_data (some (prefix, rest)) = unmarshal_data (read_full (decode_length prefix) rest)

  -- A message and the bytes after it, or none for an error.
  unfoldable pub read_message : List ℕ → Option (Message X × List ℕ)
  read_message stream = read_data (read_full 4 stream)

  module _ (H : MessageHandler X) where
    -- The response, or none after a panic.
    abbrev pub respond : H.State × Answer X → H.State × Option (Message X)
    respond (s, replied m) = (s, some m)
    respond (s, failed e) = (s, some (new_error_message (handler_error e)))
    respond (s, panicked) = (s, none)

    abbrev pub switch_with : Option SwitchCommand → H.State → H.State × Option (Message X)
    switch_with none s = (s, some (new_error_message invalid_switch_command))
    switch_with (some command) s = respond (H.handle_switch_command command s)

    unfoldable pub handle_message : Message X → H.State → H.State × Option (Message X)
    handle_message m s = elim m.type [
      | type_switch ↦ switch_with (get_switch_command m) s
      | type_status ↦
          if is_status_query m
          then respond (H.handle_status_query s)
          else (s, some (new_error_message invalid_status_query))
      | t ↦ (s, some (new_error_message (unknown_message_type t)))
    ]

    -- What is left of a connection: the state, and the bytes written in answer.
    pub record Served : Type 0 where
      pub state : H.State
      pub written : List ℕ

    abbrev pub after_writing : List ℕ → Served → Served
    after_writing bytes s = record s { written = bytes ++ s.written }

    -- The response is written, and the connection goes on; or it ends.
    abbrev pub write_response : (H.State → Served) → H.State × Option (List ℕ) → Served
    write_response next (s, none) = record { state = s; written = [] }
    write_response next (s, some bytes) = after_writing bytes (next s)

    abbrev pub marshalled : H.State × Option (Message X) → H.State × Option (List ℕ)
    marshalled (s, none) = (s, none)
    marshalled (s, some m) = (s, write_message m)

    -- The loop of `handleConnection`, on fuel: each turn that goes on takes at least four bytes.
    abbrev pub serve_next :
        (List ℕ → H.State → Served) → Option (Message X × List ℕ) → H.State → Served
    serve_next loop none s = record { state = s; written = [] }
    serve_next loop (some (m, rest)) s =
        write_response (loop rest) (marshalled (handle_message m s))

    unfoldable pub serve : ℕ → List ℕ → H.State → Served
    serve zero stream s = record { state = s; written = [] }
    serve (suc fuel) stream s = serve_next (serve fuel) (read_message stream) s

    unfoldable pub handle_connection : List ℕ → H.State → Served
    unfolding serve
    handle_connection stream s = serve (length stream) stream s
