-- ===== src/Network/RoundTrip.antt =====
-- internal/network: what one side writes, the other reads.
use waymon.Common.{
  ℕ, ◌<◌, ◌≤◌, ◌^◌, ◌≡◌, refl, true, false, Option, none, some, List, [], ◌∷◌, ◌++◌, arith, length,
  ap, sym, ◌∙◌, All, ◌⊎◌,
}
use mathlib.Core.List.{append_assoc, append-nil}
use waymon.Proto.{InputEvent}
use waymon.Network.Frame.{
  write_input_event, write_marshalled, flush_written, Codec, IsCodec, Writer, length_prefix,
  decode_length, read_full, write_input_message,
}
use waymon.Network.Receive.{
  Turn, ends, turns, Received, deliver, loop, server_turn, client_turn, is_invalid_length,
  max_message, handle_mouse_events, receive_input_events,
}
use waymon.Network.Progress.{read_full-append, server_turn-TakesBytes, client_turn-TakesBytes}
use waymon.Network.Loop.{TakesBytes, loop_turn, loop_ends, loop-[]}

pub decode_length-length_prefix : (n : ℕ) → n < 2 ^ 32 → decode_length (length_prefix n) ≡ n
unfolding decode_length length_prefix
decode_length-length_prefix n h = omega (arith, h)

length-length_prefix : (n : ℕ) → length (length_prefix n) ≡ 4
unfolding length_prefix
length-length_prefix n = refl

-- The bytes of a frame.
abbrev pub frame : List ℕ → List ℕ
frame payload = length_prefix (length payload) ++ payload

valid : (n : ℕ) → 0 < n → n ≤ max_message → is_invalid_length n ≡ false
valid n h k = ground arith

pub read_prefix :
    (payload rest : List ℕ)
    → read_full 4 (length_prefix (length payload) ++ (payload ++ rest))
      ≡ some (length_prefix (length payload), payload ++ rest)
unfolding length_prefix
read_prefix payload rest = read_full-append (length_prefix (length payload)) (payload ++ rest)

module _ {V : Type 0} (C : Codec V) where
  -- A turn that reads a frame of a legal length hands on what it unmarshals to.
  abbrev pub ReadsFrames : (List ℕ → Turn V) → Type 0
  ReadsFrames turn =
      (payload rest : List ℕ)
      → 0 < length payload
      → length payload ≤ max_message
      → turn (length_prefix (length payload) ++ (payload ++ rest))
        ≡ turns (C.unmarshal payload) rest

  server_turn-ReadsFrames : ReadsFrames (server_turn C)
  unfolding server_turn
  server_turn-ReadsFrames payload rest h k =
      rw
        (
          read_prefix payload rest,
          decode_length-length_prefix (length payload) (omega (arith, k)),
          valid (length payload) h k,
          read_full-append payload rest,
        )
        refl

  client_turn-ReadsFrames : ReadsFrames (client_turn C)
  unfolding client_turn
  client_turn-ReadsFrames payload rest h k =
      rw
        (
          read_prefix payload rest,
          decode_length-length_prefix (length payload) (omega (arith, k)),
          valid (length payload) h k,
          read_full-append payload rest,
        )
        refl

-- A writer that keeps the bytes: what a connection delivers.
abbrev pub buffer : Writer
buffer = record { State = List ℕ; write = λ bs w. (w ++ bs, true); flush = none }

module _ {V : Type 0} (C : Codec V) where
  -- A message that the receiver's limit lets through.
  abbrev pub IsSendable : InputEvent V → Type 0
  IsSendable e =
      (payload : List ℕ) × (C.marshal e ≡ some payload)
      × (0 < length payload)
      × (length payload ≤ max_message)

  -- One message after the other through `write_input_message`, and `write_input_event`.
  abbrev pub client_sends : List (InputEvent V) → List ℕ → List ℕ
  client_sends [] w = w
  client_sends (e ∷ es) w = client_sends es (write_input_message C buffer e w).0

  abbrev pub server_sends : List (InputEvent V) → List ℕ → List ℕ
  server_sends [] w = w
  server_sends (e ∷ es) w = server_sends es (write_input_event C buffer e w).0

  abbrev framed : Option (List ℕ) → List ℕ → List ℕ
  framed none rest = rest
  framed (some payload) rest = length_prefix (length payload) ++ (payload ++ rest)

  abbrev bytes : List (InputEvent V) → List ℕ
  bytes [] = []
  bytes (e ∷ es) = framed (C.marshal e) (bytes es)

  wrote :
      (o : Option (List ℕ)) (w rest : List ℕ)
      → (write_marshalled C buffer o w).0 ++ rest ≡ w ++ framed o rest
  wrote none w rest = refl
  wrote (some payload) w rest =
      append_assoc (w ++ length_prefix (length payload)) payload rest
      ∙ append_assoc w (length_prefix (length payload)) (payload ++ rest)

  wrote_flushed :
      (o : Option (List ℕ)) (w rest : List ℕ)
      → (flush_written C buffer (write_marshalled C buffer o w)).0 ++ rest ≡ w ++ framed o rest
  wrote_flushed none w rest = refl
  wrote_flushed (some payload) w rest = wrote (some payload) w rest

  client_bytes : (es : List (InputEvent V)) (w : List ℕ) → client_sends es w ≡ w ++ bytes es
  unfolding write_input_message
  client_bytes [] w = sym (append-nil w)
  client_bytes (e ∷ es) w =
      client_bytes es (write_input_message C buffer e w).0 ∙ wrote (C.marshal e) w (bytes es)

  server_bytes : (es : List (InputEvent V)) (w : List ℕ) → server_sends es w ≡ w ++ bytes es
  unfolding write_input_event
  server_bytes [] w = sym (append-nil w)
  server_bytes (e ∷ es) w =
      server_bytes es (write_input_event C buffer e w).0 ∙ wrote_flushed (C.marshal e) w (bytes es)

  -- The loop on the bytes of the messages.
  bytes_read :
      (turn : List ℕ → Turn V)
      → IsCodec C
      → TakesBytes turn
      → ReadsFrames C turn
      → (es : List (InputEvent V)) → All IsSendable es
      → loop turn (length (bytes es)) (bytes es) ≡ record { messages = es; refused = false }
  bytes_read turn codec takes reads [] a = loop-[] turn takes 0
  bytes_read turn codec takes reads (e ∷ es) ((payload, m, h, k), a) = rw m (
      loop_turn turn takes (framed (some payload) (bytes es)) e (bytes es) (
        reads payload (bytes es) h k
        ∙ ap (λ o. turns o (bytes es)) (codec.unmarshal-marshal e payload m))
      ∙ ap (deliver e) (bytes_read turn codec takes reads es a))

  -- The server's loop hands its callback exactly the messages that a client has written, in order,
  -- where each is marshalled to 1 to 4096 bytes, and unmarshalling undoes marshalling.
  pub handle_mouse_events-client_sends :
      IsCodec C
      → (es : List (InputEvent V)) → All IsSendable es
      → handle_mouse_events C (client_sends es []) ≡ es
  unfolding handle_mouse_events
  handle_mouse_events-client_sends codec es a = rw (client_bytes es []) (
      ap (λ (r : Received V). r.messages)
        (bytes_read (server_turn C) codec (server_turn-TakesBytes C) (server_turn-ReadsFrames C) es
          a))

  -- The client's loop hands its callback exactly the messages that the server has written, in
  -- order, and is not refused, where each is marshalled to 1 to 4096 bytes, and unmarshalling
  -- undoes marshalling.
  pub receive_input_events-server_sends :
      IsCodec C
      → (es : List (InputEvent V)) → All IsSendable es
      → receive_input_events C (server_sends es []) ≡ record { messages = es; refused = false }
  unfolding receive_input_events
  receive_input_events-server_sends codec es a =
      rw (server_bytes es []) (
        bytes_read (client_turn C) codec (client_turn-TakesBytes C) (client_turn-ReadsFrames C) es
          a)

  -- Nothing, or more than the limit: what the server does not read.
  abbrev pub IsRefused : InputEvent V → Type 0
  IsRefused e =
      (payload : List ℕ) × (C.marshal e ≡ some payload)
      × ((length payload ≡ 0) ⊎ (4096 < length payload))
      × (length payload < 2 ^ 32)

  refused_length : (n : ℕ) → (n ≡ 0) ⊎ (4096 < n) → is_invalid_length n ≡ true
  refused_length n h = ground (arith, h)

  turn_ends :
      (payload rest : List ℕ)
      → is_invalid_length (length payload) ≡ true
      → length payload < 2 ^ 32
      → server_turn C (framed (some payload) rest) ≡ ends
  unfolding server_turn
  turn_ends payload rest i h =
      rw (read_prefix payload rest, decode_length-length_prefix (length payload) h, i) refl

  -- The loop on the bytes of the messages up to the first that is refused.
  bytes_refused :
      IsCodec C
      → (es : List (InputEvent V)) (e : InputEvent V) (later : List (InputEvent V))
      → All IsSendable es
      → IsRefused e
      → loop (server_turn C) (length (bytes (es ++ (e ∷ later)))) (bytes (es ++ (e ∷ later)))
        ≡ record { messages = es; refused = false }
  bytes_refused codec [] e later a (payload, m, i, h) = rw m (
      loop_ends (server_turn C) _ (framed (some payload) (bytes later))
        (turn_ends payload (bytes later) (refused_length (length payload) i) h))
  bytes_refused codec (d ∷ es) e later ((payload, m, h, k), a) r =
      let tail = bytes (es ++ (e ∷ later)) in
      rw m (
        loop_turn (server_turn C) (server_turn-TakesBytes C) (framed (some payload) tail) d tail (
          server_turn-ReadsFrames C payload tail h k
          ∙ ap (λ o. turns o tail) (codec.unmarshal-marshal d payload m))
        ∙ ap (deliver d) (bytes_refused codec es e later a r))

  -- A client writes messages of 1 to 4096 bytes, then one that is marshalled to nothing or to more
  -- than 4096 bytes (and fewer than 2^32), and then any others. The write of that one reports no
  -- error, but the server's loop hands its callback exactly the messages before it: the session has
  -- ended, and what follows is lost. Unmarshalling is to undo marshalling.
  pub handle_mouse_events-oversized :
      IsCodec C
      → (es : List (InputEvent V)) (e : InputEvent V) (later : List (InputEvent V))
      → All IsSendable es
      → IsRefused e
      → ((write_input_message C buffer e (client_sends es [])).1 ≡ none)
        × (handle_mouse_events C (client_sends (es ++ (e ∷ later)) []) ≡ es)
  unfolding handle_mouse_events write_input_message
  handle_mouse_events-oversized codec es e later a (payload, m, i, h) = (
    rw m refl,
    rw (client_bytes (es ++ (e ∷ later)) [])
        (ap (λ (r : Received V). r.messages) (bytes_refused codec es e later a (payload, m, i, h))),
  )
