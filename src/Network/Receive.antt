-- ===== src/Network/Receive.antt =====
-- internal/network: the loops that read frames, handleMouseEvents of ssh_server.go and
-- receiveInputEvents of ssh_client.go, over the bytes that the connection delivers before it is
-- closed, the context is cancelled or the server stops.
use waymon.Common.{
  ℕ, zero, suc, Bool, true, false, ◌&&◌, ◌||◌, Option, none, some, List, [], ◌∷◌, ◌++◌, ◌-◌,
  if◌then◌else◌, ltb, ◌==◌, length, not,
}
use waymon.Proto.{InputEvent}
use waymon.Network.Frame.{Codec, decode_length, read_full}

abbrev pub max_message : ℕ
max_message = 4096

-- `length <= 0 || length > 4096`
abbrev pub is_invalid_length : ℕ → Bool
is_invalid_length n = n == 0 || ltb max_message n

-- One turn of a loop: it ends, or goes on with the rest of the bytes and, possibly, a message for
-- the callback.
pub data Turn (V : Type 0) : Type 0 where
  ends : Turn V
  rejected : Turn V  -- the server has refused the connection
  turns : Option (InputEvent V) → List ℕ → Turn V

abbrev is_printable : ℕ → Bool
is_printable b = not (ltb b 32 || ltb 126 b)

abbrev pub all_printable : List ℕ → Bool
all_printable [] = true
all_printable (b ∷ bs) = is_printable b && all_printable bs

-- The text up to a newline, or to the end or the limit; and the rest.
unfoldable pub read_text : ℕ → List ℕ → List ℕ × List ℕ
read_text zero stream = ([], stream)
read_text (suc limit) [] = ([], [])
read_text (suc limit) (b ∷ bs) =
    let (text, rest) = read_text limit bs in if b == 10 then (b ∷ [], bs) else (b ∷ text, rest)

abbrev pub is_prefix : List ℕ → List ℕ → Bool
is_prefix [] text = true
is_prefix (x ∷ xs) [] = false
is_prefix (x ∷ xs) (y ∷ ys) = (x == y) && is_prefix xs ys

-- `strings.Contains`
abbrev pub contains_text : List ℕ → List ℕ → Bool
contains_text pattern [] = is_prefix pattern []
contains_text pattern (b ∷ bs) = is_prefix pattern (b ∷ bs) || contains_text pattern bs

-- "maximum number of active clients"
abbrev pub rejection : List ℕ
rejection =
    109 ∷ 97 ∷ 120 ∷ 105 ∷ 109 ∷ 117 ∷ 109 ∷ 32 ∷ 110 ∷ 117 ∷ 109 ∷ 98 ∷ 101 ∷ 114 ∷ 32 ∷ 111 ∷ 102
    ∷ 32 ∷ 97 ∷ 99 ∷ 116 ∷ 105 ∷ 118 ∷ 101 ∷ 32 ∷ 99 ∷ 108 ∷ 105 ∷ 101 ∷ 110 ∷ 116 ∷ 115 ∷ []

module _ {V : Type 0} (C : Codec V) where
  -- The read of the data, of which a length has been read, and `proto.Unmarshal`: where it fails,
  -- the loop goes on.
  abbrev pub read_payload : Option (List ℕ × List ℕ) → Turn V
  read_payload none = ends
  read_payload (some (payload, rest)) = turns (C.unmarshal payload) rest

  abbrev pub server_length : Option (List ℕ × List ℕ) → Turn V
  server_length none = ends
  server_length (some (prefix, rest)) =
      let n = decode_length prefix in
      if is_invalid_length n then ends else read_payload (read_full n rest)

  -- A turn of `handleMouseEvents`.
  unfoldable pub server_turn : List ℕ → Turn V
  server_turn stream = server_length (read_full 4 stream)

  -- What the client makes of four bytes that are no length: text is read to its end.
  unfoldable pub text_turn : List ℕ → List ℕ → Turn V
  unfolding read_text
  text_turn prefix rest =
      if all_printable prefix
      then (let (text, rest) = read_text (1024 - length prefix) rest in
          if contains_text rejection (prefix ++ text) then rejected else turns none rest)
      else turns none rest

  abbrev pub client_length : Option (List ℕ × List ℕ) → Turn V
  client_length none = ends
  client_length (some (prefix, rest)) =
      let n = decode_length prefix in
      if is_invalid_length n then text_turn prefix rest else read_payload (read_full n rest)

  -- A turn of `receiveInputEvents`. A read that is cut short by the end of the bytes leaves none.
  unfoldable pub client_turn : List ℕ → Turn V
  client_turn stream = client_length (read_full 4 stream)

-- What a loop has done: the messages given to the callback, and whether it was rejected.
pub record Received (V : Type 0) : Type 0 where
  pub messages : List (InputEvent V)
  pub refused : Bool

-- A message for the callback comes first.
abbrev pub deliver : {V : Type 0} → InputEvent V → Received V → Received V
deliver event r = record { messages = event ∷ r.messages; refused = r.refused }

-- The rest of the loop, once a turn is taken.
abbrev pub after : {V : Type 0} → (List ℕ → Received V) → Turn V → Received V
after next ends = record { messages = []; refused = false }
after next rejected = record { messages = []; refused = true }
after next (turns none rest) = next rest
after next (turns (some event) rest) = deliver event (next rest)

module _ {V : Type 0} (turn : List ℕ → Turn V) where
  -- The loop, on fuel: each turn that goes on takes at least four bytes.
  unfoldable pub loop : ℕ → List ℕ → Received V
  loop zero stream = record { messages = []; refused = false }
  loop (suc fuel) stream = after (loop fuel) (turn stream)

module _ {V : Type 0} (C : Codec V) where
  unfoldable pub handle_mouse_events : List ℕ → List (InputEvent V)
  unfolding loop
  handle_mouse_events stream = (loop (server_turn C) (length stream) stream).messages

  unfoldable pub receive_input_events : List ℕ → Received V
  unfolding loop
  receive_input_events stream = loop (client_turn C) (length stream) stream
