-- ===== src/Network/Frame.antt =====
-- internal/network: the message frames. A frame is the length of the payload in four bytes, the most
-- significant first, and the payload; a byte is a number below 256.
use waymon.Common.{
  ℕ, ◌+◌, ◌*◌, ◌/◌, ◌%◌, ◌^◌, ◌≡◌, Bool, Option, none, some, List, [], ◌∷◌, if◌then◌else◌, leb,
  length, take, drop, not,
}
use waymon.Proto.{InputEvent}

-- `proto.Marshal` and `proto.Unmarshal`.
pub record Codec (V : Type 0) : Type 0 where
  pub marshal : InputEvent V → Option (List ℕ)
  pub unmarshal : List ℕ → Option (InputEvent V)

-- What is marshalled is unmarshalled to the same message.
pub record IsCodec {V : Type 0} (C : Codec V) : Type 0 where
  pub unmarshal-marshal :
      (e : InputEvent V) (bs : List ℕ) → C.marshal e ≡ some bs → C.unmarshal bs ≡ some e

-- An `io.Writer`: a write, and whether it succeeded; and `Flush`, where the writer has it.
pub record Writer : Type 1 where
  pub State : Type 0
  pub write : List ℕ → State → State × Bool
  pub flush : Option (State → State × Bool)

-- `byte(length >> 24), byte(length >> 16), byte(length >> 8), byte(length)`
unfoldable pub length_prefix : ℕ → List ℕ
length_prefix n = n / 2 ^ 24 % 256 ∷ n / 2 ^ 16 % 256 ∷ n / 2 ^ 8 % 256 ∷ n % 256 ∷ []

-- `int(b[0])<<24 | int(b[1])<<16 | int(b[2])<<8 | int(b[3])`, on bytes.
unfoldable pub decode_length : List ℕ → ℕ
decode_length (a ∷ b ∷ c ∷ d ∷ []) = a * 2 ^ 24 + b * 2 ^ 16 + c * 2 ^ 8 + d
decode_length _ = 0

-- `io.ReadFull` on the bytes that are still to come: `n` bytes and the rest.
unfoldable pub read_full : ℕ → List ℕ → Option (List ℕ × List ℕ)
read_full n stream = if leb n (length stream) then some (take n stream, drop n stream) else none

pub data WriteError : Type 0 where
  marshal_failed length_failed data_failed : WriteError

module _ {V : Type 0} (C : Codec V) (W : Writer) where
  -- The two writes of a frame.
  abbrev pub write_frame : List ℕ → W.State → W.State × Option WriteError
  write_frame payload w =
      let (w1, ok1) = W.write (length_prefix (length payload)) w in
      let (w2, ok2) = W.write payload w1 in
      if not ok1
      then (w1, some length_failed)
      else if not ok2
      then (w2, some data_failed)
      else (w2, none)

  -- What `proto.Marshal` returned is written.
  abbrev pub write_marshalled : Option (List ℕ) → W.State → W.State × Option WriteError
  write_marshalled none w = (w, some marshal_failed)
  write_marshalled (some payload) w = write_frame payload w

  -- `writeInputMessage` of the client, which is also `writeMessage`.
  unfoldable pub write_input_message : InputEvent V → W.State → W.State × Option WriteError
  write_input_message event w = write_marshalled (C.marshal event) w

  -- `if flusher, ok := w.(…)`: an error of the flush is only logged.
  abbrev pub flush_writer : W.State → W.State
  flush_writer w = elim W.flush [ none ↦ w | some f ↦ (f w).0 ]

  abbrev pub flush_written : W.State × Option WriteError → W.State × Option WriteError
  flush_written (w, none) = (flush_writer w, none)
  flush_written (w, some error) = (w, some error)

  -- `writeInputEvent` of the server.
  unfoldable pub write_input_event : InputEvent V → W.State → W.State × Option WriteError
  write_input_event event w = flush_written (write_marshalled (C.marshal event) w)
