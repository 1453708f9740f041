-- ===== src/Examples/Frames.antt =====
-- internal/network: two messages on the wire, under a codec that knows two messages.
use waymon.Common.{
  str_eq, eq_iff, ◌&&◌, ℕ, zero, suc, length, ap, sym, ◌∙◌, inr, Bool, ◌≡◌, refl, String, true,
  false, Option, none, some, List, [], ◌∷◌, ◌++◌, All, arith, if◌then◌else◌, ◌==◌,
}
use waymon.Proto.{
  InputEvent, Event, keyboard, mouse_button, mouse_move, mouse_scroll, mouse_position, control,
  unset,
}
use waymon.Network.Frame.{Codec, IsCodec, write_input_message}
use waymon.Network.Receive.{handle_mouse_events, receive_input_events}
use waymon.Network.RoundTrip.{
  buffer, IsSendable, IsRefused, client_sends, server_sends, handle_mouse_events-client_sends,
  receive_input_events-server_sends, handle_mouse_events-oversized,
}

abbrev Nothing : Type 0
Nothing = Unit

abbrev zeros : ℕ → List ℕ
zeros zero = []
zeros (suc n) = 0 ∷ zeros n

length-zeros : (n : ℕ) → length (zeros n) ≡ n
length-zeros zero = refl
length-zeros (suc n) = ap suc (length-zeros n)

-- A move is sent as more bytes than the limit, with nothing of a time or a source.
abbrev long : List ℕ
long = 0 ∷ 0 ∷ 0 ∷ 0 ∷ zeros 5000

-- A key is sent as its state, its code and the time, and an empty message as nothing, where no
-- source is named.
abbrev to_bytes : Event Nothing → ℕ → String → Option (List ℕ)
to_bytes (keyboard key true) t source = if str_eq source "" then some (1 ∷ key ∷ t ∷ []) else none
to_bytes (keyboard key false) t source = if str_eq source "" then some (0 ∷ key ∷ t ∷ []) else none
to_bytes unset t source = if str_eq source "" && (t == 0) then some [] else none
to_bytes (mouse_move dx dy) t source = if str_eq source "" && (t == 0) then some long else none
to_bytes (mouse_button button pressed) t source = none
to_bytes (mouse_scroll dx dy) t source = none
to_bytes (control c) t source = none
to_bytes (mouse_position x y) t source = none

abbrev message : Event Nothing → ℕ → InputEvent Nothing
message event t = record { event = event; timestamp = t; source_id = "" }

abbrev from_bytes : List ℕ → Option (InputEvent Nothing)
from_bytes [] = some (message unset 0)
from_bytes (a ∷ b ∷ c ∷ []) = some (message (keyboard b (a == 1)) c)
from_bytes (a ∷ b ∷ c ∷ d ∷ rest) = some (message (mouse_move tt tt) 0)
from_bytes _ = none

abbrev key_codec : Codec Nothing
key_codec = record {
  marshal = λ e. to_bytes e.event e.timestamp e.source_id;
  unmarshal = from_bytes;
}

moved :
    (t : ℕ) (source : String) (bs : List ℕ) (a b : Bool)
    → str_eq source "" ≡ a
    → (t == 0) ≡ b
    → (if a && b then some long else none) ≡ some bs
    → from_bytes bs ≡ some (record { event = mouse_move tt tt; timestamp = t; source_id = source })
moved t source bs true true e f h =
    ap (λ o. from_bytes (elim o as (λ _. List ℕ) [ none ↦ [] | some xs ↦ xs ])) (sym h)
    ∙ ground (arith, e, f, eq_iff source "")
moved t source bs true false e f h = cc
moved t source bs false b e f h = cc

from_bytes-to_bytes :
    (event : Event Nothing) (t : ℕ) (source : String) (bs : List ℕ)
    → to_bytes event t source ≡ some bs
    → from_bytes bs ≡ some (record { event = event; timestamp = t; source_id = source })
from_bytes-to_bytes (keyboard key true) t source bs h = ground (arith, eq_iff source "", h)
from_bytes-to_bytes (keyboard key false) t source bs h = ground (arith, eq_iff source "", h)
from_bytes-to_bytes unset t source bs h = ground (arith, eq_iff source "", h)
from_bytes-to_bytes (mouse_move dx dy) t source bs h =
    moved t source bs (str_eq source "") (t == 0) refl refl h
from_bytes-to_bytes (mouse_button button pressed) t source bs h = cc
from_bytes-to_bytes (mouse_scroll dx dy) t source bs h = cc
from_bytes-to_bytes (control c) t source bs h = cc
from_bytes-to_bytes (mouse_position x y) t source bs h = cc

key_codec-IsCodec : IsCodec key_codec
key_codec-IsCodec = record {
  unmarshal-marshal = λ e bs h. from_bytes-to_bytes e.event e.timestamp e.source_id bs h;
}

abbrev press : InputEvent Nothing
press = message (keyboard 30 true) 5

abbrev release : InputEvent Nothing
release = message (keyboard 30 false) 6

keys-IsSendable : All (IsSendable key_codec) (press ∷ release ∷ [])
keys-IsSendable = (
  (1 ∷ 30 ∷ 5 ∷ [], refl, omega arith, omega arith),
  ((0 ∷ 30 ∷ 6 ∷ [], refl, omega arith, omega arith), tt),
)

handle_mouse_events-client_sends_example :
    handle_mouse_events key_codec (client_sends key_codec (press ∷ release ∷ []) [])
    ≡ press ∷ release ∷ []
handle_mouse_events-client_sends_example =
    handle_mouse_events-client_sends key_codec key_codec-IsCodec (press ∷ release ∷ [])
      keys-IsSendable

receive_input_events-server_sends_example :
    receive_input_events key_codec (server_sends key_codec (press ∷ release ∷ []) [])
    ≡ record { messages = press ∷ release ∷ []; refused = false }
receive_input_events-server_sends_example =
    receive_input_events-server_sends key_codec key_codec-IsCodec (press ∷ release ∷ [])
      keys-IsSendable

abbrev move : InputEvent Nothing
move = message (mouse_move tt tt) 0

move-IsRefused : IsRefused key_codec move
move-IsRefused =
    let counted = length-zeros 5000 in
    (long, refl, inr (omega (arith, counted)), omega (arith, counted))

handle_mouse_events-oversized_example :
    ((write_input_message key_codec buffer move
        (client_sends key_codec (press ∷ release ∷ []) [])).1
      ≡ none)
    × (handle_mouse_events key_codec
          (client_sends key_codec ((press ∷ release ∷ []) ++ (move ∷ press ∷ [])) [])
        ≡ press ∷ release ∷ [])
handle_mouse_events-oversized_example =
    handle_mouse_events-oversized key_codec key_codec-IsCodec (press ∷ release ∷ []) move
      (press ∷ []) keys-IsSendable move-IsRefused
