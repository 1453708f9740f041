-- ===== src/Network/Progress.antt =====
-- internal/network: every turn of the loops that goes on takes bytes.
use waymon.Common.{
  ℕ, zero, suc, ◌+◌, ◌-◌, ◌<◌, ◌≤◌, ◌≡◌, refl, true, Option, none, some, List, [], ◌∷◌, ◌++◌, arith,
  length, length-append, take-append, drop-append, drop, leb,
}
use waymon.Proto.{InputEvent}
use waymon.Network.Frame.{Codec, decode_length, read_full}
use waymon.Network.Receive.{
  turns, server_turn, client_turn, text_turn, read_payload, server_length, client_length, read_text,
}
use waymon.Network.Loop.{TakesBytes}

leb-+ : (m n : ℕ) → leb m (m + n) ≡ true
leb-+ m n = ground arith

pub read_full-append : (xs ys : List ℕ) → read_full (length xs) (xs ++ ys) ≡ some (xs, ys)
unfolding read_full
read_full-append xs ys =
    rw (length-append xs ys, leb-+ (length xs) (length ys), take-append xs ys, drop-append xs ys)
      refl

length-drop : (n : ℕ) (xs : List ℕ) → n ≤ length xs → length (drop n xs) + n ≡ length xs
length-drop zero xs h = omega arith
length-drop (suc n) [] h = absurd (omega (arith, h))
length-drop (suc n) (x ∷ xs) h = omega (arith, length-drop n xs (omega (arith, h)))

pub read_full-length :
    (n : ℕ) (stream xs rest : List ℕ)
    → read_full n stream ≡ some (xs, rest)
    → length rest + n ≡ length stream
unfolding read_full
read_full-length n stream xs rest e = ground (arith, e, length-drop n stream)

read_text-length : (limit : ℕ) (stream : List ℕ) → length (read_text limit stream).1 ≤ length stream
unfolding read_text
read_text-length zero stream = omega arith
read_text-length (suc limit) [] = omega arith
read_text-length (suc limit) (b ∷ bs) = ground (arith, read_text-length limit bs)

module _ {V : Type 0} (C : Codec V) where
  read_payload-shorter :
      (o : Option (List ℕ × List ℕ)) (n : ℕ) (stream : List ℕ) (event : Option (InputEvent V))
      (rest : List ℕ)
      → read_full n stream ≡ o
      → read_payload C o ≡ turns event rest
      → length rest ≤ length stream
  read_payload-shorter none n stream event rest e h = ground (arith, h)
  read_payload-shorter (some (payload, more)) n stream event rest e h =
      let s : length more + n ≡ length stream = read_full-length n stream payload more e in
      ground (arith, s, h)

  text_turn-shorter :
      (prefix stream : List ℕ) (event : Option (InputEvent V)) (rest : List ℕ)
      → text_turn C prefix stream ≡ turns event rest
      → length rest ≤ length stream
  unfolding text_turn
  text_turn-shorter prefix stream event rest h =
      let s : length (read_text (1024 - length prefix) stream).1 ≤ length stream =
        read_text-length (1024 - length prefix) stream in
      ground (arith, s, h)

  server_length-shorter :
      (o : Option (List ℕ × List ℕ)) (stream : List ℕ) (event : Option (InputEvent V))
      (rest : List ℕ)
      → read_full 4 stream ≡ o
      → server_length C o ≡ turns event rest
      → length rest < length stream
  server_length-shorter none stream event rest e h = ground (arith, h)
  server_length-shorter (some (prefix, more)) stream event rest e h =
      let s : length more + 4 ≡ length stream = read_full-length 4 stream prefix more e in
      ground (
        arith,
        s,
        h,
        read_payload-shorter (read_full (decode_length prefix) more) (decode_length prefix) more
            event rest refl,
      )

  client_length-shorter :
      (o : Option (List ℕ × List ℕ)) (stream : List ℕ) (event : Option (InputEvent V))
      (rest : List ℕ)
      → read_full 4 stream ≡ o
      → client_length C o ≡ turns event rest
      → length rest < length stream
  client_length-shorter none stream event rest e h = ground (arith, h)
  client_length-shorter (some (prefix, more)) stream event rest e h =
      let s : length more + 4 ≡ length stream = read_full-length 4 stream prefix more e in
      ground (
        arith,
        s,
        h,
        text_turn-shorter prefix more event rest,
        read_payload-shorter (read_full (decode_length prefix) more) (decode_length prefix) more
            event rest refl,
      )

  pub server_turn-TakesBytes : TakesBytes (server_turn C)
  unfolding server_turn read_full
  server_turn-TakesBytes = record {
    at_end = refl;
    shorter = λ s e r h. server_length-shorter (read_full 4 s) s e r refl h;
  }

  pub client_turn-TakesBytes : TakesBytes (client_turn C)
  unfolding client_turn read_full
  client_turn-TakesBytes = record {
    at_end = refl;
    shorter = λ s e r h. client_length-shorter (read_full 4 s) s e r refl h;
  }
