-- ===== src/Ipc/Termination.antt =====
-- internal/ipc/socket.go and internal/network: the loops that read messages end.
use waymon.Common.{
  ℕ, zero, suc, ◌<◌, ◌≤◌, ◌≡◌, refl, Option, none, some, List, [], ◌∷◌, arith, length,
}
use waymon.Network.Frame
use waymon.Network.Frame.{read_full, decode_length}
use waymon.Network.Progress.{read_full-length, server_turn-TakesBytes, client_turn-TakesBytes}
use waymon.Network.Receive.{loop, server_turn, client_turn}
use waymon.Network.Loop.{Runs, loop-Runs}
use waymon.Ipc.Messages.{Message}
use waymon.Ipc.Socket.{
  Codec, MessageHandler, Served, serve, serve_next, read_message, read_data, unmarshal_data,
  with_rest, handle_message, marshalled, write_response, after_writing,
}

module _ {X : Type 0} (C : Codec X) where
  with_rest-shorter :
      (o : Option (Message X)) (more : List ℕ) (m : Message X) (rest : List ℕ)
      → with_rest more o ≡ some (m, rest)
      → length rest ≤ length more
  with_rest-shorter none more m rest h = ground (arith, h)
  with_rest-shorter (some r) more m rest h = ground (arith, h)

  unmarshal_data-shorter :
      (o : Option (List ℕ × List ℕ)) (n : ℕ) (stream : List ℕ) (m : Message X) (rest : List ℕ)
      → read_full n stream ≡ o
      → unmarshal_data C o ≡ some (m, rest)
      → length rest ≤ length stream
  unmarshal_data-shorter none n stream m rest e h = ground (arith, h)
  unmarshal_data-shorter (some (payload, more)) n stream m rest e h = omega (
    arith,
    read_full-length n stream payload more e,
    with_rest-shorter (C.unmarshal payload) more m rest h,
  )

  read_data-shorter :
      (o : Option (List ℕ × List ℕ)) (stream : List ℕ) (m : Message X) (rest : List ℕ)
      → read_full 4 stream ≡ o
      → read_data C o ≡ some (m, rest)
      → length rest < length stream
  read_data-shorter none stream m rest e h = ground (arith, h)
  read_data-shorter (some (prefix, more)) stream m rest e h = omega (
    arith,
    read_full-length 4 stream prefix more e,
    unmarshal_data-shorter _ (decode_length prefix) more m rest refl h,
  )

  -- A message takes its length at least.
  read_message-shorter :
      (stream : List ℕ) (m : Message X) (rest : List ℕ)
      → read_message C stream ≡ some (m, rest)
      → length rest < length stream
  unfolding read_message
  read_message-shorter stream m rest h = read_data-shorter _ stream m rest refl h

  nothing_read : read_message C [] ≡ none
  unfolding read_message read_full
  nothing_read = refl

  module _ (H : MessageHandler X) where
    -- A connection without fuel: finitely many messages to its end, and what is left.
    pub data Serves : List ℕ → H.State → Served C H → Type 0 where
      closes :
          (stream : List ℕ) (s : H.State)
          → read_message C stream ≡ none
          → Serves stream s (record { state = s; written = [] })
      gives_up :
          (stream rest : List ℕ) (s t : H.State) (m : Message X)
          → read_message C stream ≡ some (m, rest)
          → marshalled C H (handle_message C H m s) ≡ (t, none)
          → Serves stream s (record { state = t; written = [] })
      answers :
          (stream rest bytes : List ℕ) (s t : H.State) (m : Message X) (r : Served C H)
          → read_message C stream ≡ some (m, rest)
          → marshalled C H (handle_message C H m s) ≡ (t, some bytes)
          → Serves rest t r
          → Serves stream s (after_writing C H bytes r)

    answer-Serves :
        (next : H.State → Served C H) (stream rest : List ℕ) (s : H.State) (m : Message X)
        (o : H.State × Option (List ℕ))
        → read_message C stream ≡ some (m, rest)
        → marshalled C H (handle_message C H m s) ≡ o
        → ((t : H.State) → Serves rest t (next t))
        → Serves stream s (write_response C H next o)
    answer-Serves next stream rest s m (t, none) e a h = gives_up stream rest s t m e a
    answer-Serves next stream rest s m (t, some bytes) e a h =
        answers stream rest bytes s t m (next t) e a (h t)

    next-Serves :
        (loop : List ℕ → H.State → Served C H) (stream : List ℕ) (s : H.State)
        (o : Option (Message X × List ℕ))
        → read_message C stream ≡ o
        → ((m : Message X) (rest : List ℕ) (t : H.State)
            → read_message C stream ≡ some (m, rest)
            → Serves rest t (loop rest t))
        → Serves stream s (serve_next C H loop o s)
    next-Serves loop stream s none e h = closes stream s e
    next-Serves loop stream s (some (m, rest)) e h =
        answer-Serves (loop rest) stream rest s m _ e refl (λ t. h m rest t e)

    -- With enough fuel, a connection ends as it does without.
    serve-Serves :
        (fuel : ℕ) (stream : List ℕ) (s : H.State)
        → length stream ≤ fuel
        → Serves stream s (serve C H fuel stream s)
    unfolding serve
    serve-Serves zero [] s h = closes [] s nothing_read
    serve-Serves zero (b ∷ bs) s h = absurd (omega (arith, h))
    serve-Serves (suc fuel) stream s h =
        next-Serves (serve C H fuel) stream s (read_message C stream) refl (λ m rest t e.
          let l : length rest < length stream = read_message-shorter stream m rest e in
          serve-Serves fuel rest t (omega (arith, l, h)))

-- Whatever bytes arrive, the loops end: those of the server and of the client over SSH, and that of
-- a connection of the IPC socket, whatever its handler. From the bytes to the end there are finitely
-- many turns, each of which is one of the code, and their result is the one of the modelled loop
-- with as much fuel as there are bytes, or with more.
pub loops_end :
    {V X : Type 0} (C : Frame.Codec V) (D : Codec X) (H : MessageHandler X) (s : H.State) (fuel : ℕ)
    (stream : List ℕ)
    → length stream ≤ fuel
    → Runs (server_turn C) stream (loop (server_turn C) fuel stream)
      × Runs (client_turn C) stream (loop (client_turn C) fuel stream)
      × Serves D H stream s (serve D H fuel stream s)
loops_end C D H s fuel stream h = (
  loop-Runs (server_turn C) (server_turn-TakesBytes C) fuel stream h,
  loop-Runs (client_turn C) (client_turn-TakesBytes C) fuel stream h,
  serve-Serves D H fuel stream s h,
)
