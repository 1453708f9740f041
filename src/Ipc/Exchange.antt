-- ===== src/Ipc/Exchange.antt =====
-- internal/ipc: a command over the socket, from its sender to the client manager and back.
use waymon.Common.{
  ℕ, zero, suc, ◌^◌, ◌<◌, ◌≡◌, refl, ap, ◌∙◌, subst, true, none, some, inl, List, [], ◌++◌, length,
}
use mathlib.Core.List.{append-nil}
use waymon.Network.Frame.{length_prefix, read_full}
use waymon.Network.Progress.{read_full-append}
use waymon.Network.RoundTrip.{frame, read_prefix, decode_length-length_prefix}
use waymon.Manager.State
use waymon.Manager.State.{Platform, ClientManager}
use waymon.Manager.Rotation
use waymon.Ipc.Messages.{
  Message, new_switch_message, new_status_response_message, new_error_message, handler_error,
  get_switch_command, get_status_response, get_error_response,
}
use waymon.Ipc.Socket.{
  Codec, IsCodec, MessageHandler, Served, write_message, read_message, handle_message, serve,
  handle_connection, serve_next, framed, with_rest, respond, after_writing, marshalled,
  write_response,
}
use waymon.Ipc.Client.{
  result, Result, status, failed, server_error, send_message, send_switch, received, reply,
}
use waymon.Ipc.Handlers.{manager_handler, manager_answer, status_of}

module _ {X : Type 0} (C : Codec X) (codec : IsCodec C) where
  -- A message with its bytes, which are fewer than a length of 32 bits can count.
  abbrev pub IsMarshalled : Message X → List ℕ → Type 0
  IsMarshalled m bs = (C.marshal m ≡ some bs) × (length bs < 2 ^ 32)

  write_message-frame :
      (m : Message X) (bs : List ℕ) → IsMarshalled m bs → write_message C m ≡ some (frame bs)
  unfolding write_message
  write_message-frame m bs (e, l) = ap framed e

  read_message-frame :
      (m : Message X) (bs rest : List ℕ)
      → IsMarshalled m bs
      → read_message C (length_prefix (length bs) ++ (bs ++ rest)) ≡ some (m, rest)
  unfolding read_message
  read_message-frame m bs rest (e, l) =
      rw (read_prefix bs rest, decode_length-length_prefix (length bs) l, read_full-append bs rest)
        (ap (with_rest rest) (codec.unmarshal-marshal m bs e))

  pub read_message-[] : read_message C [] ≡ none
  unfolding read_message read_full
  read_message-[] = refl

  read_one :
      (m : Message X) (bs : List ℕ) → IsMarshalled m bs → read_message C (frame bs) ≡ some (m, [])
  read_one m bs h =
      subst (λ tail. read_message C (length_prefix (length bs) ++ tail) ≡ some (m, []))
        (append-nil bs) (read_message-frame m bs [] h)

  module _ (H : MessageHandler X) where
    ended :
        (fuel : ℕ) (bytes : List ℕ) (s : H.State)
        → after_writing C H bytes (serve C H fuel [] s) ≡ record { state = s; written = bytes }
    unfolding serve
    ended zero bytes s = ap (λ bs. record { state = s; written = bs }) (append-nil bytes)
    ended (suc fuel) bytes s =
        ap (λ o. after_writing C H bytes (serve_next C H (serve C H fuel) o s)) read_message-[]
        ∙ ap (λ bs. record { state = s; written = bs }) (append-nil bytes)

    -- A connection that carries one message answers it, and ends.
    serve_one :
        (fuel : ℕ) (m r : Message X) (bs rs : List ℕ) (s after : H.State)
        → IsMarshalled m bs
        → IsMarshalled r rs
        → handle_message C H m s ≡ (after, some r)
        → serve C H (suc fuel) (frame bs) s ≡ record { state = after; written = frame rs }
    unfolding serve
    serve_one fuel m r bs rs s after h k e =
        ap (λ o. serve_next C H (serve C H fuel) o s) (read_one m bs h)
        ∙ (ap (λ o. write_response C H (serve C H fuel []) (marshalled C H o)) e
            ∙ (ap (λ o. write_response C H (serve C H fuel []) (after, o))
                  (write_message-frame r rs k)
                ∙ ended fuel (frame rs) after))

    -- The socket server at the other end of a connection.
    abbrev pub peer : List ℕ → H.State → H.State × List ℕ
    peer bytes s = let v = handle_connection C H bytes s in (v.state, v.written)

    pub send_message-answer :
        (m r : Message X) (bs rs : List ℕ) (s after : H.State)
        → IsMarshalled m bs
        → IsMarshalled r rs
        → handle_message C H m s ≡ (after, some r)
        → send_message C true peer m s ≡ (after, inl r)
    unfolding send_message handle_connection length_prefix
    send_message-answer m r bs rs s after h k e =
        let served = serve_one (suc (suc (suc (length bs)))) m r bs rs s after h k e in
        ap (λ o. reply C peer o s) (write_message-frame m bs h)
        ∙ (ap (λ (v : Served C H). (v.state, received (read_message C v.written))) served
            ∙ ap (λ o. (after, received o)) (read_one r rs k))

-- What the sender of a command is told, by the manager's reply.
abbrev pub told :
    {P : Platform} → ClientManager P × Rotation.Reply → ClientManager P × Result State.Error
told (cm, Rotation.status s) = (cm, status (status_of s))
told (cm, Rotation.failed e) = (cm, failed (server_error (handler_error e)))

-- The message that carries a reply.
abbrev pub reply_message : Rotation.Reply → Message State.Error
reply_message (Rotation.status s) = new_status_response_message (status_of s)
reply_message (Rotation.failed e) = new_error_message (handler_error e)

module _ (P : Platform) (C : Codec State.Error) (codec : IsCodec C) (now : ℕ) where
  respond_reply :
      (action : Rotation.SwitchAction) (cm : ClientManager P)
      → let (after, r) = Rotation.handle_switch_command P now action cm in
        handle_message C (manager_handler P now) (new_switch_message action) cm
        ≡ (after, some (reply_message r))
  unfolding handle_message new_switch_message get_switch_command
  respond_reply action cm = by_reply (Rotation.handle_switch_command P now action cm)
    where
      by_reply :
          (o : ClientManager P × Rotation.Reply)
          → respond C (manager_handler P now) (manager_answer P now o)
            ≡ (o.0, some (reply_message o.1))
      by_reply (after, Rotation.status s) = refl
      by_reply (after, Rotation.failed e) = refl

  -- Where the client reaches the socket and both messages marshal to fewer than 2^32 bytes, which
  -- unmarshal to them, a switch command over the socket leaves the client manager as
  -- `HandleSwitchCommand` does, and tells the sender the status or the error of that call.
  pub send_switch-told :
      (action : Rotation.SwitchAction) (cm : ClientManager P) (bs rs : List ℕ)
      → IsMarshalled C codec (new_switch_message action) bs
      → IsMarshalled C codec (reply_message (Rotation.handle_switch_command P now action cm).1) rs
      → send_switch C true (peer C codec (manager_handler P now)) action cm
        ≡ told (Rotation.handle_switch_command P now action cm)
  unfolding send_switch new_status_response_message new_error_message get_status_response
      get_error_response
  send_switch-told action cm bs rs h k =
      ap (result C) (
        send_message-answer C codec (manager_handler P now) (new_switch_message action) _ bs rs cm _
          h k (respond_reply action cm))
      ∙ by_reply (Rotation.handle_switch_command P now action cm)
    where
      by_reply :
          (o : ClientManager P × Rotation.Reply) → result C (o.0, inl (reply_message o.1)) ≡ told o
      by_reply (after, Rotation.status s) = refl
      by_reply (after, Rotation.failed e) = refl
