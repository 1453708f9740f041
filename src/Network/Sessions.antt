-- ===== src/Network/Sessions.antt =====
-- internal/network/ssh_server.go: the sessions of the SSH server, the keys that may open one, and
-- the delivery of events to clients. cmd/server.go: the answer to a request for approval. The SSH
-- library starts a session with its ID, its address, the key and the session as a writer.
use waymon.Common.{
  String, Bool, true, false, ◌&&◌, Option, none, some, List, [], ◌∷◌, map, str_eq, if◌then◌else◌,
  length,
}
use waymon.Common.Assoc.{lookup, insert, delete, adjust}
use waymon.Common.Int.{ℤ, pos, ltb_ℤ, leb_ℤ}
use waymon.Proto.{InputEvent}
use waymon.Config.Store.{Store, get, is_ssh_key_whitelisted, add_ssh_key_to_whitelist}
use waymon.Network.Frame.{Codec, Writer, WriteError, write_input_event}

-- `OnAuthRequest` as cmd/server.go sets it, with and without the text interface.
unfoldable pub on_auth_request : String → String → Bool
on_auth_request addr fingerprint = true

-- The answer of the handler, where there is one: an approved key joins the whitelist.
abbrev pub ask : Bool → String → Option Bool → Store → Store × Bool
ask save fingerprint none store = (store, false)
ask save fingerprint (some false) store = (store, false)
ask save fingerprint (some true) store = ((add_ssh_key_to_whitelist save fingerprint store).0, true)

-- `publicKeyAuth` for a key with this fingerprint; none is a key that does not parse.
unfoldable pub public_key_auth : Bool → Option String → Option Bool → Store → Store × Bool
public_key_auth save none approval store = (store, false)
public_key_auth save (some fingerprint) approval store =
    if is_ssh_key_whitelisted fingerprint store
    then (store, true)
    else if (get store).server.ssh_whitelist_only
    then ask save fingerprint approval store
    else (store, true)

pub data SendError : Type 0 where
  client_not_found : String → SendError
  write_failed : WriteError → SendError

-- The calls of `OnClientConnected` and `OnClientDisconnected`.
pub data Notice : Type 0 where
  connected : String → String → Notice
  disconnected : String → Notice

module _ (W : Writer) where
  pub record SshClient : Type 0 where
    pub addr : String
    pub public_key : String
    pub writer : W.State

  pub record SshServer : Type 0 where
    pub port : ℤ
    pub host_key_path : String
    pub auth_keys_path : String
    pub max_clients : ℤ
    pub clients : List (String × SshClient)
    pub stopped : Bool
    pub notices : List Notice  -- the newest first

  unfoldable pub new_ssh_server : ℤ → String → String → SshServer
  new_ssh_server port host_key_path auth_keys_path = record {
    port = port;
    host_key_path = host_key_path;
    auth_keys_path = auth_keys_path;
    max_clients = pos 1;
    clients = [];
    stopped = false;
    notices = [];
  }

  unfoldable pub set_max_clients : ℤ → SshServer → SshServer
  set_max_clients max s = record s { max_clients = max }

  pub record Session : Type 0 where
    pub id : String
    pub remote_addr : String
    pub fingerprint : Option String
    pub writer : W.State

  -- `publicKey`, empty for a session without a key.
  abbrev pub key_of : Option String → String
  key_of none = ""
  key_of (some fingerprint) = fingerprint

  unfoldable pub is_full : SshServer → Bool
  is_full s = ltb_ℤ (pos 0) s.max_clients && leb_ℤ s.max_clients (pos (length s.clients))

  -- `sessionHandler` up to its loop; false where the session is rejected.
  unfoldable pub open_session : Session → SshServer → SshServer × Bool
  open_session sess s = if is_full s then (s, false) else (
    record s {
      clients =
          insert sess.id
            (record {
              addr = sess.remote_addr;
              public_key = key_of sess.fingerprint;
              writer = sess.writer;
            })
            s.clients;
      notices = connected sess.remote_addr (key_of sess.fingerprint) ∷ s.notices;
    },
    true,
  )

  -- What `sessionHandler` defers.
  unfoldable pub close_session : Session → SshServer → SshServer
  close_session sess s = record s {
    clients = delete sess.id s.clients;
    notices = disconnected sess.remote_addr ∷ s.notices;
  }

  unfoldable pub stop : SshServer → SshServer
  stop s = if s.stopped then s else record s { clients = []; stopped = true }

  -- `GetClientSessions`
  unfoldable pub get_client_sessions : SshServer → List (String × String)
  get_client_sessions s = map (λ e. (e.0, e.1.addr)) s.clients

  module _ {V : Type 0} (C : Codec V) where
    abbrev pub sent : Option WriteError → Option SendError
    sent none = none
    sent (some e) = some (write_failed e)

    -- `client.writer` after a write.
    abbrev pub with_writer : SshClient → W.State → SshClient
    with_writer client w = record client { writer = w }

    -- The loop of `SendEventToClient`.
    unfoldable pub send_to_address :
        String
        → InputEvent V
        → List (String × SshClient)
        → List (String × SshClient) × Option SendError
    send_to_address addr event [] = ([], some (client_not_found addr))
    send_to_address addr event ((id, client) ∷ rest) =
        let (w, e) = write_input_event C W event client.writer in
        let (others, result) = send_to_address addr event rest in
        if str_eq client.addr addr
        then ((id, with_writer client w) ∷ rest, sent e)
        else ((id, client) ∷ others, result)

    unfoldable pub send_event_to_client :
        String → InputEvent V → SshServer → SshServer × Option SendError
    send_event_to_client addr event s =
        let (clients, e) = send_to_address addr event s.clients in
        (record s { clients = clients }, e)

    -- `SendInputEventToClient`, by session ID.
    unfoldable pub send_input_event_to_client :
        String → InputEvent V → SshServer → SshServer × Option SendError
    send_input_event_to_client id event s = elim (lookup id s.clients) [
      | none ↦ (s, some (client_not_found id))
      | some client ↦
          let (w, e) = write_input_event C W event client.writer in
          (record s { clients = adjust id (λ c. with_writer c w) s.clients }, sent e)
    ]

    -- The later error, if there is one.
    abbrev pub last_error : Option SendError → Option SendError → Option SendError
    last_error earlier none = earlier
    last_error earlier (some later) = some later

    -- The loop of `SendInputEventToAllClients`, with the `lastErr` so far.
    unfoldable pub send_to_all :
        InputEvent V
        → List (String × SshClient)
        → Option SendError
        → List (String × SshClient) × Option SendError
    send_to_all event [] e = ([], e)
    send_to_all event ((id, client) ∷ rest) e =
        let (w, failure) = write_input_event C W event client.writer in
        let (others, result) = send_to_all event rest (last_error e (sent failure)) in
        ((id, with_writer client w) ∷ others, result)

    unfoldable pub send_input_event_to_all_clients :
        InputEvent V → SshServer → SshServer × Option SendError
    send_input_event_to_all_clients event s =
        let (clients, e) = send_to_all event s.clients none in (record s { clients = clients }, e)
