-- ===== src/Network/Dial.antt =====
-- internal/network/ssh_client.go: SSHClient, Connect, Disconnect and SendInputEvent. What the SSH
-- library and the network answer is a parameter; connections and sessions that are open are
-- counted. The TCP keepalive, and the agent's connection, which is closed at once, are left out.
use waymon.Common.{
  ℕ, ◌+◌, ◌-◌, String, Bool, true, false, not, ◌||◌, ◌==◌, Option, none, some, List, [], ◌∷◌, ◌++◌,
  str_eq, if◌then◌else◌,
}
use waymon.Proto.{InputEvent}
use waymon.Network.Frame.{Codec, Writer, WriteError, write_input_message}
use waymon.Network.Keys.{Files, KeyError, load_private_key, load_private_key_if_exists}

pub data AuthMethod : Type 0 where
  agent_keys : ℕ → AuthMethod
  key_of : String → AuthMethod

pub data DialError : Type 0 where
  already_connected no_home no_methods tcp_failed handshake_failed session_failed : DialError
  stdin_failed stdout_failed : DialError
  key_failed : KeyError → DialError

-- The answers of one call of `Connect`.
pub record Answers : Type 0 where
  pub files : Files
  pub agent : Option ℕ  -- the keys of the SSH agent, none without an agent
  pub tcp : Bool
  pub handshake : Bool
  pub session : Bool
  pub stdin : Bool
  pub stdout : Bool

pub record SshClient : Type 0 where
  pub client : Bool  -- a pointer or an interface that is only tested against nil is a flag
  pub session : Bool
  pub writer : Bool
  pub reader : Bool
  pub connected : Bool
  pub private_key_path : String
  pub on_input_event : Bool
  pub receivers : ℕ  -- how often `receiveInputEvents` has been started

-- What is open at the operating system and the server.
pub record Open : Type 0 where
  pub connections : ℕ
  pub sessions : ℕ

unfoldable pub new_ssh_client : String → SshClient
new_ssh_client key = record {
  client = false;
  session = false;
  writer = false;
  reader = false;
  connected = false;
  private_key_path = key;
  on_input_event = false;
  receivers = 0;
}

-- "Try SSH agent first"
abbrev pub agent_methods : Option ℕ → List AuthMethod
agent_methods none = []
agent_methods (some n) = if n == 0 then [] else agent_keys n ∷ []

-- The first of the paths that holds a key.
unfoldable pub first_key : Files → List String → List AuthMethod
first_key files [] = []
first_key files (path ∷ paths) = elim (load_private_key_if_exists files path) [
  | none ↦ first_key files paths
  | some signer ↦ key_of signer ∷ []
]

abbrev pub default_paths : Files → String → List String
default_paths files home =
    let ssh = files.join home ".ssh" in
    files.join ssh "id_ed25519" ∷ files.join ssh "id_rsa" ∷ files.join ssh "id_ecdsa" ∷ []

abbrev pub default_methods : Files → Option String → List AuthMethod × Option DialError
default_methods files none = ([], some no_home)
default_methods files (some home) = (first_key files (default_paths files home), none)

abbrev pub configured :
    List AuthMethod → String × Option KeyError → List AuthMethod × Option DialError
configured methods (signer, none) = (methods ++ (key_of signer ∷ []), none)
configured methods (signer, some e) = ([], some (key_failed e))

-- A configured key is loaded; the default locations are only tried without an agent.
abbrev pub chosen : Files → String → List AuthMethod → List AuthMethod × Option DialError
chosen files key methods =
    let configured_key = configured methods (load_private_key files key) in
    if not (str_eq key "")
    then configured_key
    else elim methods [ [] ↦ default_methods files files.home_dir | m ∷ ms ↦ (m ∷ ms, none) ]

abbrev pub some_method : List AuthMethod × Option DialError → Option DialError
some_method (methods, some e) = some e
some_method ([], none) = some no_methods
some_method (m ∷ ms, none) = none

-- The authentication of `Connect`; none where there is a method to try.
unfoldable pub authentication : Answers → String → Option DialError
unfolding first_key
authentication a key = some_method (chosen a.files key (agent_methods a.agent))

abbrev pub open_connection : Open → Open
open_connection o = record o { connections = o.connections + 1 }

abbrev pub close_connection : Open → Open
close_connection o = record o { connections = o.connections - 1 }

abbrev pub open_session : Open → Open
open_session o = record o { sessions = o.sessions + 1 }

abbrev pub close_session : Open → Open
close_session o = record o { sessions = o.sessions - 1 }

abbrev pub established : SshClient → SshClient
established c = record c {
  client = true;
  session = true;
  writer = true;
  reader = true;
  connected = true;
  receivers = c.receivers + 1;
}

-- `Connect` from the dialling on: what each early return closes.
abbrev pub dial : Answers → SshClient × Open → (SshClient × Open) × Option DialError
dial a (c, o) =
    let dialled = open_connection o in
    let running = open_session dialled in
    if not a.tcp
    then ((c, o), some tcp_failed)
    else if not a.handshake
    then ((c, close_connection dialled), some handshake_failed)
    else if not a.session
    then ((c, close_connection dialled), some session_failed)
    else if not a.stdin
    then ((c, close_connection (close_session running)), some stdin_failed)
    else if not a.stdout
    then ((c, close_connection (close_session running)), some stdout_failed)
    else ((established c, running), none)

abbrev pub unless_refused :
    Option DialError
    → (SshClient × Open) × Option DialError
    → SshClient × Open
    → (SshClient × Open) × Option DialError
unless_refused none dialled s = dialled
unless_refused (some e) dialled s = (s, some e)

unfoldable pub connect : Answers → SshClient × Open → (SshClient × Open) × Option DialError
unfolding authentication
connect a (c, o) =
    if c.connected
    then ((c, o), some already_connected)
    else unless_refused (authentication a c.private_key_path) (dial a (c, o)) (c, o)

-- What `receiveInputEvents` does when the server has refused the connection: nothing is closed.
unfoldable pub mark_refused : SshClient → SshClient
mark_refused c = record c { connected = false }

unfoldable pub disconnect : SshClient × Open → SshClient × Open
disconnect (c, o) =
    let closed = if c.session then close_session o else o in
    if c.connected
    then (
      record c {
        connected = false;
        session = false;
        client = false;
        writer = false;
        reader = false;
      },
      if c.client then close_connection closed else closed,
    )
    else (c, o)

-- `Reconnect`, whose wait is left out; `Disconnect` returns no error.
unfoldable pub reconnect : Answers → SshClient × Open → (SshClient × Open) × Option DialError
unfolding connect disconnect
reconnect a s = connect a (disconnect s)

unfoldable pub on_input_event : Bool → SshClient → SshClient
on_input_event callback c = record c { on_input_event = callback }

pub data SendError : Type 0 where
  not_connected : SendError
  write_failed : WriteError → SendError

module _ {V : Type 0} (C : Codec V) (W : Writer) where
  abbrev pub write_result : W.State × Option WriteError → W.State × Option SendError
  write_result (w, none) = (w, none)
  write_result (w, some e) = (w, some (write_failed e))

  unfoldable pub send_input_event : InputEvent V → SshClient → W.State → W.State × Option SendError
  send_input_event event c w =
      let written = write_result (write_input_message C W event w) in
      if not c.connected || not c.writer then (w, some not_connected) else written
