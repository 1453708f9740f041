-- ===== src/Server/Announcement.antt =====
-- internal/client/receiver.go, cmd/server.go and internal/server/manager.go: what becomes of the
-- configuration that a client sends when it has connected.
use waymon.Common.{
  ℕ, ◌≡◌, refl, String, false, none, some, List, [], ◌∷◌, map, length, arith, str_eq, eq_refl, All,
  Bool-cases, inl, inr,
}
use waymon.Common.Assoc.{insert, adjust}
use waymon.Proto.{ClientConfig, client_idle}
use waymon.Display.Monitor
use waymon.Manager.State.{
  Platform, ClientManager, ConnectedClient, initial, notify, client_configured,
}
use waymon.Manager.Clients.{
  Outcome, done, register_client, update_client_configuration, target_client, find_match, is_match,
  only_client, configure, update_cursor_bounds,
}
use waymon.Manager.Route.{handle_input_event, handle_control_event}
use waymon.Client.Connect.{configuration_event, protocol_monitor, capabilities}
use waymon.Server.Connections.{on_client_connected, on_input_event}

-- A client that nothing of it names as the host.
record IsUnnamed {V : Type 0} (host : String) (e : String × ConnectedClient V) : Type 0 where
  keyed : str_eq e.0 host ≡ false
  identified : str_eq e.1.id host ≡ false
  named : str_eq e.1.name host ≡ false
  addressed : str_eq e.1.address host ≡ false

module _ (P : Platform) where
  open P use {float, Backend}

  -- The clients of the addresses connect, one after the other.
  unfoldable pub connect_all : List (ℕ × String) → ClientManager P → ClientManager P
  connect_all [] cm = cm
  connect_all ((now, addr) ∷ cs) cm = connect_all cs (on_client_connected P now addr cm)

  -- The client's configuration, as the server reads it.
  abbrev pub configuration :
      String → (String → String) → List (Monitor.Monitor float.Value) → ClientConfig float.Value
  configuration host getenv ms = record {
    client_id = host;
    client_name = host;
    monitors = map protocol_monitor ms;
    capabilities = some (capabilities getenv);
  }

  -- A single client gets the name and the monitors; with none or with several, nothing happens.
  unfoldable pub announced :
      String
      → (String → String)
      → List (Monitor.Monitor float.Value)
      → List (String × ConnectedClient float.Value)
      → ClientManager P
      → Outcome P
  announced host getenv ms ((key, c) ∷ []) cm = done (
      update_cursor_bounds P (configuration host getenv ms) c.id (
        notify P (client_configured host (length (map protocol_monitor ms))) (record cm {
          clients =
              (
                key,
                record c {
                  name = host;
                  monitors = map protocol_monitor ms;
                  capabilities = some (capabilities getenv);
                },
              )
              ∷ [];
        })))
  announced host getenv ms _ cm = done cm

  abbrev newcomer : ℕ → String → ConnectedClient float.Value
  newcomer now addr = record {
    id = addr;
    name = addr;
    address = addr;
    status = client_idle;
    connected_at = now;
    monitors = [];
    capabilities = none;
  }

  insert-IsUnnamed :
      (host key : String) (c : ConnectedClient float.Value)
      (es : List (String × ConnectedClient float.Value))
      → IsUnnamed host (key, c)
      → All (IsUnnamed host) es
      → All (IsUnnamed host) (insert key c es)
  unfolding insert
  insert-IsUnnamed host key c [] h hs = (h, tt)
  insert-IsUnnamed host key c ((k, d) ∷ es) h hs =
      let ih = insert-IsUnnamed host key c es h hs.1 in
      elim (Bool-cases (str_eq k key)) [ inl e ↦ rw e (h, hs.1) | inr e ↦ rw e (hs.0, ih) ]

  clients-on_client_connected :
      (now : ℕ) (addr : String) (cm : ClientManager P)
      → (on_client_connected P now addr cm).clients ≡ insert addr (newcomer now addr) cm.clients
  unfolding on_client_connected register_client notify
  clients-on_client_connected now addr cm = ground arith

  connect_all-IsUnnamed :
      (host : String) (cs : List (ℕ × String)) (cm : ClientManager P)
      → All (λ c. str_eq c.1 host ≡ false) cs
      → All (IsUnnamed host) cm.clients
      → All (IsUnnamed host) (connect_all cs cm).clients
  unfolding connect_all
  connect_all-IsUnnamed host [] cm away hs = hs
  connect_all-IsUnnamed host ((now, addr) ∷ cs) cm away hs =
      connect_all-IsUnnamed host cs (on_client_connected P now addr cm) away.1 (
        rw (clients-on_client_connected now addr cm) (
          insert-IsUnnamed host addr (newcomer now addr) cm.clients
            (record { keyed = away.0; identified = away.0; named = away.0; addressed = away.0 })
            hs))

  find_match-none :
      (host : String) (getenv : String → String) (ms : List (Monitor.Monitor float.Value))
      (es : List (String × ConnectedClient float.Value))
      → All (IsUnnamed host) es
      → find_match P (configuration host getenv ms) host es ≡ none
  unfolding find_match is_match
  find_match-none host getenv ms [] hs = refl
  find_match-none host getenv ms ((k, c) ∷ es) hs =
      let ih = find_match-none host getenv ms es hs.1 in
      let u = hs.0 in ground (arith, u.keyed, u.identified, u.named, u.addressed, ih)

  target_client-only_client :
      (host : String) (getenv : String → String) (ms : List (Monitor.Monitor float.Value))
      (es : List (String × ConnectedClient float.Value))
      → All (IsUnnamed host) es
      → target_client P (configuration host getenv ms) host es ≡ only_client P es
  unfolding target_client
  target_client-only_client host getenv ms es hs =
      rw (target_client, find_match-none host getenv ms es hs) refl

  update_lem :
      (host : String) (getenv : String → String) (ms : List (Monitor.Monitor float.Value))
      (es : List (String × ConnectedClient float.Value)) (cm : ClientManager P)
      → str_eq host "" ≡ false
      → All (IsUnnamed host) es
      → let with_clients : ClientManager P = record cm { clients = es } in
        update_client_configuration P (configuration host getenv ms) host with_clients
        ≡ announced host getenv ms es with_clients
  unfolding update_client_configuration announced configure adjust
  update_lem host getenv ms [] cm filled hs =
      rw (update_client_configuration, target_client-only_client host getenv ms [] hs) refl
  update_lem host getenv ms ((key, c) ∷ []) cm filled hs =
      rw
        (
          update_client_configuration,
          target_client-only_client host getenv ms ((key, c) ∷ []) hs,
          filled,
          hs.0.named,
          eq_refl key,
        )
        refl
  update_lem host getenv ms (e ∷ e' ∷ es) cm filled hs =
      rw (update_client_configuration, target_client-only_client host getenv ms (e ∷ e' ∷ es) hs)
        refl

  -- Where clients have connected, and a client whose host name is not empty and none of their
  -- addresses sends its configuration, the server gives the name and the monitors to the client
  -- that is connected where it is the only one; where several are, the configuration is dropped.
  pub configuration_announced :
      (now time : ℕ) (host : String) (getenv : String → String)
      (ms : List (Monitor.Monitor float.Value)) (b : Backend) (cs : List (ℕ × String))
      → str_eq host "" ≡ false
      → All (λ c. str_eq c.1 host ≡ false) cs
      → on_input_event P now
          (configuration_event time host getenv ms)
          (connect_all cs (initial P b))
        ≡ announced host getenv ms
            (connect_all cs (initial P b)).clients
            (connect_all cs (initial P b))
  unfolding on_input_event handle_input_event handle_control_event configuration_event initial
  configuration_announced now time host getenv ms b cs filled away =
      update_lem host getenv ms (connect_all cs (initial P b)).clients
        (connect_all cs (initial P b)) filled (connect_all-IsUnnamed host cs (initial P b) away tt)
