-- ===== src/Server/Connections.antt =====
-- cmd/server.go: the callbacks that initializeServer gives to the SSH server, which pass what its
-- sessions report on to the client manager. The manager is there once `Start` has succeeded; the
-- lines for the log of the text interface are left out.
use waymon.Common.{ℕ, String}
use waymon.Proto.{InputEvent}
use waymon.Manager.State.{Platform, ClientManager}
use waymon.Manager.Clients.{Outcome, register_client, unregister_client}
use waymon.Manager.Route.{handle_input_event}

module _ (P : Platform) where
  -- "Use address as both ID and name initially"
  unfoldable pub on_client_connected : ℕ → String → ClientManager P → ClientManager P
  on_client_connected now addr cm = register_client P now addr addr addr cm

  unfoldable pub on_client_disconnected : String → ClientManager P → ClientManager P
  on_client_disconnected addr cm = unregister_client P addr cm

  unfoldable pub on_input_event : ℕ → InputEvent P.float.Value → ClientManager P → Outcome P
  on_input_event now event cm = handle_input_event P now event cm
