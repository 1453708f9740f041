-- ===== src/Examples/Announcing.antt =====
-- internal/client/receiver.go and cmd/server.go: the second of two clients sends its configuration.
use waymon.Common.{ℕ, ◌≡◌, refl, String, true, some, List, [], ◌∷◌}
use waymon.Common.Int.{ℤ, pos}
use waymon.Common.Assoc.{insert}
use waymon.Float.{whole}
use waymon.Display.Monitor
use waymon.Manager.State.{Platform, initial, notify}
use waymon.Manager.Clients.{done, register_client}
use waymon.Client.Connect.{configuration_event}
use waymon.Server.Connections.{on_client_connected, on_input_event}
use waymon.Server.Announcement.{connect_all, announced, configuration_announced}

abbrev site : Platform
site = record {
  float = whole;
  Backend = String;
  set_target = λ id b. (id, true);
  Ssh = Unit;
  send_event_to_client = λ id e ssh. (ssh, true);
  hostname = some "desk";
}

abbrev screen : List (Monitor.Monitor ℤ)
screen =
    record {
      id = "1";
      name = "eDP-1";
      x = pos 0;
      y = pos 0;
      width = pos 2560;
      height = pos 1440;
      primary = true;
      scale = pos 1;
    }
    ∷ []

abbrev two_addresses : List (ℕ × String)
two_addresses = (1, "10.0.0.2:40000") ∷ (2, "10.0.0.3:40001") ∷ []

configuration_announced_example :
    on_input_event site 4
      (configuration_event 3 "laptop" (λ name. "sway") screen)
      (connect_all site two_addresses (initial site ""))
    ≡ done (connect_all site two_addresses (initial site ""))
unfolding connect_all on_client_connected register_client announced initial notify insert
configuration_announced_example =
    configuration_announced site 4 3 "laptop" (λ name. "sway") screen "" two_addresses refl
      (refl, (refl, tt))
