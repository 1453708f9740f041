-- ===== src/Examples/Receiving.antt =====
-- internal/client/receiver.go: a receiver on a network that accepts everything.
use waymon.Common.{ℕ, ◌+◌, ◌≡◌, refl, true, false, none, some, List, [], ◌∷◌}
use waymon.Common.Int.{ℤ}
use waymon.Proto.{
  InputEvent, ControlEvent, keyboard, request_control, server_shutdown, client_list_response,
  switch_to_local,
}
use waymon.Client.Receiver.{
  Link, InputReceiver, finished, no_control, process_input_event, handle_control_event,
  notify_reconnect_status,
}
use waymon.Client.Control.{Deadlocks, control_message, IsStuck, server_shutdown-Deadlocks}
use waymon.Client.Messages.{Returns, controller, handle_all, last_said, handle_all-Returns}
use waymon.Client.Reconnect.{monitor_tick, disconnect}
use waymon.Client.Connect.{Outside, new_input_receiver, connect, send_client_configuration}
use waymon.Client.Quiet.{
  Call, connects, disconnects, ticks, processes, step, run, monitor_tick_only_looks,
}

abbrev link : Link
link = record {
  Value = ℤ;
  Net = ℕ;
  disconnect = λ n. n;
  Backend = ℕ;
  stop_backend = λ b. b;
  inject = λ call b. (b, true);
}

abbrev free : InputReceiver link
free = record {
  locked = false;
  connected = true;
  server_address = "desk:52525";
  ssh_connection = true;
  net = 0;
  input_backend = 0;
  control_status = no_control;
  on_status_change = true;
  status_changes = [];
  client_id = "laptop";
  on_connected = true;
  connections = 1;
  on_disconnected = true;
  disconnections = 0;
  private_key_path = "";
  monitors = 1;
  reconnect_enabled = true;
  reconnect_in_progress = false;
  on_reconnect_status = true;
  reconnect_statuses = [];
}

abbrev key : InputEvent ℤ
key = record { event = keyboard 30 true; timestamp = 3; source_id = "desk" }

server_shutdown-Deadlocks_example :
    Deadlocks
      (λ (after : InputReceiver link).
        (after.connected ≡ false) × (after.control_status ≡ no_control) × IsStuck 9 key after)
      (process_input_event 8
        (control_message 7 "server"
          (record { type = server_shutdown; target_id = "laptop"; config = none }))
        free)
server_shutdown-Deadlocks_example =
    server_shutdown-Deadlocks 8 7 "server" "laptop" none free 9 key refl

abbrev asked : ControlEvent ℤ
asked = record { type = request_control; target_id = "desk"; config = none }

-- A request, a list of clients, and the switch to local.
abbrev messages : List (ℕ × ControlEvent ℤ)
messages =
    (8, asked)
    ∷ (9, record asked { type = client_list_response })
    ∷ (10, record asked { type = switch_to_local })
    ∷ (11, record asked { target_id = "tower" })
    ∷ []

handle_all-Returns_example :
    Returns
      (λ (after : InputReceiver link). controller after ≡ (true, "tower"))
      (handle_all messages free)
unfolding last_said
handle_all-Returns_example = handle_all-Returns messages free (tt, (tt, (tt, (tt, tt)))) refl

-- A network on which every attempt to dial and to send succeeds.
abbrev outside : Outside link
outside = record {
  start_backend = λ b. (b, true);
  dial = λ key address n. (n + 1, true);
  send = λ e n. (n, true);
  displays = none;
  getenv = λ v. "";
}

abbrev fresh : InputReceiver link
fresh = record free {
  connected = false;
  ssh_connection = false;
  on_status_change = false;
  on_connected = false;
  connections = 0;
  on_disconnected = false;
  monitors = 0;
  reconnect_enabled = false;
  on_reconnect_status = false;
}

fresh_new : new_input_receiver link (some 0) (some "laptop") 0 "desk:52525" ≡ some fresh
unfolding new_input_receiver
fresh_new = refl

-- A connection that is watched and ended, and a new one.
abbrev calls : List (Call link)
calls = connects 1 "id_ed25519" ∷ ticks ∷ processes 2 key ∷ disconnects ∷ ticks ∷ connects 3 "" ∷ []

monitor_tick_only_looks_example :
    let ir = run outside fresh calls in
    (ir.reconnect_in_progress ≡ false)
    × (monitor_tick ir ≡ finished (record { receiver = ir; goes_on = true; started = false }))
unfolding run step connect send_client_configuration disconnect monitor_tick process_input_event
    handle_control_event notify_reconnect_status
monitor_tick_only_looks_example =
    monitor_tick_only_looks link outside 0 (some "laptop") 0 "desk:52525" fresh calls fresh_new
