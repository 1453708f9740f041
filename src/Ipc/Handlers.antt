-- ===== src/Ipc/Handlers.antt =====
-- internal/input/switch.go and internal/server/manager.go as the handlers of the socket server.
use waymon.Common.{ℕ}
use waymon.Manager.State
use waymon.Manager.Rotation
use waymon.Input.Switch
use waymon.Ipc.Messages.{new_status_response_message, new_error_message, handler_error}
use waymon.Ipc.Socket.{MessageHandler, Answer, replied, failed, panicked}

-- `IPCHandler`, which turns an error into a message itself.
abbrev pub switch_answer :
    Switch.SwitchManager × Switch.Reply → Switch.SwitchManager × Answer Switch.Error
switch_answer (sm, Switch.status s) = (sm, replied (new_status_response_message s))
switch_answer (sm, Switch.failed e) = (sm, replied (new_error_message (handler_error e)))
switch_answer (sm, Switch.crashes) = (sm, panicked)

abbrev pub switch_handler : MessageHandler Switch.Error
switch_handler = record {
  State = Switch.SwitchManager;
  handle_switch_command =
      λ command sm. switch_answer (Switch.handle_switch_command command.action sm);
  handle_status_query = λ sm. (sm, replied (new_status_response_message (Switch.get_status sm)));
}

-- The status that the client manager answers with, which is the one of internal/input.
abbrev pub status_of : Rotation.StatusResponse → Switch.Status
status_of s = record {
  active = s.active;
  connected = s.connected;
  server_host = s.server_host;
  current_computer = s.current_computer;
  total_computers = s.total_computers;
  computer_names = s.computer_names;
}

-- `ClientManager`, which returns an `error`.
module _ (P : State.Platform) (now : ℕ) where
  abbrev pub manager_answer :
      State.ClientManager P × Rotation.Reply → State.ClientManager P × Answer State.Error
  manager_answer (cm, Rotation.status s) = (cm, replied (new_status_response_message (status_of s)))
  manager_answer (cm, Rotation.failed e) = (cm, failed e)

  abbrev pub manager_handler : MessageHandler State.Error
  manager_handler = record {
    State = State.ClientManager P;
    handle_switch_command =
        λ command cm. manager_answer (Rotation.handle_switch_command P now command.action cm);
    handle_status_query = λ cm.
        (cm, replied (new_status_response_message (status_of (Rotation.handle_status_query P cm))));
  }
