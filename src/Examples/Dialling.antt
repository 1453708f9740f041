-- ===== src/Examples/Dialling.antt =====
-- internal/network/ssh_client.go: a client that connects with the keys of an agent, disconnects, and
-- then fails to open a session.
use waymon.Common.{◌≡◌, Bool, true, false, some, List, [], ◌∷◌, str_append}
use waymon.Network.Keys.{Files, missing}
use waymon.Network.Dial.{
  Answers, Open, connect, disconnect, reconnect, new_ssh_client, authentication, mark_refused,
}
use waymon.Network.Cleanup.{
  Call, connecting, disconnecting, reconnecting, run, refusals, refused_by_server, IsAccounted,
  run-new-IsAccounted,
}

abbrev no_files : Files
no_files = record {
  home_dir = some "/home/u";
  join = λ a b. str_append a (str_append "/" b);
  key_file = λ path. missing;
}

abbrev answers : Bool → Answers
answers session = record {
  files = no_files;
  agent = some 2;
  tcp = true;
  handshake = true;
  session = session;
  stdin = true;
  stdout = true;
}

abbrev calls : List Call
calls =
    connecting (answers true)
    ∷ refused_by_server
    ∷ disconnecting
    ∷ reconnecting (answers false)
    ∷ connecting (answers true)
    ∷ []

abbrev nothing : Open
nothing = record { connections = 0; sessions = 0 }

run-new-IsAccounted_example :
    IsAccounted (record { connections = 1; sessions = 1 }) (run calls (new_ssh_client "", nothing))
    × ((disconnect (run calls (new_ssh_client "", nothing))).1
        ≡ record { connections = 1; sessions = 1 })
unfolding run refusals connect disconnect reconnect new_ssh_client authentication mark_refused
run-new-IsAccounted_example = run-new-IsAccounted "" calls nothing
