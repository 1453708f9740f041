-- ===== src/Manager/Rotation.antt =====
-- internal/server/manager.go: the rotation over the sorted clients and the local system, and the
-- two IPC handlers. The lock that is dropped and taken again between two calls lets other calls
-- in; here nothing comes between.
use waymon.Common.{
  ℕ, suc, zero, ◌+◌, ◌-◌, ◌%◌, String, Bool, true, not, ◌&&◌, Option, none, some, List, [], ◌∷◌,
  map, str_eq, if◌then◌else◌, length, get_elem?, ◌==◌,
}
use waymon.Common.Assoc.{lookup, keys}
use waymon.Common.Int.{ℤ, pos, int32}
use waymon.Common.Sort.{sort_strings}
use waymon.Manager.State.{
  Platform, ClientManager, ConnectedClient, Error, no_clients, unknown_action,
}
use waymon.Manager.Switch.{switch_to_client, switch_to_local, switch_to_local_internal, index_of}

-- internal/proto: `SwitchAction`, and the status that answers a command.
pub data SwitchAction : Type 0 where
  next previous enable disable unspecified : SwitchAction

pub record StatusResponse : Type 0 where
  pub active : Bool
  pub connected : Bool
  pub server_host : String
  pub current_computer : ℤ
  pub total_computers : ℤ
  pub computer_names : List String

pub data Reply : Type 0 where
  status : StatusResponse → Reply
  failed : Error → Reply

module _ (P : Platform) where
  open P use {float}

  unfoldable pub sorted_ids : ClientManager P → List String
  sorted_ids cm = sort_strings (keys cm.clients)

  -- "Switch to" the client at this place of the sorted list, or to local where there is none.
  unfoldable pub switch_to_place :
      ℕ → List String → ℕ → ClientManager P → ClientManager P × Option Error
  switch_to_place now ids i cm = elim (get_elem? ids i) [
    | none ↦ switch_to_local_internal P now cm
    | some id ↦ switch_to_client P now id cm
  ]

  -- `(currentIndex + 1) % (len(clientIDs) + 1)`; the length itself stands for local.
  unfoldable pub next_place : List String → ℕ → ℕ
  next_place ids i = (i + 1) % (length ids + 1)

  -- `currentIndex - 1`, where -1 stands for local.
  unfoldable pub previous_place : List String → ℕ → ℕ
  previous_place ids zero = length ids
  previous_place ids (suc i) = i

  -- What follows the search for the active client: to the place that `move` gives for its index,
  -- or to local where it is not found.
  unfoldable pub move_from :
      ℕ → List String → (ℕ → ℕ) → Option ℕ → ClientManager P → ClientManager P × Option Error
  move_from now ids move none cm = switch_to_local_internal P now cm
  move_from now ids move (some i) cm = switch_to_place now ids (move i) cm

  unfoldable pub switch_to_next_client_or_local :
      ℕ → ClientManager P → ClientManager P × Option Error
  unfolding move_from
  switch_to_next_client_or_local now cm =
      let ids = sorted_ids cm in
      if length ids == 0
      then switch_to_local_internal P now cm
      else if cm.controlling_local
      then switch_to_place now ids 0 cm
      else move_from now ids (next_place ids) (index_of cm.active_client_id ids) cm

  unfoldable pub switch_to_previous_client_or_local :
      ℕ → ClientManager P → ClientManager P × Option Error
  unfolding move_from
  switch_to_previous_client_or_local now cm =
      let ids = sorted_ids cm in
      if length ids == 0
      then switch_to_local_internal P now cm
      else if cm.controlling_local
      then switch_to_place now ids (length ids - 1) cm
      else move_from now ids (previous_place ids) (index_of cm.active_client_id ids) cm

  -- The loop of `HandleStatusQuery`, from place `i` on: names, and the place of the active client.
  unfoldable pub computer_names : List String → ClientManager P → List String
  computer_names [] cm = []
  computer_names (id ∷ ids) cm =
      elim (lookup id cm.clients) [ none ↦ "" | some c ↦ c.name ] ∷ computer_names ids cm

  unfoldable pub current_index : List String → ℕ → ℤ → ClientManager P → ℤ
  current_index [] i found cm = found
  current_index (id ∷ ids) i found cm =
      current_index ids (i + 1)
        (if not cm.controlling_local && str_eq id cm.active_client_id
          then int32 (pos (i + 1))
          else found)
        cm

  unfoldable pub handle_status_query : ClientManager P → StatusResponse
  handle_status_query cm =
      let ids = sorted_ids cm in
      let names = "server" ∷ computer_names ids cm in
      record {
        active = not cm.controlling_local;
        connected = true;
        server_host = "localhost";
        current_computer = current_index ids 0 (pos 0) cm;
        total_computers = int32 (pos (length names));
        computer_names = names;
      }

  -- The answer after a switch.
  abbrev pub answer : ClientManager P × Option Error → ClientManager P × Reply
  answer (cm, none) = (cm, status (handle_status_query cm))
  answer (cm, some e) = (cm, failed e)

  -- `ENABLE` switches to the first client that `GetConnectedClients` happens to list.
  unfoldable pub enable_first :
      ℕ
      → List (String × ConnectedClient float.Value)
      → ClientManager P
      → ClientManager P × Option Error
  enable_first now [] cm = (cm, some no_clients)
  enable_first now ((key, c) ∷ es) cm = switch_to_client P now c.id cm

  unfoldable pub enable_sharing : ℕ → ClientManager P → ClientManager P × Option Error
  unfolding enable_first
  enable_sharing now cm = enable_first now cm.clients cm

  unfoldable pub handle_switch_command :
      ℕ → SwitchAction → ClientManager P → ClientManager P × Reply
  handle_switch_command now next cm = answer (switch_to_next_client_or_local now cm)
  handle_switch_command now previous cm = answer (switch_to_previous_client_or_local now cm)
  handle_switch_command now enable cm = answer (enable_sharing now cm)
  handle_switch_command now disable cm = answer (switch_to_local P now cm)
  handle_switch_command now unspecified cm = (cm, failed unknown_action)

  unfoldable pub get_connected_clients : ClientManager P → List (ConnectedClient float.Value)
  get_connected_clients cm = map (λ e. e.1) cm.clients

  unfoldable pub get_active_client : ClientManager P → Option (ConnectedClient float.Value)
  get_active_client cm =
      if str_eq cm.active_client_id "" then none else lookup cm.active_client_id cm.clients
