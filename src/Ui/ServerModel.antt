-- ===== src/Ui/ServerModel.antt =====
-- internal/ui/server.go: ServerModel, the part of its `Update` that changes who has control. The
-- goroutines that a key starts are kept as the calls they make; the viewport, the styles and what is
-- drawn are left out.
use waymon.Common.{
  ℕ, ◌+◌, String, Bool, true, false, not, ◌&&◌, ◌||◌, Option, none, some, List, [], ◌∷◌, str_eq,
  get_elem?, is_some, if◌then◌else◌,
}
use waymon.Manager.State.{Platform, ClientManager, ConnectedClient, Error}
use waymon.Manager.Switch
use waymon.Manager.Rotation.{get_connected_clients, get_active_client}
use waymon.Ui.Base.{BaseUi, add_log_entry, initiate_shutdown}

-- The calls of the goroutines.
pub data Call : Type 0 where
  calls_switch_to_local : Call
  calls_switch_to_client : String → Call

module _ (P : Platform) where
  open P use {float}

  pub record ServerModel : Type 0 where
    pub base : BaseUi
    pub client_manager : Option (ClientManager P)
    pub clients : List (ConnectedClient float.Value)
    pub active_client : Option (ConnectedClient float.Value)
    pub local_control : Bool
    pub pending_auth : Option String  -- the address of the client
    pub answers : List Bool  -- what was offered to `authChannel`, the newest first
    pub selected_client_index : Option ℕ  -- none is -1
    pub calls : List Call  -- the goroutines, the newest first
    pub refreshes : ℕ  -- how many delayed refreshes have been scheduled

  unfoldable pub new_server_model : BaseUi → ServerModel
  new_server_model base = record {
    base = base;
    client_manager = none;
    clients = [];
    active_client = none;
    local_control = true;
    pending_auth = none;
    answers = [];
    selected_client_index = none;
    calls = [];
    refreshes = 0;
  }

  abbrev pub log : ℕ → String → List String → ServerModel → ServerModel
  log now level message m = record m {
    base = add_log_entry (record { timestamp = now; level = level; message = message }) m.base;
  }

  unfoldable pub refresh_client_list : ServerModel → ServerModel
  refresh_client_list m = elim m.client_manager [
    | none ↦ m
    | some cm ↦ record m {
      clients = get_connected_clients P cm;
      active_client = get_active_client P cm;
      local_control = not (is_some (get_active_client P cm));
    }
  ]

  unfoldable pub set_client_manager : ClientManager P → ServerModel → ServerModel
  unfolding refresh_client_list
  set_client_manager cm m = refresh_client_list (record m { client_manager = some cm })

  -- "Update state immediately"
  abbrev pub show_local : ServerModel → ServerModel
  show_local m = record m {
    local_control = true;
    selected_client_index = none;
    active_client = none;
  }

  -- The keys "0" and "esc".
  unfoldable pub key_local : ℕ → ServerModel → ServerModel
  key_local now m =
      let shown =
        log now "info" ("Released client control - now controlling local system" ∷ [])
          (show_local (record m { calls = calls_switch_to_local ∷ m.calls })) in
      if is_some m.client_manager then record shown { refreshes = m.refreshes + 1 } else m

  abbrev pub switched : ℕ → ClientManager P × Option Error → ServerModel → ServerModel
  switched now (cm, some e) m =
      log now "error" ("Failed to switch to next client" ∷ [])
        (record m { client_manager = some cm })
  switched now (cm, none) m = refresh_client_list (
      log now "info" ("Switched to next client" ∷ [])
        (record m { client_manager = some cm; local_control = false }))

  -- The key "tab", whose call of the manager is not in a goroutine.
  unfoldable pub key_tab : ℕ → ServerModel → ServerModel
  unfolding refresh_client_list
  key_tab now m = elim m.client_manager [
    | none ↦ m
    | some cm ↦ switched now (Switch.switch_to_next_client P now cm) m
  ]

  abbrev pub select : ℕ → ℕ → ConnectedClient float.Value → ServerModel → ServerModel
  select now index c m =
      record (log now "info" ("Switching to control" ∷ c.name ∷ c.address ∷ []) m) {
        calls = calls_switch_to_client c.id ∷ m.calls;
        local_control = false;
        selected_client_index = some index;
        active_client = some c;
        refreshes = m.refreshes + 1;
      }

  -- The keys "1" to "5", by the index that they stand for.
  unfoldable pub key_client : ℕ → ℕ → ServerModel → ServerModel
  key_client now index m = elim (get_elem? m.clients index) [
    | none ↦ log now "debug" ("Key pressed but conditions not met" ∷ []) m
    | some c ↦
        if is_some m.client_manager
        then select now index c (log now "debug" ("Key pressed" ∷ c.name ∷ []) m)
        else log now "debug" ("Key pressed but conditions not met" ∷ []) m
  ]

  -- The keys "r" and "R".
  unfoldable pub key_release : ServerModel → ServerModel
  key_release m =
      if is_some m.client_manager && not m.local_control
      then show_local (record m { calls = calls_switch_to_local ∷ m.calls })
      else m

  -- The keys while an authentication is pending; any other is ignored.
  abbrev pub answer : ℕ → Bool → String → String → ServerModel → ServerModel
  answer now approved text addr m =
      log now "info" (text ∷ addr ∷ [])
        (record m { pending_auth = none; answers = approved ∷ m.answers })

  unfoldable pub key_auth : ℕ → String → String → ServerModel → ServerModel
  key_auth now k addr m =
      if str_eq k "y" || str_eq k "Y"
      then answer now true "Approved connection from" addr m
      else if str_eq k "n" || str_eq k "N"
      then answer now false "Denied connection from" addr m
      else m

  abbrev pub is_active : String → Option (ConnectedClient float.Value) → Bool
  is_active addr none = false
  is_active addr (some c) = str_eq c.address addr

  -- `ClientDisconnectedMsg`
  unfoldable pub client_disconnected : ℕ → String → ServerModel → ServerModel
  unfolding refresh_client_list
  client_disconnected now addr m =
      let logged = log now "info" ("Client disconnected" ∷ addr ∷ []) m in
      refresh_client_list (
        if is_active addr m.active_client
        then log now "info" ("Active client disconnected - switched to local control" ∷ [])
            (show_local logged)
        else logged)

  -- The keys without a pending authentication; those that only scroll are left out.
  unfoldable pub key_control : ℕ → String → ServerModel → ServerModel
  unfolding key_local key_tab key_client key_release
  key_control now k m =
      if str_eq k "0" || str_eq k "esc"
      then key_local now m
      else if str_eq k "tab"
      then key_tab now m
      else if str_eq k "1"
      then key_client now 0 m
      else if str_eq k "2"
      then key_client now 1 m
      else if str_eq k "3"
      then key_client now 2 m
      else if str_eq k "4"
      then key_client now 3 m
      else if str_eq k "5"
      then key_client now 4 m
      else if str_eq k "r" || str_eq k "R"
      then key_release m
      else m

  abbrev pub quit : ℕ → ServerModel → ServerModel
  quit now m = record m { base = (initiate_shutdown now m.base).0 }

  -- `case tea.KeyMsg`: quitting comes first, then the authentication. `BaseModel` has handled
  -- "ctrl+c" before, which shuts down as well.
  unfoldable pub update_key : ℕ → String → ServerModel → ServerModel
  unfolding key_control key_auth
  update_key now k m =
      if str_eq k "ctrl+c"
      then quit now m
      else if m.base.is_shutting_down
      then m
      else if str_eq k "q"
      then quit now m
      else elim m.pending_auth [ none ↦ key_control now k m | some addr ↦ key_auth now k addr m ]
