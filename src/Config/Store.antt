-- ===== src/Config/Store.antt =====
-- internal/config/config.go: the configuration in memory, its hosts and its list of SSH keys.
-- `cfg` points to what `Init` read, and `Get` to `DefaultConfig` where there is nothing yet, so
-- that the functions below change whichever of the two is in force. `viper.Set` followed by `Save`
-- is a parameter: whether it succeeded. It comes after the change in memory, which stays either way.
use waymon.Common.{
  String, Bool, true, false, Option, none, some, List, [], ◌∷◌, ◌++◌, str_eq, if◌then◌else◌,
}
use waymon.Common.Int.{ℤ}
use waymon.Common.Sort.{has}

pub record HostConfig : Type 0 where
  pub name : String
  pub address : String
  pub position : String

pub record EdgeMapping : Type 0 where
  pub monitor_id : String
  pub edge : String
  pub host : String
  pub description : String

pub record ServerConfig : Type 0 where
  pub port : ℤ
  pub bind_address : String
  pub name : String
  pub max_clients : ℤ
  pub ssh_host_key_path : String
  pub ssh_auth_keys_path : String
  pub ssh_whitelist : List String
  pub ssh_whitelist_only : Bool

pub record ClientConfig : Type 0 where
  pub server_address : String
  pub auto_connect : Bool
  pub reconnect_delay : ℤ
  pub edge_threshold : ℤ
  pub screen_position : String
  pub edge_mappings : List EdgeMapping
  pub hotkey_modifier : String
  pub hotkey_key : String
  pub ssh_private_key : String

pub record LoggingConfig : Type 0 where
  pub file_logging : Bool
  pub log_level : String

pub record Config : Type 0 where
  pub server : ServerConfig
  pub client : ClientConfig
  pub logging : LoggingConfig
  pub hosts : List HostConfig

-- The globals `cfg` and `DefaultConfig`.
pub record Store : Type 0 where
  pub current : Option Config
  pub default : Config

pub data Error : Type 0 where
  save_failed already_whitelisted key_not_found : Error
  host_not_found : String → Error

unfoldable pub get : Store → Config
get store = elim store.current [ none ↦ store.default | some c ↦ c ]

unfoldable pub set : Config → Store → Store
set c store = record store { current = some c }

-- A change through the pointer that `Get` returns.
unfoldable pub change : (Config → Config) → Store → Store
change f store = elim store.current [
  | none ↦ record store { default = f store.default }
  | some c ↦ record store { current = some (f c) }
]

abbrev pub saved : Bool → Option Error
saved true = none
saved false = some save_failed

unfoldable pub set_hosts : List HostConfig → Store → Store
set_hosts hosts store = change (λ c. record c { hosts = hosts }) store

unfoldable pub set_whitelist : List String → Store → Store
set_whitelist keys store =
    change (λ c. record c { server = record c.server { ssh_whitelist = keys } }) store

-- The first host of that name is replaced, or none where there is no such host.
unfoldable pub replace_host : HostConfig → List HostConfig → Option (List HostConfig)
replace_host host [] = none
replace_host host (h ∷ hs) =
    let rest = replace_host host hs in
    if str_eq h.name host.name
    then some (host ∷ hs)
    else elim rest [ none ↦ none | some hs' ↦ some (h ∷ hs') ]

-- The hosts after `AddHost`.
abbrev pub replaced_or_added :
    HostConfig → List HostConfig → Option (List HostConfig) → List HostConfig
replaced_or_added host hs none = hs ++ (host ∷ [])
replaced_or_added host hs (some replaced) = replaced

unfoldable pub add_host : Bool → HostConfig → Store → Store × Option Error
add_host save host store =
    let hosts = (get store).hosts in
    (set_hosts (replaced_or_added host hosts (replace_host host hosts)) store, saved save)

unfoldable pub drop_host : String → List HostConfig → Option (List HostConfig)
drop_host name [] = none
drop_host name (h ∷ hs) =
    let rest = drop_host name hs in
    if str_eq h.name name then some hs else elim rest [ none ↦ none | some hs' ↦ some (h ∷ hs') ]

unfoldable pub remove_host : Bool → String → Store → Store × Option Error
remove_host save name store = elim (drop_host name (get store).hosts) [
  | none ↦ (store, some (host_not_found name))
  | some hosts ↦ (set_hosts hosts store, saved save)
]

unfoldable pub find_host : String → List HostConfig → Option HostConfig
find_host name [] = none
find_host name (h ∷ hs) = if str_eq h.name name then some h else find_host name hs

-- `GetHost`; none is its error.
unfoldable pub get_host : String → Store → Option HostConfig
get_host name store = find_host name (get store).hosts

unfoldable pub list_hosts : Store → List HostConfig
list_hosts store = (get store).hosts

-- `UpdateServer` and `UpdateClient` write through `cfg` itself: none is the panic where it is nil.
unfoldable pub update_server : Bool → ServerConfig → Store → Option (Store × Option Error)
update_server save server store = elim store.current [
  | none ↦ none
  | some c ↦ some (record store { current = some (record c { server = server }) }, saved save)
]

unfoldable pub update_client : Bool → ClientConfig → Store → Option (Store × Option Error)
update_client save client store = elim store.current [
  | none ↦ none
  | some c ↦ some (record store { current = some (record c { client = client }) }, saved save)
]

unfoldable pub whitelist : Store → List String
whitelist store = (get store).server.ssh_whitelist

unfoldable pub is_ssh_key_whitelisted : String → Store → Bool
is_ssh_key_whitelisted fingerprint store = has fingerprint (whitelist store)

unfoldable pub add_ssh_key_to_whitelist : Bool → String → Store → Store × Option Error
add_ssh_key_to_whitelist save fingerprint store =
    if has fingerprint (whitelist store)
    then (store, some already_whitelisted)
    else (set_whitelist (whitelist store ++ (fingerprint ∷ [])) store, saved save)

-- The list without the first such key.
unfoldable pub drop_key : String → List String → Option (List String)
drop_key key [] = none
drop_key key (k ∷ ks) =
    let rest = drop_key key ks in
    if str_eq k key then some ks else elim rest [ none ↦ none | some ks' ↦ some (k ∷ ks') ]

unfoldable pub remove_ssh_key_from_whitelist : Bool → String → Store → Store × Option Error
remove_ssh_key_from_whitelist save fingerprint store =
    elim (drop_key fingerprint (whitelist store)) [
      | none ↦ (store, some key_not_found)
      | some keys ↦ (set_whitelist keys store, saved save)
    ]
