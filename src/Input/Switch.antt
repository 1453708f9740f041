-- ===== src/Input/Switch.antt =====
-- internal/input/switch.go: the rotation of computers by index, and the IPC handler over it.
-- The mutex makes methods run one at a time; log lines are left out, but not the list index that
-- they take, which panics out of range.
use waymon.Common.{
  ℕ, suc, ◌%◌, String, Bool, true, false, Option, none, some, List, [], ◌∷◌, ◌++◌, str_eq,
  if◌then◌else◌, length, get_elem?, leb, ◌&&◌,
}
use waymon.Common.Int.{ℤ, pos, negsuc, pos_part, ◌+ℤ◌, ◌-ℤ◌, int32, sub_ℕ, ltb_ℤ, leb_ℤ, eqb_ℤ}
use waymon.Common.Sort.{has}
use waymon.Manager.Rotation.{SwitchAction, next, previous, enable, disable, unspecified}

pub record SwitchManager : Type 0 where
  pub computers : List String
  pub current_computer : ℤ
  pub active : Bool
  pub connected : Bool
  pub server_host : String
  pub on_switch : Bool  -- whether the callback is set
  pub switches : List (ℤ × Bool)  -- its calls, the newest first

pub data Error : Type 0 where
  only_one unknown_action : Error

-- A switch returns, with the `error` where there is one, or panics on an index out of range.
pub data Outcome : Type 0 where
  done : SwitchManager → Option Error → Outcome
  panics : Outcome

unfoldable pub new_switch_manager : SwitchManager
new_switch_manager = record {
  computers = "server" ∷ [];
  current_computer = pos 0;
  active = false;
  connected = false;
  server_host = "";
  on_switch = false;
  switches = [];
}

unfoldable pub add_computer : String → SwitchManager → SwitchManager
add_computer name sm =
    if has name sm.computers then sm else record sm { computers = sm.computers ++ (name ∷ []) }

-- `filtered`
unfoldable pub without : String → List String → List String
without name [] = []
without name (c ∷ cs) = let rest = without name cs in if str_eq c name then rest else c ∷ rest

-- `removedIndex` after the loop from index `i` on; none is its -1.
unfoldable pub removed_index : String → ℕ → List String → Option ℕ → Option ℕ
removed_index name i [] found = found
removed_index name i (c ∷ cs) found =
    removed_index name (suc i) cs (if str_eq c name then some i else found)

-- `currentComputer` after the element at this index is gone.
unfoldable pub adjust_current : ℕ → ℤ → ℤ
adjust_current removed current =
    if eqb_ℤ (int32 (pos removed)) current
    then pos 0
    else if ltb_ℤ (int32 (pos removed)) current
    then int32 (current -ℤ pos 1)
    else current

-- What follows the loop.
unfoldable pub remove_at : String → Option ℕ → SwitchManager → SwitchManager
remove_at name none sm = sm
remove_at name (some i) sm = record sm {
  computers = without name sm.computers;
  current_computer = adjust_current i sm.current_computer;
}

unfoldable pub remove_computer : String → SwitchManager → SwitchManager
remove_computer name sm = remove_at name (removed_index name 0 sm.computers none) sm

unfoldable pub set_connection_state : Bool → String → SwitchManager → SwitchManager
set_connection_state connected host sm = record sm { connected = connected; server_host = host }

unfoldable pub set_active_state : Bool → SwitchManager → SwitchManager
set_active_state active sm = record sm { active = active }

unfoldable pub set_on_switch_callback : Bool → SwitchManager → SwitchManager
set_on_switch_callback callback sm = record sm { on_switch = callback }

-- A Go remainder by a positive divisor: it has the sign of the dividend.
abbrev pub rem_ℤ : ℤ → ℤ → ℤ
rem_ℤ (pos a) b = pos (a % pos_part b)
rem_ℤ (negsuc a) b = sub_ℕ 0 (suc a % pos_part b)

-- `sm.computers[i]`, none out of range.
unfoldable pub computer_at : ℤ → List String → Option String
computer_at (pos i) cs = get_elem? cs i
computer_at (negsuc i) cs = none

-- `int32(len(sm.computers))`
abbrev pub count : SwitchManager → ℤ
count sm = int32 (pos (length sm.computers))

unfoldable pub call_on_switch : SwitchManager → SwitchManager
call_on_switch sm =
    if sm.on_switch
    then record sm { switches = (sm.current_computer, sm.active) ∷ sm.switches }
    else sm

-- What the two switches share: the log line reads both names, then the callback runs.
unfoldable pub switched : Option String → Option String → SwitchManager → Outcome
switched (some before) (some after) sm = done (call_on_switch sm) none
switched (some before) none sm = panics
switched none after sm = panics

unfoldable pub switch_by : (ℤ → ℤ → ℤ) → SwitchManager → Outcome
switch_by move sm =
    let current = move sm.current_computer (count sm) in
    if leb (length sm.computers) 1
    then done sm (some only_one)
    else switched (computer_at sm.current_computer sm.computers) (computer_at current sm.computers)
        (record sm { current_computer = current })

unfoldable pub next_computer : ℤ → ℤ → ℤ
next_computer current n = rem_ℤ (int32 (current +ℤ pos 1)) n

unfoldable pub previous_computer : ℤ → ℤ → ℤ
previous_computer current n = rem_ℤ (int32 (int32 (current -ℤ pos 1) +ℤ n)) n

unfoldable pub switch_next : SwitchManager → Outcome
switch_next sm = switch_by next_computer sm

unfoldable pub switch_previous : SwitchManager → Outcome
switch_previous sm = switch_by previous_computer sm

-- `sm.computers[i]`, which is only taken in range.
abbrev pub name_at : Option String → String
name_at none = ""
name_at (some name) = name

unfoldable pub computer_name : ℤ → List String → String
computer_name i cs =
    if leb_ℤ (pos 0) i && ltb_ℤ i (pos (length cs)) then name_at (computer_at i cs) else "unknown"

unfoldable pub current_computer_name : SwitchManager → String
current_computer_name sm = computer_name sm.current_computer sm.computers

-- The fields of the status response.
pub record Status : Type 0 where
  pub active : Bool
  pub connected : Bool
  pub server_host : String
  pub current_computer : ℤ
  pub total_computers : ℤ
  pub computer_names : List String

unfoldable pub get_status : SwitchManager → Status
get_status sm = record {
  active = sm.active;
  connected = sm.connected;
  server_host = sm.server_host;
  current_computer = sm.current_computer;
  total_computers = count sm;
  computer_names = sm.computers;
}

-- The message that answers a command; `crashes` is a panic.
pub data Reply : Type 0 where
  status : Status → Reply
  failed : Error → Reply
  crashes : Reply

abbrev pub answer : SwitchManager → Outcome → SwitchManager × Reply
answer before (done sm none) = (sm, status (get_status sm))
answer before (done sm (some e)) = (sm, failed e)
answer before panics = (before, crashes)

-- `HandleSwitchCommand`
unfoldable pub handle_switch_command : SwitchAction → SwitchManager → SwitchManager × Reply
handle_switch_command next sm = answer sm (switch_next sm)
handle_switch_command previous sm = answer sm (switch_previous sm)
handle_switch_command enable sm = answer sm (done (set_active_state true sm) none)
handle_switch_command disable sm = answer sm (done (set_active_state false sm) none)
handle_switch_command unspecified sm = answer sm (done sm (some unknown_action))
