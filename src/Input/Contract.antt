-- ===== src/Input/Contract.antt =====
-- internal/input/switch.go: what the rotation promises, by name instead of by index.
use waymon.Common.{String, Option, none, some, List, [], ◌∷◌, ◌++◌, str_eq, if◌then◌else◌}
use waymon.Common.Sort.{has}
use waymon.Input.Switch.{without}

-- The computers in order, and the selected one, which is there unless the list is empty.
pub record Rotation : Type 0 where
  pub names : List String
  pub selected : Option String

abbrev pub first_or : String → List String → String
first_or name [] = name
first_or name (c ∷ cs) = c

abbrev pub last_or : String → List String → String
last_or name [] = name
last_or name (c ∷ cs) = last_or c cs

-- The name that follows `here`, or `first` after the last one.
unfoldable pub successor : String → String → List String → String
successor first here [] = first
successor first here (c ∷ cs) = if str_eq c here then first_or first cs else successor first here cs

-- The name before `here`, or `before` where `here` is the first one.
unfoldable pub predecessor : String → String → List String → String
predecessor before here [] = before
predecessor before here (c ∷ cs) = if str_eq c here then before else predecessor c here cs

abbrev pub head? : List String → Option String
head? [] = none
head? (c ∷ cs) = some c

abbrev pub move_selected : (String → String) → Option String → Option String
move_selected move none = none
move_selected move (some here) = some (move here)

-- The selection moves within the names.
abbrev pub select : (List String → String → String) → Rotation → Rotation
select move r = record r { selected = move_selected (move r.names) r.selected }

unfoldable pub select_next : Rotation → Rotation
select_next = select (λ names here. successor (first_or here names) here names)

unfoldable pub select_previous : Rotation → Rotation
select_previous = select (λ names here. predecessor (last_or here names) here names)

-- A new name comes last; it is selected where it is the only one.
unfoldable pub add : String → Rotation → Rotation
add name r = if has name r.names then r else record {
  names = r.names ++ (name ∷ []);
  selected = elim r.selected [ none ↦ some name | some here ↦ some here ];
}

-- The selection stays with its name; the first name is selected where that one is gone.
abbrev pub keep : String → List String → Option String → Option String
keep name rest none = none
keep name rest (some here) = if str_eq name here then head? rest else some here

unfoldable pub remove : String → Rotation → Rotation
remove name r =
    if has name r.names
    then record {
      names = without name r.names;
      selected = keep name (without name r.names) r.selected;
    }
    else r
