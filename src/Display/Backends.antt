-- ===== src/Display/Backends.antt =====
-- internal/display/monitor.go: New, which tries the backends in their order.
-- internal/display/wlr_output_management_backend.go: the monitors that the compositor reports. The
-- C code that asks it is a parameter: its answer is a negative error or the outputs. Their numbers
-- are int32 already.
use Prim.Native.String.{len}
use waymon.Common.{
  ℕ, suc, String, Bool, false, not, ◌&&◌, Option, none, some, List, [], ◌∷◌, str_eq, str_append,
  ltb, if◌then◌else◌,
}
use waymon.Common.Int.{ℤ}
use waymon.Display.Monitor.{Monitor, determine_primary_monitor}

pub record OutputInfo (V : Type 0) : Type 0 where
  pub name : String
  pub description : String
  pub enabled : Bool
  pub x : ℤ
  pub y : ℤ
  pub width : ℤ
  pub height : ℤ
  pub scale : V

module _ {V : Type 0} (itoa : ℕ → String) where
  -- "Use description as name if it's more descriptive"
  abbrev pub monitor_name : ℕ → OutputInfo V → String
  monitor_name i o =
      let name = if str_eq o.name "" then str_append "Unknown-" (itoa i) else o.name in
      if not (str_eq o.description "") && ltb (len name) (len o.description)
      then o.description
      else name

  abbrev pub monitor_of : ℕ → OutputInfo V → Monitor V
  monitor_of i o = record {
    id = itoa i;
    name = monitor_name i o;
    x = o.x;
    y = o.y;
    width = o.width;
    height = o.height;
    primary = false;
    scale = o.scale;
  }

  -- The loop over the outputs, from an index on.
  unfoldable pub enabled_monitors : ℕ → List (OutputInfo V) → List (Monitor V)
  enabled_monitors i [] = []
  enabled_monitors i (o ∷ os) =
      let rest = enabled_monitors (suc i) os in if o.enabled then monitor_of i o ∷ rest else rest

  -- `GetMonitors`; none is an error, of the C code or of no output.
  unfoldable pub get_monitors : Option (List (OutputInfo V)) → Option (List (Monitor V))
  unfolding enabled_monitors
  get_monitors none = none
  get_monitors (some []) = none
  get_monitors (some (o ∷ os)) = some (determine_primary_monitor (enabled_monitors 0 (o ∷ os)))

-- A backend as `New` sees it: its monitors, none an error.
pub record Backend (V : Type 0) : Type 0 where
  pub monitors : Option (List (Monitor V))

module _ {V : Type 0} where
  -- The first backend that can be created.
  unfoldable pub first_backend : List (Option (Backend V)) → Option (Backend V)
  first_backend [] = none
  first_backend (none ∷ backends) = first_backend backends
  first_backend (some b ∷ backends) = some b

  -- `New`: an error of the backend that was created is not made up for by the next one.
  unfoldable pub new_display : List (Option (Backend V)) → Option (List (Monitor V))
  unfolding first_backend
  new_display backends = elim (first_backend backends) [ none ↦ none | some b ↦ b.monitors ]
