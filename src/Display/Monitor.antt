-- ===== src/Display/Monitor.antt =====
-- internal/display/monitor.go: Monitor, Display and Edge. Coordinates are int32; a sum or a
-- difference wraps.
use waymon.Common.{
  String, Bool, true, false, ◌&&◌, Option, none, some, List, [], ◌∷◌, if◌then◌else◌,
}
use waymon.Common.Int.{ℤ, pos, ◌+ℤ◌, ◌-ℤ◌, ltb_ℤ, leb_ℤ, eqb_ℤ, int32}

-- `V` is the type of the `float64` scale.
pub record Monitor (V : Type 0) : Type 0 where
  pub id : String
  pub name : String
  pub x : ℤ
  pub y : ℤ
  pub width : ℤ
  pub height : ℤ
  pub primary : Bool
  pub scale : V

pub data Edge : Type 0 where
  edge_none edge_left edge_right edge_top edge_bottom : Edge

-- `String`
abbrev pub edge_string : Edge → String
edge_string edge_left = "left"
edge_string edge_right = "right"
edge_string edge_top = "top"
edge_string edge_bottom = "bottom"
edge_string edge_none = "none"

module _ {V : Type 0} where
  abbrev pub right : Monitor V → ℤ
  right m = int32 (m.x +ℤ m.width)

  abbrev pub bottom : Monitor V → ℤ
  bottom m = int32 (m.y +ℤ m.height)

  -- `Contains`
  unfoldable pub contains : ℤ → ℤ → Monitor V → Bool
  contains x y m = (leb_ℤ m.x x && ltb_ℤ x (right m)) && (leb_ℤ m.y y && ltb_ℤ y (bottom m))

  unfoldable pub get_monitor_at : ℤ → ℤ → List (Monitor V) → Option (Monitor V)
  get_monitor_at x y [] = none
  get_monitor_at x y (m ∷ ms) = if contains x y m then some m else get_monitor_at x y ms

  -- The tests of `GetEdge`, once the monitor is found. The differences wrap.
  unfoldable pub edge_of : ℤ → ℤ → ℤ → Monitor V → Edge
  edge_of x y threshold m =
      if ltb_ℤ (int32 (x -ℤ m.x)) threshold
      then edge_left
      else if ltb_ℤ (int32 (right m -ℤ x)) threshold
      then edge_right
      else if ltb_ℤ (int32 (y -ℤ m.y)) threshold
      then edge_top
      else if ltb_ℤ (int32 (bottom m -ℤ y)) threshold
      then edge_bottom
      else edge_none

  abbrev pub edge_on : ℤ → ℤ → ℤ → Option (Monitor V) → Edge
  edge_on x y threshold none = edge_none
  edge_on x y threshold (some m) = edge_of x y threshold m

  unfoldable pub get_edge : ℤ → ℤ → ℤ → List (Monitor V) → Edge
  get_edge x y threshold ms = edge_on x y threshold (get_monitor_at x y ms)

  unfoldable pub get_primary : List (Monitor V) → Option (Monitor V)
  get_primary [] = none
  get_primary (m ∷ ms) = if m.primary then some m else get_primary ms

  -- `GetPrimaryMonitor`
  unfoldable pub get_primary_monitor : List (Monitor V) → Option (Monitor V)
  get_primary_monitor ms = elim (get_primary ms) [
    | some m ↦ some m
    | none ↦ elim ms [ [] ↦ none | m ∷ rest ↦ some m ]
  ]

  abbrev pub at_origin : Monitor V → Bool
  at_origin m = eqb_ℤ m.x (pos 0) && eqb_ℤ m.y (pos 0)

  abbrev pub set_primary : Bool → Monitor V → Monitor V
  set_primary b m = record m { primary = b }

  -- The first loop of `determinePrimaryMonitor`.
  unfoldable pub reset_primary : List (Monitor V) → List (Monitor V)
  reset_primary [] = []
  reset_primary (m ∷ ms) = set_primary false m ∷ reset_primary ms

  -- The second loop: the new list, and `primarySet`.
  unfoldable pub mark_origin : List (Monitor V) → List (Monitor V) × Bool
  mark_origin [] = ([], false)
  mark_origin (m ∷ ms) =
      let (rest, set) = mark_origin ms in
      if at_origin m then (set_primary true m ∷ ms, true) else (m ∷ rest, set)

  unfoldable pub mark_first : List (Monitor V) → List (Monitor V)
  mark_first [] = []
  mark_first (m ∷ ms) = set_primary true m ∷ ms

  unfoldable pub determine_primary_monitor : List (Monitor V) → List (Monitor V)
  unfolding reset_primary mark_origin mark_first
  determine_primary_monitor ms =
      let (marked, set) = mark_origin (reset_primary ms) in
      if set then marked else mark_first marked
