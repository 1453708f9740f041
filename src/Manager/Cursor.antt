-- ===== src/Manager/Cursor.antt =====
-- internal/server/manager.go: the bounding box of a client's monitors, the main monitor, and the
-- cursor kept within the box.
use waymon.Common.{Bool, ◌&&◌, Option, none, some, List, [], ◌∷◌, if◌then◌else◌}
use waymon.Common.Int.{ℤ, pos, ◌+ℤ◌, eqb_ℤ, half_ℤ, int32}
use waymon.Float.{Float64}
use waymon.Proto.{Monitor}
use waymon.Manager.State.{Rect}

module _ (F : Float64) where
  open F use {Value, ltb, of_int}

  -- The rectangle of one monitor. The sums are int32 sums.
  unfoldable pub monitor_rect : Monitor Value → Rect Value
  monitor_rect m = record {
    min_x = of_int m.x;
    min_y = of_int m.y;
    max_x = of_int (int32 (m.x +ℤ m.width));
    max_y = of_int (int32 (m.y +ℤ m.height));
  }

  -- The body of the loop of `calculateTotalDisplayBounds`.
  unfoldable pub expand : Rect Value → Rect Value → Rect Value
  expand b r = record {
    min_x = if ltb r.min_x b.min_x then r.min_x else b.min_x;
    min_y = if ltb r.min_y b.min_y then r.min_y else b.min_y;
    max_x = if ltb b.max_x r.max_x then r.max_x else b.max_x;
    max_y = if ltb b.max_y r.max_y then r.max_y else b.max_y;
  }

  unfoldable pub expand_all : Rect Value → List (Monitor Value) → Rect Value
  expand_all b [] = b
  expand_all b (m ∷ ms) = expand_all (expand b (monitor_rect m)) ms

  unfoldable pub calculate_total_display_bounds : List (Monitor Value) → Rect Value
  calculate_total_display_bounds [] = record {
    min_x = of_int (pos 0);
    min_y = of_int (pos 0);
    max_x = of_int (pos 1920);
    max_y = of_int (pos 1080);
  }
  calculate_total_display_bounds (m ∷ ms) = expand_all (monitor_rect m) ms

  unfoldable pub constrain : Value → Value → Value → Value
  constrain v lo hi = if ltb v lo then lo else if ltb hi v then hi else v

  unfoldable pub constrain_cursor_position : Value → Value → Rect Value → Value × Value
  unfolding constrain
  constrain_cursor_position x y b = (constrain x b.min_x b.max_x, constrain y b.min_y b.max_y)

module _ {V : Type 0} where
  unfoldable pub find_primary : List (Monitor V) → Option (Monitor V)
  find_primary [] = none
  find_primary (m ∷ ms) = if m.primary then some m else find_primary ms

  abbrev pub at_origin : Monitor V → Bool
  at_origin m = eqb_ℤ m.x (pos 0) && eqb_ℤ m.y (pos 0)

  unfoldable pub find_at_origin : List (Monitor V) → Option (Monitor V)
  find_at_origin [] = none
  find_at_origin (m ∷ ms) = if at_origin m then some m else find_at_origin ms

  abbrev pub or_else : Option (Monitor V) → Option (Monitor V) → Option (Monitor V)
  or_else none o = o
  or_else (some m) o = some m

  abbrev pub first : List (Monitor V) → Option (Monitor V)
  first [] = none
  first (m ∷ ms) = some m

  unfoldable pub find_main_monitor : List (Monitor V) → Option (Monitor V)
  find_main_monitor ms = or_else (find_primary ms) (or_else (find_at_origin ms) (first ms))

  -- `monitor.X + (monitor.Width / 2)`, in int32.
  unfoldable pub center_x : Monitor V → ℤ
  center_x m = int32 (m.x +ℤ half_ℤ m.width)

  unfoldable pub center_y : Monitor V → ℤ
  center_y m = int32 (m.y +ℤ half_ℤ m.height)
