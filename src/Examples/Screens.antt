-- ===== src/Examples/Screens.antt =====
-- internal/display and the cursor of internal/server: two monitors side by side.
use waymon.Common.{◌≡◌, refl, true, false, some, [], ◌∷◌, All, arith}
use waymon.Common.Int.{ℤ, pos, negsuc, ◌+ℤ◌}
use waymon.Float.{whole, whole-IsIeee}
use waymon.Proto.{mouse_move}
use waymon.Proto
use waymon.Manager.State.{Rect, CursorState}
use waymon.Manager.Cursor.{calculate_total_display_bounds, monitor_rect}
use waymon.Manager.Switch.{initial_cursor}
use waymon.Manager.Route.{move_cursor}
use waymon.Manager.Bounds.{Encloses, total_bounds-Encloses}
use waymon.Manager.Confine.{IsTold, IsWithin, move_cursor-IsWithin, move_cursor_event}
use waymon.Manager.MainMonitor.{initial_cursor-IsWithin}
use waymon.Display.Monitor.{Monitor, get_edge, determine_primary_monitor, get_primary_monitor}
use waymon.Display.Edges.{IsEdgeAt, get_edge-IsEdgeAt}
use waymon.Display.Primary.{
  primaries, find_at_origin, primaries-determine_primary_monitor,
  get_primary_monitor-determine_primary_monitor,
}

abbrev left_screen : Proto.Monitor ℤ
left_screen = record {
  name = "DP-1";
  x = negsuc 1919;
  y = pos 0;
  width = pos 1920;
  height = pos 1080;
  primary = false;
  scale = pos 1;
  refresh_rate = pos 60;
}

abbrev right_screen : Proto.Monitor ℤ
right_screen = record left_screen { name = "DP-2"; x = pos 0 }

total_bounds-Encloses_example :
    All
      (λ n.
        Encloses whole
          (calculate_total_display_bounds whole (left_screen ∷ right_screen ∷ []))
          (monitor_rect whole n))
      (left_screen ∷ right_screen ∷ [])
unfolding ◌+ℤ◌
total_bounds-Encloses_example =
    total_bounds-Encloses whole whole-IsIeee left_screen (right_screen ∷ []) (omega arith)

abbrev box : Rect ℤ
box = record { min_x = pos 0; min_y = pos 0; max_x = pos 1920; max_y = pos 1080 }

abbrev cursor : CursorState ℤ
cursor = record { x = pos 1900; y = pos 500; bounds = box }

move_cursor-IsWithin_example :
    IsWithin whole (move_cursor whole (pos 400) (pos 4) cursor).0
    × ((move_cursor whole (pos 400) (pos 4) cursor).0.bounds ≡ box)
move_cursor-IsWithin_example =
    move_cursor-IsWithin whole whole-IsIeee (pos 400) (pos 4) cursor (refl, refl)

move_cursor_event_example :
    IsTold whole (pos 400) (pos 4) cursor (move_cursor whole (pos 400) (pos 4) cursor)
move_cursor_event_example = move_cursor_event whole (pos 400) (pos 4) cursor

initial_cursor-IsWithin_example :
    IsWithin whole (initial_cursor whole (left_screen ∷ right_screen ∷ []))
unfolding ◌+ℤ◌
initial_cursor-IsWithin_example =
    initial_cursor-IsWithin whole whole-IsIeee left_screen (right_screen ∷ []) (
      record {
        placed = omega arith;
        wide = omega arith;
        high = omega arith;
        right = omega arith;
        bottom = omega arith;
      },
      (
        record {
          placed = omega arith;
          wide = omega arith;
          high = omega arith;
          right = omega arith;
          bottom = omega arith;
        },
        tt,
      ),
    )

abbrev local : Monitor ℤ
local = record {
  id = "0";
  name = "eDP-1";
  x = pos 0;
  y = pos 0;
  width = pos 1920;
  height = pos 1080;
  primary = false;
  scale = pos 1;
}

abbrev beside : Monitor ℤ
beside = record local { id = "1"; x = pos 1920 }

get_edge-IsEdgeAt_example :
    IsEdgeAt
      (pos 1925)
      (pos 500)
      (pos 10)
      (local ∷ beside ∷ [])
      (get_edge (pos 1925) (pos 500) (pos 10) (local ∷ beside ∷ []))
unfolding ◌+ℤ◌
get_edge-IsEdgeAt_example =
    get_edge-IsEdgeAt (pos 1925) (pos 500) (pos 10) (local ∷ beside ∷ []) (omega arith)
      (omega arith)
      (
        record {
          x_fits = omega arith;
          y_fits = omega arith;
          wide = omega arith;
          high = omega arith;
          narrow = omega arith;
          low = omega arith;
          right_fits = omega arith;
          bottom_fits = omega arith;
        },
        (
          record {
            x_fits = omega arith;
            y_fits = omega arith;
            wide = omega arith;
            high = omega arith;
            narrow = omega arith;
            low = omega arith;
            right_fits = omega arith;
            bottom_fits = omega arith;
          },
          tt,
        ),
      )

primaries-determine_primary_monitor_example :
    primaries (determine_primary_monitor (beside ∷ local ∷ [])) ≡ 1
primaries-determine_primary_monitor_example =
    primaries-determine_primary_monitor (beside ∷ local ∷ [])

get_primary_monitor-determine_primary_monitor_example :
    get_primary_monitor (determine_primary_monitor (beside ∷ local ∷ []))
    ≡ some (record local { primary = true })
unfolding find_at_origin
get_primary_monitor-determine_primary_monitor_example =
    get_primary_monitor-determine_primary_monitor (beside ∷ local ∷ [])
