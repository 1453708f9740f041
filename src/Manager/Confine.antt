-- ===== src/Manager/Confine.antt =====
-- internal/server/manager.go: the cursor that the server tracks stays within the client's monitors.
use waymon.Common.{◌≡◌, refl, true, false, Option, none, some, arith, ◌⊎◌, ◌&&◌}
use waymon.Float.{Float64, IsIeee}
use waymon.Proto.{Event, mouse_move}
use waymon.Manager.State.{Rect, CursorState}
use waymon.Manager.Cursor.{constrain, constrain_cursor_position}
use waymon.Manager.Route.{move_cursor}

module _ (F : Float64) where
  open F use {Value, add, sub, ltb, eqb, zero}

  -- Neither side of the box lies beyond the opposite one.
  abbrev pub IsProper : Rect Value → Type 0
  IsProper b = (ltb b.max_x b.min_x ≡ false) × (ltb b.max_y b.min_y ≡ false)

  -- The position is not outside of the box.
  abbrev pub IsWithin : CursorState Value → Type 0
  IsWithin c =
      (ltb c.x c.bounds.min_x ≡ false)
      × (ltb c.bounds.max_x c.x ≡ false)
      × (ltb c.y c.bounds.min_y ≡ false)
      × (ltb c.bounds.max_y c.y ≡ false)

  module _ (ieee : IsIeee F) where
    pub constrain_bounds :
        (v lo hi : Value)
        → ltb hi lo ≡ false
        → (ltb (constrain F v lo hi) lo ≡ false) × (ltb hi (constrain F v lo hi) ≡ false)
    unfolding constrain
    constrain_bounds v lo hi h = ground (arith, ieee.ltb_irrefl lo, ieee.ltb_irrefl hi)

    -- Where comparison is that of IEEE 754, a move, however large, leaves a tracked cursor whose
    -- bounds are proper within them, and the bounds as they were.
    pub move_cursor-IsWithin :
        (dx dy : Value) (c : CursorState Value)
        → IsProper c.bounds
        → IsWithin (move_cursor F dx dy c).0 × ((move_cursor F dx dy c).0.bounds ≡ c.bounds)
    unfolding move_cursor constrain_cursor_position
    move_cursor-IsWithin dx dy c h =
        let (left, right) = constrain_bounds (add c.x dx) c.bounds.min_x c.bounds.max_x h.0 in
        let (up, down) = constrain_bounds (add c.y dy) c.bounds.min_y c.bounds.max_y h.1 in
        ((left, right, up, down), refl)

  -- What an event says of a move: the move itself, the difference of the positions, or nothing.
  abbrev pub IsTold :
      Value → Value → CursorState Value → CursorState Value × Option (Event Value) → Type 0
  IsTold dx dy c (moved, event) =
      ((eqb (add c.x dx) moved.x && eqb (add c.y dy) moved.y ≡ true)
        × (event ≡ some (mouse_move dx dy)))
      ⊎ (((eqb (add c.x dx) moved.x && eqb (add c.y dy) moved.y ≡ false)
            × (eqb (sub moved.x c.x) zero && eqb (sub moved.y c.y) zero ≡ false)
            × (event ≡ some (mouse_move (sub moved.x c.x) (sub moved.y c.y))))
          ⊎ ((eqb (add c.x dx) moved.x && eqb (add c.y dy) moved.y ≡ false)
              × (eqb (sub moved.x c.x) zero && eqb (sub moved.y c.y) zero ≡ true)
              × (event ≡ none)))

  -- What the client is told is what the cursor did: the move itself where the bounds do not cut
  -- it; where they do, the difference of the two positions if it is not zero, and nothing if it is.
  pub move_cursor_event :
      (dx dy : Value) (c : CursorState Value) → IsTold dx dy c (move_cursor F dx dy c)
  unfolding move_cursor
  move_cursor_event dx dy c = ground arith
