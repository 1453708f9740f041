-- ===== src/Manager/MainMonitor.antt =====
-- internal/server/manager.go: the main monitor, and the cursor that starts at its centre.
use waymon.Common.{
  ◌≡◌, ◌≢◌, refl, sym, ◌∙◌, subst, false, Option, none, some, List, [], ◌∷◌, arith, All, ◌^◌, ◌-◌,
  ◌/◌, if_elim,
}
use waymon.Common.Int.{ℤ, pos, negsuc, ◌≤ℤ◌, ◌+ℤ◌, half_ℤ, int32, int32_exact, InInt32, +ℤ_parts}
use waymon.Float.{Float64, IsIeee}
use waymon.Proto.{Monitor}
use waymon.Manager.State.{Rect}
use waymon.Manager.Cursor.{
  find_primary, find_at_origin, find_main_monitor, at_origin, or_else, first, center_x, center_y,
}
use waymon.Manager.Switch.{cursor_at, initial_cursor}
use waymon.Manager.Bounds.{
  int_rect, IsPlaced, InRange, Covers, float_rect, total_bounds-float_rect, int_expand_all,
  int_expand_all-Covers,
}
use waymon.Manager.Confine.{IsWithin}

module _ {V : Type 0} where
  -- A monitor with a size, whose far corner is an int32 too.
  pub record IsSound (m : Monitor V) : Type 0 where
    pub placed : IsPlaced m
    pub wide : pos 0 ≤ℤ m.width
    pub high : pos 0 ≤ℤ m.height
    pub right : m.x +ℤ m.width ≤ℤ pos (2 ^ 31 - 1)
    pub bottom : m.y +ℤ m.height ≤ℤ pos (2 ^ 31 - 1)

  abbrev pub Found : (Monitor V → Type 0) → Option (Monitor V) → Type 0
  Found Q none = Unit
  Found Q (some m) = Q m

  module _ (Q : Monitor V → Type 0) where
    find_primary-Found : (ms : List (Monitor V)) → All Q ms → Found Q (find_primary ms)
    unfolding find_primary
    find_primary-Found [] h = tt
    find_primary-Found (n ∷ ms) h =
        if_elim (Found Q) n.primary (λ _. h.0) (λ _. find_primary-Found ms h.1)

    find_at_origin-Found : (ms : List (Monitor V)) → All Q ms → Found Q (find_at_origin ms)
    unfolding find_at_origin
    find_at_origin-Found [] h = tt
    find_at_origin-Found (n ∷ ms) h =
        if_elim (Found Q) (at_origin n) (λ _. h.0) (λ _. find_at_origin-Found ms h.1)

    first-Found : (ms : List (Monitor V)) → All Q ms → Found Q (first ms)
    first-Found [] h = tt
    first-Found (n ∷ ms) h = h.0

    or_else-Found : (a b : Option (Monitor V)) → Found Q a → Found Q b → Found Q (or_else a b)
    or_else-Found none b h k = k
    or_else-Found (some m) b h k = h

    -- What holds of every monitor holds of the main one.
    pub find_main_monitor-Found :
        (ms : List (Monitor V)) → All Q ms → Found Q (find_main_monitor ms)
    unfolding find_main_monitor
    find_main_monitor-Found ms h =
        or_else-Found (find_primary ms) (or_else (find_at_origin ms) (first ms))
          (find_primary-Found ms h)
          (or_else-Found (find_at_origin ms) (first ms) (find_at_origin-Found ms h)
            (first-Found ms h))

  -- Where there are monitors there is a main one.
  pub find_main_monitor-ne-none :
      (m : Monitor V) (ms : List (Monitor V)) → find_main_monitor (m ∷ ms) ≢ none
  unfolding find_main_monitor
  find_main_monitor-ne-none m ms e = ground arith

abbrev IsBetween : ℤ → ℤ → ℤ → Type 0
IsBetween lo z hi = (lo ≤ℤ z) × (z ≤ℤ hi)

-- Half of a length, added to an int32, where the whole length does not overflow.
half_ℤ-IsBetween :
    (x w : ℤ)
    → InInt32 x
    → pos 0 ≤ℤ w
    → x +ℤ w ≤ℤ pos (2 ^ 31 - 1)
    → InInt32 (x +ℤ half_ℤ w) × InInt32 (x +ℤ w) × IsBetween x (x +ℤ half_ℤ w) (x +ℤ w)
half_ℤ-IsBetween x (pos n) hx hw hs = omega (arith, +ℤ_parts x (pos n), +ℤ_parts x (pos (n / 2)))
half_ℤ-IsBetween x (negsuc n) hx hw hs = absurd (omega arith)

center-IsBetween :
    (x w : ℤ)
    → InInt32 x
    → pos 0 ≤ℤ w
    → x +ℤ w ≤ℤ pos (2 ^ 31 - 1)
    → InInt32 (int32 (x +ℤ half_ℤ w)) × IsBetween x (int32 (x +ℤ half_ℤ w)) (int32 (x +ℤ w))
center-IsBetween x w hx hw hs =
    let (half, all, between) = half_ℤ-IsBetween x w hx hw hs in
    rw (int32_exact (x +ℤ half_ℤ w) half, int32_exact (x +ℤ w) all) (half, between)

-- The centre of the main monitor, in float coordinates, is within the box of all monitors.
module _ (F : Float64) (ieee : IsIeee F) where
  within_side :
      (a lo hi z up : ℤ)
      → InInt32 z
      → InInt32 lo
      → InInt32 hi
      → lo ≤ℤ a
      → up ≤ℤ hi
      → IsBetween a z up
      → (F.ltb (F.of_int z) (F.of_int lo) ≡ false) × (F.ltb (F.of_int hi) (F.of_int z) ≡ false)
  within_side a lo hi z up hz hlo hhi low high b =
      (ieee.ltb-of_int z lo hz hlo ∙ ground arith, ieee.ltb-of_int hi z hhi hz ∙ ground arith)

  -- What holds of a monitor that the box covers: its centre is in the box.
  center-IsWithin :
      (b : Rect ℤ) (m : Monitor F.Value)
      → InRange b
      → IsSound m
      → Covers b (int_rect m)
      → IsWithin F
          (record { x = F.of_int (center_x m); y = F.of_int (center_y m); bounds = float_rect F b })
  unfolding center_x center_y
  center-IsWithin b m hb s c =
      let (zx, bx) = center-IsBetween m.x m.width s.placed.0 s.wide s.right in
      let (zy, by) = center-IsBetween m.y m.height s.placed.1 s.high s.bottom in
      let (left, right) =
        within_side m.x b.min_x b.max_x (center_x m) (int_rect m).max_x zx hb.0 hb.2 c.0 c.2 bx in
      let (up, down) =
        within_side m.y b.min_y b.max_y (center_y m) (int_rect m).max_y zy hb.1 hb.3 c.1 c.3 by in
      (left, right, up, down)

All-IsPlaced : {V : Type 0} (ms : List (Monitor V)) → All IsSound ms → All IsPlaced ms
All-IsPlaced [] h = tt
All-IsPlaced (m ∷ ms) h = (h.0.placed, All-IsPlaced ms h.1)

All-both :
    {V : Type 0} (Q R : Monitor V → Type 0) (ms : List (Monitor V))
    → All Q ms
    → All R ms
    → All (λ m. Q m × R m) ms
All-both Q R [] h k = tt
All-both Q R (m ∷ ms) h k = ((h.0, k.0), All-both Q R ms h.1 k.1)

module _ (F : Float64) (ieee : IsIeee F) where
  cursor_at-IsWithin :
      (b : Rect ℤ) (o : Option (Monitor F.Value))
      → o ≢ none
      → InRange b
      → Found (λ m. IsSound m × Covers b (int_rect m)) o
      → IsWithin F (cursor_at F (float_rect F b) o)
  unfolding cursor_at
  cursor_at-IsWithin b none some_main hb h = absurd (some_main refl)
  cursor_at-IsWithin b (some m) some_main hb h = center-IsWithin F ieee b m hb h.0 h.1

  -- The cursor that `SwitchToClient` sets up is within the bounds of the client's monitors, where
  -- comparison is that of IEEE 754, there is a monitor and each is sound: its position is int32, its
  -- sizes are not negative and its far corner is an int32.
  pub initial_cursor-IsWithin :
      (m : Monitor F.Value) (ms : List (Monitor F.Value))
      → All IsSound (m ∷ ms)
      → IsWithin F (initial_cursor F (m ∷ ms))
  unfolding initial_cursor
  initial_cursor-IsWithin m ms sound =
      let placed = All-IsPlaced (m ∷ ms) sound in
      let box = int_expand_all (int_rect m) ms in
      let (eq, range) = total_bounds-float_rect F ieee m ms placed in
      subst (λ b. IsWithin F (cursor_at F b (find_main_monitor (m ∷ ms)))) (sym eq)
        (cursor_at-IsWithin box (find_main_monitor (m ∷ ms)) (find_main_monitor-ne-none m ms) range
          (find_main_monitor-Found (λ n. IsSound n × Covers box (int_rect n)) (m ∷ ms)
            (All-both IsSound (λ n. Covers box (int_rect n)) (m ∷ ms) sound
              (int_expand_all-Covers (int_rect m) ms))))
