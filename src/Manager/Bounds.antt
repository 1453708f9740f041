-- ===== src/Manager/Bounds.antt =====
-- internal/server/manager.go: the bounding box of the monitors, and the cursor within it.
use waymon.Common.{
  ◌≡◌, refl, sym, ap, ◌∙◌, subst, false, List, [], ◌∷◌, inl, inr, arith, if◌then◌else◌, Bool-cases,
  All,
}
use waymon.Common.Int.{ℤ, ◌≤ℤ◌, ◌+ℤ◌, ltb_ℤ, int32, int32-InInt32, InInt32}
use waymon.Float.{Float64, IsIeee, whole}
use waymon.Proto.{Monitor}
use waymon.Manager.State.{Rect}
use waymon.Manager.Cursor.{monitor_rect, expand, expand_all, calculate_total_display_bounds}

-- The same rectangles over the integers.
abbrev pub int_rect : {V : Type 0} → Monitor V → Rect ℤ
int_rect m = record {
  min_x = m.x;
  min_y = m.y;
  max_x = int32 (m.x +ℤ m.width);
  max_y = int32 (m.y +ℤ m.height);
}

abbrev pub InRange : Rect ℤ → Type 0
InRange r = InInt32 r.min_x × InInt32 r.min_y × InInt32 r.max_x × InInt32 r.max_y

-- `b` holds all of `r`.
abbrev pub Covers : Rect ℤ → Rect ℤ → Type 0
Covers b r =
    (b.min_x ≤ℤ r.min_x) × (b.min_y ≤ℤ r.min_y) × (r.max_x ≤ℤ b.max_x) × (r.max_y ≤ℤ b.max_y)

expand-InRange : (b r : Rect ℤ) → InRange b → InRange r → InRange (expand whole b r)
unfolding expand
expand-InRange b r hb hr = ground arith

expand-Covers : (b r : Rect ℤ) → Covers (expand whole b r) b × Covers (expand whole b r) r
unfolding expand
expand-Covers b r = ground arith

Covers-trans : (a b c : Rect ℤ) → Covers a b → Covers b c → Covers a c
Covers-trans a b c h k = omega arith

module _ {V : Type 0} where
  abbrev pub int_expand_all : Rect ℤ → List (Monitor V) → Rect ℤ
  int_expand_all b [] = b
  int_expand_all b (m ∷ ms) = int_expand_all (expand whole b (int_rect m)) ms

  pub int_expand_all-Covers :
      (b : Rect ℤ) (ms : List (Monitor V))
      → Covers (int_expand_all b ms) b × All (λ m. Covers (int_expand_all b ms) (int_rect m)) ms
  int_expand_all-Covers b [] = omega arith
  int_expand_all-Covers b (m ∷ ms) =
      let (outer, rest) = int_expand_all-Covers (expand whole b (int_rect m)) ms in
      let (left, right) = expand-Covers b (int_rect m) in
      let whole_box = int_expand_all (expand whole b (int_rect m)) ms in
      (
        Covers-trans whole_box (expand whole b (int_rect m)) b outer left,
        (Covers-trans whole_box (expand whole b (int_rect m)) (int_rect m) outer right, rest),
      )

  -- The position of a monitor is a pair of int32 fields.
  abbrev pub IsPlaced : Monitor V → Type 0
  IsPlaced m = InInt32 m.x × InInt32 m.y

  pub int_rect-InRange : (m : Monitor V) → IsPlaced m → InRange (int_rect m)
  int_rect-InRange m h = (h.0, h.1, int32-InInt32 (m.x +ℤ m.width), int32-InInt32 (m.y +ℤ m.height))

module _ (F : Float64) where
  open F use {Value, ltb, of_int}

  abbrev pub float_rect : Rect ℤ → Rect Value
  float_rect r = record {
    min_x = of_int r.min_x;
    min_y = of_int r.min_y;
    max_x = of_int r.max_x;
    max_y = of_int r.max_y;
  }

  -- No side of `r` lies outside of `b`, by the float comparisons of the source.
  abbrev pub Encloses : Rect Value → Rect Value → Type 0
  Encloses b r =
      (ltb r.min_x b.min_x ≡ false)
      × (ltb r.min_y b.min_y ≡ false)
      × (ltb b.max_x r.max_x ≡ false)
      × (ltb b.max_y r.max_y ≡ false)

  module _ (ieee : IsIeee F) where
    choose-of_int :
        (a b c d : ℤ)
        → InInt32 a
        → InInt32 b
        → (if ltb (of_int a) (of_int b) then of_int c else of_int d)
          ≡ of_int (if ltb_ℤ a b then c else d)
    choose-of_int a b c d ha hb = elim (Bool-cases (ltb_ℤ a b)) [
      | inl e ↦ rw (ieee.ltb-of_int a b ha hb, e)
      | inr e ↦ rw (ieee.ltb-of_int a b ha hb, e)
    ]

    expand-float_rect :
        (b r : Rect ℤ)
        → InRange b
        → InRange r
        → expand F (float_rect b) (float_rect r) ≡ float_rect (expand whole b r)
    unfolding expand
    expand-float_rect b r hb hr i = record {
      min_x = choose-of_int r.min_x b.min_x r.min_x b.min_x hr.0 hb.0 i;
      min_y = choose-of_int r.min_y b.min_y r.min_y b.min_y hr.1 hb.1 i;
      max_x = choose-of_int b.max_x r.max_x r.max_x b.max_x hb.2 hr.2 i;
      max_y = choose-of_int b.max_y r.max_y r.max_y b.max_y hb.3 hr.3 i;
    }

    -- The loop over float rectangles computes the box of the integer rectangles, and stays in
    -- range.
    expand_all-float_rect :
        (b : Rect ℤ) (ms : List (Monitor Value))
        → InRange b
        → All IsPlaced ms
        → (expand_all F (float_rect b) ms ≡ float_rect (int_expand_all b ms))
          × InRange (int_expand_all b ms)
    unfolding expand_all monitor_rect
    expand_all-float_rect b [] hb hs = (refl, hb)
    expand_all-float_rect b (m ∷ ms) hb hs =
        let hm = int_rect-InRange m hs.0 in
        let (eq, range) =
          expand_all-float_rect (expand whole b (int_rect m)) ms
            (expand-InRange b (int_rect m) hb hm) hs.1 in
        (ap (λ r. expand_all F r ms) (expand-float_rect b (int_rect m) hb hm) ∙ eq, range)

    Encloses-of_Covers :
        (b r : Rect ℤ) → InRange b → InRange r → Covers b r → Encloses (float_rect b) (float_rect r)
    Encloses-of_Covers b r hb hr c = (
      ieee.ltb-of_int r.min_x b.min_x hr.0 hb.0 ∙ ground arith,
      ieee.ltb-of_int r.min_y b.min_y hr.1 hb.1 ∙ ground arith,
      ieee.ltb-of_int b.max_x r.max_x hb.2 hr.2 ∙ ground arith,
      ieee.ltb-of_int b.max_y r.max_y hb.3 hr.3 ∙ ground arith,
    )

    All-Encloses :
        (b : Rect ℤ) (ms : List (Monitor Value))
        → InRange b
        → All IsPlaced ms
        → All (λ m. Covers b (int_rect m)) ms
        → All (λ m. Encloses (float_rect b) (monitor_rect F m)) ms
    unfolding monitor_rect
    All-Encloses b [] hb hs c = tt
    All-Encloses b (m ∷ ms) hb hs c = (
      Encloses-of_Covers b (int_rect m) hb (int_rect-InRange m hs.0) c.0,
      All-Encloses b ms hb hs.1 c.1,
    )

    -- The box of one or more monitors is the integer box, in float coordinates.
    pub total_bounds-float_rect :
        (m : Monitor Value) (ms : List (Monitor Value))
        → All IsPlaced (m ∷ ms)
        → (calculate_total_display_bounds F (m ∷ ms) ≡ float_rect (int_expand_all (int_rect m) ms))
          × InRange (int_expand_all (int_rect m) ms)
    unfolding calculate_total_display_bounds monitor_rect
    total_bounds-float_rect m ms hs =
        expand_all-float_rect (int_rect m) ms (int_rect-InRange m hs.0) hs.1

    -- Where comparison is that of IEEE 754, the total bounds of one or more monitors at int32
    -- positions enclose the rectangle of each monitor.
    pub total_bounds-Encloses :
        (m : Monitor Value) (ms : List (Monitor Value))
        → All IsPlaced (m ∷ ms)
        → All
            (λ n. Encloses (calculate_total_display_bounds F (m ∷ ms)) (monitor_rect F n))
            (m ∷ ms)
    total_bounds-Encloses m ms hs =
        let (eq, range) = total_bounds-float_rect m ms hs in
        subst (λ b. All (λ n. Encloses b (monitor_rect F n)) (m ∷ ms)) (sym eq)
          (All-Encloses (int_expand_all (int_rect m) ms) (m ∷ ms) range hs
            (int_expand_all-Covers (int_rect m) ms))
