-- ===== src/Display/Edges.antt =====
-- internal/display/monitor.go: GetEdge and GetMonitorAt.
use waymon.Common.{
  ◌≡◌, subst, ap, sym, ◌⊎◌, inl, inr, true, false, none, some, List, [], ◌∷◌, arith, Bool-cases,
  Option-cases, All, ◌^◌, ◌-◌, if◌then◌else◌,
}
use waymon.Common.Int.{
  ℤ, pos, ◌≤ℤ◌, ◌<ℤ◌, ◌+ℤ◌, ◌-ℤ◌, ltb_ℤ, InInt32, int32, int32_exact, +ℤ_parts, -ℤ_parts,
}
use waymon.Display.Monitor.{
  Monitor, Edge, edge_none, edge_left, edge_right, edge_top, edge_bottom, right, bottom, contains,
  get_monitor_at, edge_of, edge_on, get_edge,
}

far_exact :
    (x a w : ℤ)
    → InInt32 x
    → InInt32 a
    → pos 0 ≤ℤ w
    → a +ℤ w ≤ℤ pos (2 ^ 31 - 1)
    → a ≤ℤ x
    → x <ℤ a +ℤ w
    → w ≤ℤ pos (2 ^ 31 - 1)
    → int32 (int32 (a +ℤ w) -ℤ x) ≡ a +ℤ w -ℤ x
far_exact x a w hx ha h0 h1 h2 h3 h4 =
    let e : int32 (a +ℤ w) ≡ a +ℤ w = int32_exact (a +ℤ w) (omega (arith, +ℤ_parts a w), h1) in
    let f : int32 (a +ℤ w -ℤ x) ≡ a +ℤ w -ℤ x = int32_exact (a +ℤ w -ℤ x) (
      omega (arith, -ℤ_parts (a +ℤ w) x, +ℤ_parts a w),
      omega (arith, -ℤ_parts (a +ℤ w) x, +ℤ_parts a w),
    ) in
    (rw e f)

-- The edge that the distances to the four sides give.
abbrev NearBy : ℤ → ℤ → ℤ → ℤ → ℤ → Edge → Type 0
NearBy l r u d t edge_left = l <ℤ t
NearBy l r u d t edge_right = (t ≤ℤ l) × (r <ℤ t)
NearBy l r u d t edge_top = (t ≤ℤ l) × (t ≤ℤ r) × (u <ℤ t)
NearBy l r u d t edge_bottom = (t ≤ℤ l) × (t ≤ℤ r) × (t ≤ℤ u) × (d <ℤ t)
NearBy l r u d t edge_none = (t ≤ℤ l) × (t ≤ℤ r) × (t ≤ℤ u) × (t ≤ℤ d)

nearest :
    (l r u d t : ℤ)
    → NearBy l r u d t (
        if ltb_ℤ l t
        then edge_left
        else if ltb_ℤ r t
        then edge_right
        else if ltb_ℤ u t
        then edge_top
        else if ltb_ℤ d t
        then edge_bottom
        else edge_none)
nearest l r u d t = ground arith

module _ {V : Type 0} where
  -- A monitor whose rectangle fits in int32, and whose sizes are not negative.
  pub record IsSound (m : Monitor V) : Type 0 where
    pub x_fits : InInt32 m.x
    pub y_fits : InInt32 m.y
    pub wide : pos 0 ≤ℤ m.width
    pub high : pos 0 ≤ℤ m.height
    pub narrow : m.width ≤ℤ pos (2 ^ 31 - 1)
    pub low : m.height ≤ℤ pos (2 ^ 31 - 1)
    pub right_fits : m.x +ℤ m.width ≤ℤ pos (2 ^ 31 - 1)
    pub bottom_fits : m.y +ℤ m.height ≤ℤ pos (2 ^ 31 - 1)

  -- The pixels of the monitor, in exact arithmetic.
  abbrev pub Holds : ℤ → ℤ → Monitor V → Type 0
  Holds x y m = (m.x ≤ℤ x) × (x <ℤ m.x +ℤ m.width) × (m.y ≤ℤ y) × (y <ℤ m.y +ℤ m.height)

  -- What an edge says of a point: it is less than the threshold away from that side, and not so
  -- close to a side that is asked first; no edge means that it is close to none.
  abbrev pub Near : ℤ → ℤ → ℤ → Monitor V → Edge → Type 0
  Near x y t m e = NearBy (x -ℤ m.x) (m.x +ℤ m.width -ℤ x) (y -ℤ m.y) (m.y +ℤ m.height -ℤ y) t e

  contains-Holds : (x y : ℤ) (m : Monitor V) → IsSound m → contains x y m ≡ true → Holds x y m
  unfolding contains
  contains-Holds x y m s h = ground (
    arith,
    int32_exact (m.x +ℤ m.width),
    int32_exact (m.y +ℤ m.height),
    +ℤ_parts m.x m.width,
    +ℤ_parts m.y m.height,
  )

  Holds-contains : (x y : ℤ) (m : Monitor V) → IsSound m → Holds x y m → contains x y m ≡ true
  unfolding contains
  Holds-contains x y m s h = ground (
    arith,
    int32_exact (m.x +ℤ m.width),
    int32_exact (m.y +ℤ m.height),
    +ℤ_parts m.x m.width,
    +ℤ_parts m.y m.height,
  )

  -- Every difference that `GetEdge` takes is exact at a pixel of the monitor.
  left_exact : (x y : ℤ) (m : Monitor V) → IsSound m → Holds x y m → int32 (x -ℤ m.x) ≡ x -ℤ m.x
  left_exact x y m s h = int32_exact (x -ℤ m.x) (
    omega (arith, -ℤ_parts x m.x, +ℤ_parts m.x m.width),
    omega (arith, -ℤ_parts x m.x, +ℤ_parts m.x m.width),
  )

  top_exact : (x y : ℤ) (m : Monitor V) → IsSound m → Holds x y m → int32 (y -ℤ m.y) ≡ y -ℤ m.y
  top_exact x y m s h = int32_exact (y -ℤ m.y) (
    omega (arith, -ℤ_parts y m.y, +ℤ_parts m.y m.height),
    omega (arith, -ℤ_parts y m.y, +ℤ_parts m.y m.height),
  )

  edge_of-Near :
      (x y t : ℤ) (m : Monitor V)
      → InInt32 x
      → InInt32 y
      → IsSound m
      → Holds x y m
      → Near x y t m (edge_of x y t m)
  unfolding edge_of
  edge_of-Near x y t m hx hy s h =
      let e : int32 (right m -ℤ x) ≡ m.x +ℤ m.width -ℤ x =
        far_exact x m.x m.width hx s.x_fits s.wide s.right_fits h.0 h.1 s.narrow in
      let f : int32 (bottom m -ℤ y) ≡ m.y +ℤ m.height -ℤ y =
        far_exact y m.y m.height hy s.y_fits s.high s.bottom_fits h.2 h.3 s.low in
      (rw (left_exact x y m s h, top_exact x y m s h, e, f)
        (nearest (x -ℤ m.x) (m.x +ℤ m.width -ℤ x) (y -ℤ m.y) (m.y +ℤ m.height -ℤ y) t))

  get_monitor_at-contains :
      (x y : ℤ) (ms : List (Monitor V)) (m : Monitor V)
      → get_monitor_at x y ms ≡ some m
      → contains x y m ≡ true
  unfolding get_monitor_at
  get_monitor_at-contains x y [] m h = ground arith
  get_monitor_at-contains x y (k ∷ ms) m h = ground (arith, get_monitor_at-contains x y ms m)

  get_monitor_at-none :
      (x y : ℤ) (ms : List (Monitor V))
      → get_monitor_at x y ms ≡ none
      → All (λ (m : Monitor V). contains x y m ≡ false) ms
  unfolding get_monitor_at
  get_monitor_at-none x y [] h = tt
  get_monitor_at-none x y (k ∷ ms) h = ground (arith, get_monitor_at-none x y ms)

  All-get_monitor_at :
      (P : Monitor V → Type 0) (x y : ℤ) (ms : List (Monitor V)) (m : Monitor V)
      → All P ms
      → get_monitor_at x y ms ≡ some m
      → P m
  unfolding get_monitor_at
  All-get_monitor_at P x y [] m a h = ground arith
  All-get_monitor_at P x y (k ∷ ms) m a h = elim (Bool-cases (contains x y k)) [
    | inl e ↦ subst P (ground (arith, e, h)) a.0
    | inr e ↦ All-get_monitor_at P x y ms m a.1 (ground (arith, e, h))
  ]

  -- A pixel that `contains` refuses is not one of the monitor.
  outside :
      (x y : ℤ) (ms : List (Monitor V))
      → All (λ (m : Monitor V). IsSound m) ms
      → All (λ (m : Monitor V). contains x y m ≡ false) ms
      → All (λ (m : Monitor V). ¬ Holds x y m) ms
  outside x y [] s a = tt
  outside x y (m ∷ ms) s a =
      ((λ h. absurd (ground (arith, Holds-contains x y m s.0 h, a.0))), outside x y ms s.1 a.1)

  -- The answer of `get_edge`: no edge where no monitor holds the point, else the one that the
  -- distances on the first monitor that holds it give.
  abbrev pub IsEdgeAt : ℤ → ℤ → ℤ → List (Monitor V) → Edge → Type 0
  IsEdgeAt x y t ms e =
      (All (λ (m : Monitor V). ¬ Holds x y m) ms × (e ≡ edge_none))
      ⊎ ((m : Monitor V) × (get_monitor_at x y ms ≡ some m) × Holds x y m × Near x y t m e)

  -- At an int32 point, on sound monitors, `get_edge` names no edge where no monitor holds the
  -- point in exact arithmetic, and else the edge of the first monitor that holds it: left, right,
  -- top, bottom in this order, each at an exact distance below the threshold, the earlier sides
  -- being at least that far away.
  pub get_edge-IsEdgeAt :
      (x y t : ℤ) (ms : List (Monitor V))
      → InInt32 x
      → InInt32 y
      → All (λ (m : Monitor V). IsSound m) ms
      → IsEdgeAt x y t ms (get_edge x y t ms)
  unfolding get_edge
  get_edge-IsEdgeAt x y t ms hx hy s = elim (Option-cases (get_monitor_at x y ms)) [
    | inl e ↦ inl (outside x y ms s (get_monitor_at-none x y ms e), ap (edge_on x y t) e)
    | inr (m, e) ↦
        let sound : IsSound m = All-get_monitor_at (λ m. IsSound m) x y ms m s e in
        let held : Holds x y m = contains-Holds x y m sound (get_monitor_at-contains x y ms m e) in
        let near : Near x y t m (edge_on x y t (some m)) = edge_of-Near x y t m hx hy sound held in
        inr (m, e, held, subst (λ o. Near x y t m (edge_on x y t o)) (sym e) near)
  ]
