-- ===== src/Display/WlrRandr.antt =====
-- internal/display/wlr_randr_backend.go: the monitors that `wlr-randr --json` reports. Running the
-- program and `json.Unmarshal` are left out; `itoa` is the `%d` of fmt. A Go int is ℤ.
use waymon.Common.{
  ℕ, suc, ◌≡◌, refl, ap, sym, ◌∙◌, String, Bool, true, false, not, ◌||◌, Option, none, some, List,
  [], ◌∷◌, arith, if◌then◌else◌, if-false,
}
use waymon.Common.Int.{ℤ, pos, ltb_ℤ, eqb_ℤ, int32}
use waymon.Float.{Float64}
use waymon.Display.Monitor.{
  Monitor, set_primary, at_origin, mark_origin, mark_first, reset_primary, get_primary,
  get_primary_monitor, determine_primary_monitor,
}

-- The fields of an output that are used.
pub record Output (V : Type 0) : Type 0 where
  pub name : String
  pub enabled : Bool
  pub x : ℤ
  pub y : ℤ
  pub width : ℤ
  pub height : ℤ
  pub scale : V
  pub primary : Bool
  pub mode_width : ℤ  -- of `current_mode`
  pub mode_height : ℤ
  pub position_x : ℤ  -- of `position`
  pub position_y : ℤ

module _ (F : Float64) (itoa : ℕ → String) where
  open F use {Value}

  -- An output at its index; none is one that is skipped.
  unfoldable pub monitor_of : ℕ → Output Value → Option (Monitor Value)
  monitor_of i o =
      let has_mode = ltb_ℤ (pos 0) o.mode_width in
      let width = if has_mode then o.mode_width else o.width in
      let height = if has_mode then o.mode_height else o.height in
      let placed = not (eqb_ℤ o.position_x (pos 0)) || not (eqb_ℤ o.position_y (pos 0)) in
      if not o.enabled || (eqb_ℤ width (pos 0) || eqb_ℤ height (pos 0))
      then none
      else some (record {
        id = itoa i;
        name = o.name;
        x = int32 (if placed then o.position_x else o.x);
        y = int32 (if placed then o.position_y else o.y);
        width = int32 width;
        height = int32 height;
        primary = o.primary;
        scale = if F.eqb o.scale F.zero then F.one else o.scale;
      })

  -- The loop over the outputs, from an index on.
  unfoldable pub read_outputs : ℕ → List (Output Value) → List (Monitor Value)
  unfolding monitor_of
  read_outputs i [] = []
  read_outputs i (o ∷ os) =
      let rest = read_outputs (suc i) os in
      elim (monitor_of i o) [ none ↦ rest | some m ↦ m ∷ rest ]

module _ {V : Type 0} where
  -- `hasPrimary` after its loop.
  unfoldable pub has_primary : List (Monitor V) → Bool
  has_primary [] = false
  has_primary (m ∷ ms) = let rest = has_primary ms in if m.primary then true else rest

  -- The end of `GetMonitors`, where `hasPrimary` stays false when a monitor at (0, 0) is marked.
  unfoldable pub mark_primary : List (Monitor V) → List (Monitor V)
  unfolding has_primary mark_origin mark_first
  mark_primary ms = if has_primary ms then ms else mark_first (mark_origin ms).0

  -- The end of `getMonitorsText`, where it is set then.
  unfoldable pub mark_primary_text : List (Monitor V) → List (Monitor V)
  unfolding has_primary mark_origin mark_first
  mark_primary_text ms =
      let (marked, set) = mark_origin ms in
      if has_primary ms then ms else if set then marked else mark_first marked

-- `GetMonitors` on outputs that have been parsed; none is the error of no monitor.
unfoldable pub get_monitors :
    (F : Float64) → (ℕ → String) → List (Output F.Value) → Option (List (Monitor F.Value))
unfolding read_outputs mark_primary
get_monitors F itoa outputs = elim (read_outputs F itoa 0 outputs) [
  | [] ↦ none
  | m ∷ ms ↦ some (mark_primary (m ∷ ms))
]

module _ {V : Type 0} where
  -- The monitor that `get_primary_monitor` returns from what was found.
  abbrev pub primary_of : Option (List (Monitor V)) → Option (Monitor V)
  primary_of none = none
  primary_of (some ms) = get_primary_monitor ms

  -- Without an explicit primary, resetting it changes nothing.
  reset_primary_lem : (ms : List (Monitor V)) → has_primary ms ≡ false → reset_primary ms ≡ ms
  unfolding reset_primary has_primary
  reset_primary_lem [] h = refl
  reset_primary_lem (m ∷ ms) h =
      let unmarked : m.primary ≡ false = ground (arith, h) in
      let others : has_primary ms ≡ false = ground (arith, h) in
      ap (λ b. set_primary b m ∷ reset_primary ms) (sym unmarked)
      ∙ ap (λ (rest : List (Monitor V)). m ∷ rest) (reset_primary_lem ms others)

  -- The first monitor is marked whether it lies at (0, 0) or not.
  first_marked :
      (b set : Bool) (m : Monitor V) (ms rest : List (Monitor V))
      → let marked : List (Monitor V) × Bool =
          if b then (set_primary true m ∷ ms, true) else (m ∷ rest, set) in
        get_primary_monitor (mark_first marked.0) ≡ some (set_primary true m)
  unfolding get_primary_monitor get_primary mark_first
  first_marked true set m ms rest = refl
  first_marked false set m ms rest = refl

  get_primary_monitor-mark_primary :
      (m : Monitor V) (ms : List (Monitor V))
      → has_primary (m ∷ ms) ≡ false
      → get_primary_monitor (mark_primary (m ∷ ms)) ≡ some (set_primary true m)
  unfolding mark_primary mark_origin
  get_primary_monitor-mark_primary m ms h =
      ap get_primary_monitor (if-false (has_primary (m ∷ ms)) _ _ h)
      ∙ first_marked (at_origin m) (mark_origin ms).1 m ms (mark_origin ms).0

  mark_primary_text_lem :
      (ms : List (Monitor V))
      → has_primary ms ≡ false
      → mark_primary_text ms ≡ determine_primary_monitor ms
  unfolding mark_primary_text determine_primary_monitor
  mark_primary_text_lem ms h = rw (h, reset_primary_lem ms h) refl

-- Where `wlr-randr` reports monitors and none of them as the primary one, the monitor that the
-- display takes for the primary one is the first that is reported, wherever it lies, if the report
-- is JSON; from the same monitors the reading of the text determines the primary one by position.
pub primary_by_format :
    (F : Float64) (itoa : ℕ → String) (outputs : List (Output F.Value)) (m : Monitor F.Value)
    (ms : List (Monitor F.Value))
    → read_outputs F itoa 0 outputs ≡ m ∷ ms
    → has_primary (m ∷ ms) ≡ false
    → (primary_of (get_monitors F itoa outputs) ≡ some (set_primary true m))
      × (mark_primary_text (m ∷ ms) ≡ determine_primary_monitor (m ∷ ms))
unfolding get_monitors
primary_by_format F itoa outputs m ms read unmarked = (
  rw (get_monitors, read, get_primary_monitor-mark_primary m ms unmarked) refl,
  mark_primary_text_lem (m ∷ ms) unmarked,
)
