-- ===== src/Display/Primary.antt =====
-- internal/display/monitor.go: determinePrimaryMonitor and GetPrimaryMonitor.
use waymon.Common.{
  ℕ, suc, ◌≡◌, ap, ◌∙◌, refl, if◌then◌else◌, Bool, true, false, Option, none, some, List, [], ◌∷◌,
  arith, Option-cases, is_some, inl, inr,
}
use waymon.Display.Monitor.{
  Monitor, get_primary, get_primary_monitor, at_origin, set_primary, reset_primary, mark_origin,
  mark_first, determine_primary_monitor,
}

module _ {V : Type 0} where
  abbrev pub is_empty : List (Monitor V) → Bool
  is_empty [] = true
  is_empty (m ∷ ms) = false

  -- How many monitors are marked as primary.
  unfoldable pub primaries : List (Monitor V) → ℕ
  primaries [] = 0
  primaries (m ∷ ms) = let rest = primaries ms in if m.primary then suc rest else rest

  -- The first monitor at (0, 0).
  unfoldable pub find_at_origin : List (Monitor V) → Option (Monitor V)
  find_at_origin [] = none
  find_at_origin (m ∷ ms) = if at_origin m then some m else find_at_origin ms

  primaries-reset_primary : (ms : List (Monitor V)) → primaries (reset_primary ms) ≡ 0
  unfolding primaries reset_primary
  primaries-reset_primary [] = refl
  primaries-reset_primary (m ∷ ms) = primaries-reset_primary ms

  primaries-mark_origin :
      (ms : List (Monitor V))
      → primaries (mark_origin (reset_primary ms)).0
        ≡ (if (mark_origin (reset_primary ms)).1 then 1 else 0)
  unfolding primaries reset_primary mark_origin
  primaries-mark_origin [] = refl
  primaries-mark_origin (m ∷ ms) =
      ground (arith, primaries-reset_primary ms, primaries-mark_origin ms)

  primaries-marked :
      (ms : List (Monitor V))
      → primaries (mark_first (reset_primary ms)) ≡ (if is_empty ms then 0 else 1)
  unfolding primaries mark_first reset_primary
  primaries-marked [] = refl
  primaries-marked (m ∷ ms) = ap suc (primaries-reset_primary ms)

  nonempty :
      (ms : List (Monitor V)) (m : Monitor V)
      → find_at_origin ms ≡ some m
      → suc 0 ≡ (if is_empty ms then 0 else 1)
  unfolding find_at_origin
  nonempty [] m e = ground arith
  nonempty (k ∷ ms) m e = refl

  abbrev pub mark : Option (Monitor V) → Option (Monitor V)
  mark none = none
  mark (some m) = some (set_primary true m)

  get_primary-reset_primary : (ms : List (Monitor V)) → get_primary (reset_primary ms) ≡ none
  unfolding get_primary reset_primary
  get_primary-reset_primary [] = refl
  get_primary-reset_primary (m ∷ ms) = get_primary-reset_primary ms

  set-mark_origin :
      (ms : List (Monitor V)) → (mark_origin (reset_primary ms)).1 ≡ is_some (find_at_origin ms)
  unfolding reset_primary mark_origin find_at_origin
  set-mark_origin [] = refl
  set-mark_origin (m ∷ ms) = ground (arith, set-mark_origin ms)

  get_primary-mark_origin :
      (ms : List (Monitor V))
      → get_primary (mark_origin (reset_primary ms)).0 ≡ mark (find_at_origin ms)
  unfolding get_primary reset_primary mark_origin find_at_origin
  get_primary-mark_origin [] = refl
  get_primary-mark_origin (m ∷ ms) = ground (arith, get_primary-mark_origin ms)

  -- No monitor at the origin: `mark_origin` changes nothing.
  mark_origin-none :
      (ms : List (Monitor V))
      → find_at_origin ms ≡ none
      → (mark_origin (reset_primary ms)).0 ≡ reset_primary ms
  unfolding reset_primary mark_origin find_at_origin
  mark_origin-none [] h = refl
  mark_origin-none (m ∷ ms) h = ground (arith, mark_origin-none ms)

  abbrev pub or_else : Option (Monitor V) → Option (Monitor V) → Option (Monitor V)
  or_else none o = o
  or_else (some m) o = some m

  abbrev pub head : List (Monitor V) → Option (Monitor V)
  head [] = none
  head (m ∷ ms) = some m

  -- What is left when no monitor is at the origin.
  get_primary-mark_first :
      (ms : List (Monitor V)) → get_primary_monitor (mark_first (reset_primary ms)) ≡ mark (head ms)
  unfolding reset_primary mark_first get_primary get_primary_monitor
  get_primary-mark_first [] = refl
  get_primary-mark_first (m ∷ ms) = refl

  get_primary_monitor-some :
      (ms : List (Monitor V)) (m : Monitor V)
      → get_primary ms ≡ some m
      → get_primary_monitor ms ≡ some m
  unfolding get_primary_monitor
  get_primary_monitor-some ms m e = ground (arith, e)

  determined-some :
      (ms : List (Monitor V)) (m : Monitor V)
      → find_at_origin ms ≡ some m
      → determine_primary_monitor ms ≡ (mark_origin (reset_primary ms)).0
  unfolding determine_primary_monitor
  determined-some ms m e =
      let set : (mark_origin (reset_primary ms)).1 ≡ true = set-mark_origin ms ∙ ap is_some e in
      (rw set refl)

  determined-none :
      (ms : List (Monitor V))
      → find_at_origin ms ≡ none
      → determine_primary_monitor ms ≡ mark_first (reset_primary ms)
  unfolding determine_primary_monitor
  determined-none ms e =
      let set : (mark_origin (reset_primary ms)).1 ≡ false = set-mark_origin ms ∙ ap is_some e in
      (rw set (ap mark_first (mark_origin-none ms e)))

  -- After `determine_primary_monitor`, `get_primary_monitor` returns the first monitor at (0, 0),
  -- else the first monitor, marked as primary, and nothing when there is no monitor.
  pub get_primary_monitor-determine_primary_monitor :
      (ms : List (Monitor V))
      → get_primary_monitor (determine_primary_monitor ms)
        ≡ mark (or_else (find_at_origin ms) (head ms))
  get_primary_monitor-determine_primary_monitor ms = elim (Option-cases (find_at_origin ms)) [
    | inl e ↦ rw (e, determined-none ms e) (get_primary-mark_first ms)
    | inr (m, e) ↦
        rw (e, determined-some ms m e)
          (get_primary_monitor-some (mark_origin (reset_primary ms)).0 (set_primary true m)
            (get_primary-mark_origin ms ∙ ap mark e))
  ]

  -- After `determine_primary_monitor`, exactly one monitor is marked as primary, unless the list
  -- is empty, where none is.
  pub primaries-determine_primary_monitor :
      (ms : List (Monitor V))
      → primaries (determine_primary_monitor ms) ≡ (if is_empty ms then 0 else 1)
  primaries-determine_primary_monitor ms = elim (Option-cases (find_at_origin ms)) [
    | inl e ↦ rw (determined-none ms e) (primaries-marked ms)
    | inr (m, e) ↦ rw (determined-some ms m e) (
        primaries-mark_origin ms
        ∙ ap (λ (b : Bool). if b then 1 else 0) (set-mark_origin ms ∙ ap is_some e)
        ∙ nonempty ms m e)
  ]
