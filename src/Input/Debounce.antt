-- ===== src/Input/Debounce.antt =====
-- internal/input/edge_detector.go: a cursor that stays at an edge enters it once.
use waymon.Common.{
  ◌≡◌, refl, sym, ap, ◌∙◌, subst, subst₂, true, false, not, ◌&&◌, Option, none, some, inl, inr, ◌⊎◌,
  List, [], ◌∷◌, arith, if-true, if-false, if_elim, Bool-cases, All, str_eq,
}
use waymon.Common.Int.{ℤ}
use waymon.Float.{Float64}
use waymon.Config.Store.{ClientConfig}
use waymon.Display.Monitor.{Monitor, Edge, edge_none, get_edge, get_monitor_at}
use waymon.Input.EdgeDetector.{
  Client, EdgeDetector, same_edge, update_cursor_position, check_cursor_position, at_edge,
  enter_edge, get_host_for_edge,
}

module _ (F : Float64) (C : Client F.Value) (cfg : ClientConfig) where
  -- The cursor at one point after the other.
  unfoldable pub updates : List (ℤ × ℤ) → EdgeDetector F C → EdgeDetector F C
  updates [] e = e
  updates ((x, y) ∷ ps) e = updates ps (update_cursor_position F C cfg x y e)

  -- Nothing is entered: the detector is stopped, or the edge is the last one.
  abbrev IsQuiet : Edge → EdgeDetector F C → Type 0
  IsQuiet edge e = (e.active ≡ false) ⊎ (same_edge edge e.last_edge ≡ true)

  -- Points that are all at this edge.
  abbrev pub AreAt : Edge → EdgeDetector F C → List (ℤ × ℤ) → Type 0
  AreAt edge e = All (λ (p : ℤ × ℤ). get_edge p.0 p.1 e.threshold e.display ≡ edge)

  quiet :
      (edge : Edge) (x y : ℤ) (e : EdgeDetector F C)
      → same_edge edge edge_none ≡ false
      → get_edge x y e.threshold e.display ≡ edge
      → IsQuiet edge e
      → update_cursor_position F C cfg x y e ≡ record e { last_x = x; last_y = y }
  unfolding update_cursor_position check_cursor_position
  quiet edge x y e n at (inl stopped) = if-false _ _ _ stopped
  quiet edge x y e n at (inr last) =
      if_elim (λ (r : EdgeDetector F C). r ≡ record e { last_x = x; last_y = y }) e.active
        (λ a.
          ap (λ g. at_edge F C cfg g x y (record e { last_x = x; last_y = y })) at
          ∙ (if-false (not (same_edge edge edge_none) && not (same_edge edge e.last_edge)) _ _
                (ground (arith, last))
              ∙ if-false (same_edge edge edge_none && not (same_edge e.last_edge edge_none)) _ _
                  (ground (arith, n))))
        (λ a. refl)

  updates-quiet :
      (edge : Edge) (ps : List (ℤ × ℤ)) (e : EdgeDetector F C)
      → same_edge edge edge_none ≡ false
      → AreAt edge e ps
      → IsQuiet edge e
      → (updates ps e).calls ≡ e.calls
  unfolding updates
  updates-quiet edge [] e n at q = refl
  updates-quiet edge ((x, y) ∷ ps) e n at q =
      ap (λ s. (updates ps s).calls) (quiet edge x y e n at.0 q)
      ∙ updates-quiet edge ps (record e { last_x = x; last_y = y }) n at.1 q

  -- What entering an edge leaves as it is.
  abbrev IsKept : EdgeDetector F C → EdgeDetector F C → Type 0
  IsKept e r = (r.last_edge ≡ e.last_edge) × (r.threshold ≡ e.threshold) × (r.display ≡ e.display)

  enter_edge-IsKept :
      (o : Option (Monitor F.Value)) (edge : Edge) (x y : ℤ) (e : EdgeDetector F C)
      → IsKept e (enter_edge F C cfg o edge x y e)
  enter_edge-IsKept none edge x y e = (refl, refl, refl)
  enter_edge-IsKept (some m) edge x y e =
      if_elim (λ (r : EdgeDetector F C). IsKept e r) e.capturing (λ c. (refl, refl, refl))
        (λ c.
          if_elim (λ (r : EdgeDetector F C). IsKept e r)
            (str_eq (get_host_for_edge F C cfg m edge e) "") (λ h. (refl, refl, refl))
            (λ h.
              if_elim (λ (r : EdgeDetector F C). IsKept e r) e.callbacks (λ k. (refl, refl, refl))
                (λ k. (refl, refl, refl))))

  -- The detector after a point at the edge.
  abbrev IsAfter : Edge → EdgeDetector F C → EdgeDetector F C → Type 0
  IsAfter edge e r = IsQuiet edge r × (r.threshold ≡ e.threshold) × (r.display ≡ e.display)

  same_edge_refl : (edge : Edge) → same_edge edge edge ≡ true
  same_edge_refl edge = ground arith

  enter-IsAfter :
      (edge : Edge) (x y : ℤ) (e : EdgeDetector F C)
      → IsAfter edge e (
          enter_edge F C cfg
            (get_monitor_at x y e.display)
            edge
            x
            y
            (record e { last_x = x; last_y = y; last_edge = edge }))
  enter-IsAfter edge x y e =
      let (l, t, d) =
        enter_edge-IsKept (get_monitor_at x y e.display) edge x y
          (record e { last_x = x; last_y = y; last_edge = edge }) in
      (inr (ap (same_edge edge) l ∙ same_edge_refl edge), t, d)

  update-IsAfter :
      (edge : Edge) (x y : ℤ) (e : EdgeDetector F C)
      → same_edge edge edge_none ≡ false
      → get_edge x y e.threshold e.display ≡ edge
      → IsAfter edge e (update_cursor_position F C cfg x y e)
  unfolding update_cursor_position check_cursor_position
  update-IsAfter edge x y e n at = elim (Bool-cases (same_edge edge e.last_edge)) [
    | inl last ↦
        subst (IsAfter edge e) (sym (quiet edge x y e n at (inr last))) (inr last, refl, refl)
    | inr new ↦
        if_elim (λ (r : EdgeDetector F C). IsAfter edge e r) e.active
          (λ a.
            subst (IsAfter edge e)
              (sym (
                ap (λ g. at_edge F C cfg g x y (record e { last_x = x; last_y = y })) at
                ∙ if-true (not (same_edge edge edge_none) && not (same_edge edge e.last_edge)) _ _
                    (ground (arith, n, new))))
              (enter-IsAfter edge x y e))
          (λ a. (inl a, refl, refl))
  ]

  -- While the cursor stays at one edge, whatever the points, only the first of them can enter it:
  -- the callbacks that have been called after all of them are those called after the first, so
  -- that a client is not connected again and again.
  pub edge_entered_once :
      (edge : Edge) (x y : ℤ) (ps : List (ℤ × ℤ)) (e : EdgeDetector F C)
      → same_edge edge edge_none ≡ false
      → AreAt edge e ((x, y) ∷ ps)
      → (updates ((x, y) ∷ ps) e).calls ≡ (update_cursor_position F C cfg x y e).calls
  unfolding updates
  edge_entered_once edge x y ps e n at =
      let (q, t, d) = update-IsAfter edge x y e n at.0 in
      updates-quiet edge ps (update_cursor_position F C cfg x y e) n
        (subst₂ (λ k m. All (λ (p : ℤ × ℤ). get_edge p.0 p.1 k m ≡ edge) ps) (sym t) (sym d) at.1) q
