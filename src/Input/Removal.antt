-- ===== src/Input/Removal.antt =====
-- internal/input/switch.go: a removal keeps the selection at its name.
use waymon.Common.{
  ℕ, zero, suc, ◌-◌, ◌^◌, ◌<◌, ◌≤◌, ◌≡◌, refl, ◌∙◌, sym, ap, String, false, Option, none, some, inl,
  inr, List, [], ◌∷◌, arith, str_eq, length, get_elem?, get_elem?-lt, Bool-cases, subst, subst₂,
  if-true, if-false, ltb, eq_iff,
}
use waymon.Common.Int.{pos, int32, ◌-ℤ◌}
use waymon.Common.Sort.{has}
use waymon.Input.Switch.{
  SwitchManager, remove_computer, remove_at, adjust_current, without, computer_at,
}
use waymon.Input.Contract.{remove, keep, head?}
use waymon.Input.Places
use waymon.Input.View.{view, IsOk, Follows}

adjust_same : (k : ℕ) → k < 2 ^ 31 → adjust_current k (pos k) ≡ pos 0
unfolding adjust_current int32
adjust_same k h = ground arith

adjust_above :
    (k i : ℕ) → i < 2 ^ 31 → k < suc i → suc i < 2 ^ 31 → adjust_current k (pos (suc i)) ≡ pos i
unfolding adjust_current int32 ◌-ℤ◌
adjust_above k i h l m = ground arith

adjust_below : (k i : ℕ) → k < 2 ^ 31 → i < k → adjust_current k (pos i) ≡ pos i
unfolding adjust_current int32
adjust_below k i h l = ground arith

-- The index after a removal, which the contract's selection is at.
abbrev IsSelectedAfter : String → List String → ℕ → ℕ → String → Type 0
IsSelectedAfter name cs k i h =
    (j : ℕ) × (adjust_current k (pos i) ≡ pos j)
    × (get_elem? (without name cs) j ≡ keep name (without name cs) (some h))
    × (j ≤ length (without name cs) - 1)

same : (k i : ℕ) → ltb k i ≡ false → ltb i k ≡ false → i ≡ k
same k i l m = ground arith

head_at_zero : (cs : List String) → get_elem? cs 0 ≡ head? cs
head_at_zero [] = refl
head_at_zero (c ∷ cs) = refl

module _ (name h : String) (cs : List String) (d : Places.Distinct cs)
    (b : length cs < 2 ^ 31) where
  above :
      (k i : ℕ)
      → get_elem? cs k ≡ some name
      → get_elem? cs i ≡ some h
      → k < i
      → IsSelectedAfter name cs k i h
  above k zero e g l = absurd (omega (arith, l))
  above k (suc i) e g l =
      let r = Places.without_above name h cs k i d e g l in
      let lt = Places.lt_of_get_elem? (without name cs) i h r in
      let lt' = Places.lt_of_get_elem? cs (suc i) h g in
      (
        i,
        adjust_above k i (omega (arith, lt', b)) l (omega (arith, lt', b)),
        r ∙ sym (if-false _ _ _ (Places.places_differ name h cs k (suc i) d e g l)),
        omega (arith, lt),
      )

  below :
      (k i : ℕ)
      → get_elem? cs k ≡ some name
      → get_elem? cs i ≡ some h
      → i < k
      → IsSelectedAfter name cs k i h
  below k i e g l =
      let r = Places.without_below name h cs k i d e g l in
      let lt = Places.lt_of_get_elem? (without name cs) i h r in
      let lt' = Places.lt_of_get_elem? cs k name e in
      (
        i,
        adjust_below k i (omega (arith, lt', b)) l,
        r
            ∙ sym (
                if-false (str_eq name h) _ _ (
                  ground (
                    arith,
                    Places.places_differ h name cs i k d g e l,
                    eq_iff name h,
                    eq_iff h name,
                  ))),
        omega (arith, lt),
      )

  same_place : (k : ℕ) → get_elem? cs k ≡ some name → name ≡ h → IsSelectedAfter name cs k k h
  same_place k e q = (
    0,
    adjust_same k (omega (arith, Places.lt_of_get_elem? cs k name e, b)),
    head_at_zero (without name cs) ∙ sym (if-true _ _ _ ((eq_iff name h).1 q)),
    omega arith,
  )

  selected_after :
      (k i : ℕ)
      → get_elem? cs k ≡ some name
      → get_elem? cs i ≡ some h
      → IsSelectedAfter name cs k i h
  selected_after k i e g = elim (Bool-cases (ltb k i)) [
    | inl l ↦ above k i e g (ground arith)
    | inr l ↦ elim (Bool-cases (ltb i k)) [
      | inl m ↦ below k i e g (ground arith)
      | inr m ↦
          subst (λ j. IsSelectedAfter name cs k j h) (sym (same k i l m))
            (same_place k e
              (ground (arith, e, subst (λ j. get_elem? cs j ≡ some h) (same k i l m) g)))
    ]
  ]

module _ (name : String) (sm : SwitchManager) (b : length sm.computers < 2 ^ 31) where
  -- What remains after the name at place k is removed, the manager being at place i.
  remove_at-Follows :
      (k i : ℕ) (h : String)
      → Places.Distinct sm.computers
      → sm.current_computer ≡ pos i
      → get_elem? sm.computers k ≡ some name
      → get_elem? sm.computers i ≡ some h
      → Follows (remove_at name (some k) sm) (record {
        names = without name sm.computers;
        selected = keep name (without name sm.computers) (view sm).selected;
      })
  unfolding remove_at view computer_at
  remove_at-Follows k i h d p e g =
      let (j, q, r, l) = selected_after name h sm.computers d b k i e g in
      let moved = ap (adjust_current k) p ∙ q in
      (
        (Places.Distinct-without name sm.computers d, j, moved, l),
        ap (λ (s : Option String). record { names = without name sm.computers; selected = s })
            (ap (λ c. computer_at c (without name sm.computers)) moved
              ∙ r
              ∙ sym (
                  ap (keep name (without name sm.computers))
                    (ap (λ c. computer_at c sm.computers) p ∙ g))),
      )

  pub remove_computer-Follows : IsOk sm → Follows (remove_computer name sm) (remove name (view sm))
  unfolding remove_computer remove remove_at view computer_at
  remove_computer-Follows (d, i, p, l) = elim (Bool-cases (has name sm.computers)) [
    | inr e ↦
        subst₂ Follows
          (ap (λ o. remove_at name o sm)
            (sym (Places.removed_index_absent name 0 sm.computers none e)))
          (sym (if-false _ _ _ e)) ((d, i, p, l), refl)
    | inl e ↦
        let (k, q, g) = Places.removed_index_at name 0 sm.computers none d e in
        let (h, at) =
          get_elem?-lt sm.computers i
            (omega (arith, l, Places.lt_of_get_elem? sm.computers k name g)) in
        subst₂ Follows (ap (λ o. remove_at name o sm) (sym (q ∙ ap some (omega arith))))
          (sym (if-true _ _ _ e)) (remove_at-Follows k i h d p g at)
  ]
