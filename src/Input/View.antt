-- ===== src/Input/View.antt =====
-- internal/input/switch.go: the names that the manager stands for, and a new one.
use waymon.Common.{
  ℕ, zero, suc, ◌-◌, ◌≤◌, ◌≡◌, refl, ◌∙◌, sym, ap, String, Option, none, some, inl, inr, List, [],
  ◌∷◌, ◌++◌, arith, length, get_elem?, get_elem?-lt, length-append, Bool-cases, if_elim, subst,
  if-true, if-false,
}
use waymon.Common.Int.{ℤ, pos}
use waymon.Common.Sort.{has}
use waymon.Input.Switch.{SwitchManager, add_computer, computer_at}
use waymon.Input.Contract.{Rotation, add}
use waymon.Input.Places

-- What the manager says, by names.
unfoldable pub view : SwitchManager → Rotation
view sm = record { names = sm.computers; selected = computer_at sm.current_computer sm.computers }

-- The names are distinct, and the index is in range, or 0 where there are none.
abbrev pub IsPlaced : List String → ℤ → Type 0
IsPlaced names current =
    Places.Distinct names × (i : ℕ) × (current ≡ pos i) × (i ≤ length names - 1)

abbrev pub IsOk : SwitchManager → Type 0
IsOk sm = IsPlaced sm.computers sm.current_computer

view_add_at :
    (name : String) (cs : List String) (i : ℕ)
    → i ≤ length cs - 1
    → get_elem? (cs ++ (name ∷ [])) i
      ≡ elim (get_elem? cs i) [ none ↦ some name | some here ↦ some here ]
view_add_at name [] zero l = refl
view_add_at name [] (suc i) l = absurd (omega (arith, l))
view_add_at name (c ∷ cs) i l =
    let (h, e) = get_elem?-lt (c ∷ cs) i (omega (arith, l)) in
    rw (e, Places.get_elem?-append (c ∷ cs) (name ∷ []) i h e) refl

-- The manager is in order and says what the contract says.
abbrev pub Follows : SwitchManager → Rotation → Type 0
Follows sm r = IsOk sm × (view sm ≡ r)

pub add_computer-IsOk : (name : String) (sm : SwitchManager) → IsOk sm → IsOk (add_computer name sm)
unfolding add_computer
add_computer-IsOk name sm (d, i, p, l) =
    if_elim (λ (r : SwitchManager). IsOk r) _ (λ e. (d, i, p, l))
      (λ e. (
        Places.Distinct-append name sm.computers d e,
        i,
        p,
        omega (arith, l, length-append sm.computers (name ∷ [])),
      ))

pub view-add_computer :
    (name : String) (sm : SwitchManager)
    → IsOk sm
    → view (add_computer name sm) ≡ add name (view sm)
unfolding add_computer add view computer_at
view-add_computer name sm (d, i, p, l) = elim (Bool-cases (has name sm.computers)) [
  | inl e ↦ ap view (if-true _ _ _ e) ∙ sym (if-true _ _ _ e)
  | inr e ↦
      ap view (if-false _ _ _ e)
      ∙ ap (λ (h : Option String). record { names = sm.computers ++ (name ∷ []); selected = h })
          (subst
            (λ c.
              computer_at c (sm.computers ++ (name ∷ []))
              ≡ elim (computer_at c sm.computers) [ none ↦ some name | some here ↦ some here ])
            (sym p) (view_add_at name sm.computers i l))
      ∙ sym (if-false _ _ _ e)
]
