-- ===== src/Input/Moves.antt =====
-- internal/input/switch.go: the two switches follow the order of the names.
use waymon.Common.{
  ℕ, zero, suc, ◌+◌, ◌%◌, ◌-◌, ◌^◌, ◌<◌, ◌≤◌, ◌≡◌, refl, ◌∙◌, sym, ap, String, true, false, Option,
  none, some, inl, inr, ◌⊎◌, List, [], ◌∷◌, arith, if◌then◌else◌, length, get_elem?, get_elem?-lt,
  Bool-cases, if_elim, subst, if-true, if-false, Option-cases, leb, ◌==◌,
}
use waymon.Common.Int.{ℤ, pos, int32, ◌-ℤ◌, ◌+ℤ◌}
use waymon.Input.Switch.{
  SwitchManager, Outcome, Error, done, only_one, switch_by, next_computer, previous_computer,
  call_on_switch, switched, computer_at, count,
}
use waymon.Input.Contract.{
  Rotation, select, move_selected, successor, predecessor, first_or, last_or,
}
use waymon.Input.Places
use native.Mathlib.Nat.{mod-eq_of_lt, mod_self, add-mod_right}
use waymon.Input.View.{view, IsOk, Follows}

-- The place after, and the one before, around the ends.
abbrev pub place_after : ℕ → ℕ → ℕ
place_after n i = if suc i == n then 0 else suc i

abbrev pub place_before : ℕ → ℕ → ℕ
place_before n zero = n - 1
place_before n (suc i) = i

-- The count and the sums are exact.
count_exact : (n : ℕ) → n < 2 ^ 30 → int32 (pos n) ≡ pos n
unfolding int32
count_exact n b = ground arith

next_sum : (n i : ℕ) → i < n → n < 2 ^ 30 → int32 (pos i +ℤ pos 1) ≡ pos (suc i)
unfolding int32 ◌+ℤ◌
next_sum n i h b = ground arith

previous_sum :
    (n i : ℕ) → i < n → n < 2 ^ 30 → int32 (int32 (pos i -ℤ pos 1) +ℤ pos n) ≡ pos (i + n - 1)
unfolding int32 ◌+ℤ◌ ◌-ℤ◌
previous_sum n i h b = ground arith

next_computer_place :
    (n i : ℕ) → i < n → n < 2 ^ 30 → next_computer (pos i) (int32 (pos n)) ≡ pos (place_after n i)
unfolding next_computer
next_computer_place n i h b =
    rw (next_sum n i h b, count_exact n b) (ap pos (rem_after (Bool-cases (suc i == n))))
  where
    rem_after : ((suc i == n) ≡ true) ⊎ ((suc i == n) ≡ false) → suc i % n ≡ place_after n i
    rem_after (inl e) =
        subst (λ m. suc i % m ≡ 0) (ground arith) (mod_self (suc i)) ∙ sym (if-true _ _ _ e)
    rem_after (inr e) = mod-eq_of_lt (ground arith) ∙ sym (if-false _ _ _ e)

previous_computer_place :
    (n i : ℕ)
    → i < n
    → n < 2 ^ 30
    → previous_computer (pos i) (int32 (pos n)) ≡ pos (place_before n i)
unfolding previous_computer
previous_computer_place n i h b =
    rw (count_exact n b, previous_sum n i h b) (ap pos (rem_before i h))
  where
    rem_before : (j : ℕ) → j < n → (j + n - 1) % n ≡ place_before n j
    rem_before zero l = mod-eq_of_lt (omega arith) ∙ omega arith
    rem_before (suc j) l =
        ap (λ k. k % n) (omega arith) ∙ (add-mod_right j n ∙ mod-eq_of_lt (omega arith))

-- What a move of the index has to do to follow a choice among the names.
abbrev pub IsMove : (ℤ → ℤ → ℤ) → (List String → String → String) → (ℕ → ℕ → ℕ) → Type 0
IsMove move choose place =
    ((n i : ℕ) → i < n → n < 2 ^ 30 → move (pos i) (int32 (pos n)) ≡ pos (place n i))
    × ((n i : ℕ) → i < n → place n i < n)
    × ((cs : List String) (i : ℕ) (h : String)
        → Places.Distinct cs
        → get_elem? cs i ≡ some h
        → get_elem? cs (place (length cs) i) ≡ some (choose cs h))

place_before_lt : (n i : ℕ) → i < n → place_before n i < n
place_before_lt n zero l = omega arith
place_before_lt n (suc i) l = omega arith

head_at : (h : String) (cs : List String) → 0 < length cs → get_elem? cs 0 ≡ some (first_or h cs)
head_at h [] l = absurd (omega (arith, l))
head_at h (c ∷ cs) l = refl

successor_at :
    (cs : List String) (i : ℕ) (h : String)
    → Places.Distinct cs
    → get_elem? cs i ≡ some h
    → get_elem? cs (place_after (length cs) i) ≡ some (successor (first_or h cs) h cs)
successor_at cs i h d e =
    let l = Places.lt_of_get_elem? cs i h e in
    elim (Bool-cases (suc i == length cs)) [
      | inl w ↦
          ap (get_elem? cs) (if-true _ _ _ w)
          ∙ head_at h cs (omega (arith, l))
          ∙ ap some (sym (Places.successor_wraps (first_or h cs) h cs i d e (ground arith)))
      | inr w ↦
          ap (get_elem? cs) (if-false _ _ _ w)
          ∙ Places.successor_next (first_or h cs) h cs i d e (ground arith)
    ]

predecessor_at :
    (cs : List String) (i : ℕ) (h : String)
    → Places.Distinct cs
    → get_elem? cs i ≡ some h
    → get_elem? cs (place_before (length cs) i) ≡ some (predecessor (last_or h cs) h cs)
predecessor_at [] i h d e = ground (arith, e)
predecessor_at (c ∷ cs) zero h d e =
    ap (get_elem? (c ∷ cs)) (omega arith)
    ∙ Places.get_elem?-last_or h c cs
    ∙ ap some (sym (Places.predecessor_first (last_or h (c ∷ cs)) h c cs (ground (arith, e))))
predecessor_at (c ∷ cs) (suc i) h d e =
    Places.predecessor_before (last_or h (c ∷ cs)) h (c ∷ cs) i d e

pub next-IsMove : IsMove next_computer (λ cs h. successor (first_or h cs) h cs) place_after
next-IsMove = (next_computer_place, λ n i l. ground arith, successor_at)

pub previous-IsMove :
    IsMove previous_computer (λ cs h. predecessor (last_or h cs) h cs) place_before
previous-IsMove = (previous_computer_place, place_before_lt, predecessor_at)

-- A switch returns, and the result follows the contract.
abbrev pub Returns : Outcome → Rotation → Type 0
Returns o r = (sm : SwitchManager) × (e : Option Error) × (o ≡ done sm e) × Follows sm r

call_on_switch-Follows :
    (sm : SwitchManager) (r : Rotation) → Follows sm r → Follows (call_on_switch sm) r
unfolding call_on_switch view
call_on_switch-Follows sm r f = if_elim (λ (s : SwitchManager). Follows s r) _ (λ _. f) (λ _. f)

module _ (move : ℤ → ℤ → ℤ) (choose : List String → String → String) (place : ℕ → ℕ → ℕ)
    (is_move : IsMove move choose place) where
  moved_selected :
      (cs : List String) (i : ℕ) (h : String)
      → Places.Distinct cs
      → length cs < 2 ^ 30
      → get_elem? cs i ≡ some h
      → computer_at (move (pos i) (int32 (pos (length cs)))) cs ≡ some (choose cs h)
  unfolding computer_at
  moved_selected cs i h d b e =
      ap (λ c. computer_at c cs) (is_move.0 (length cs) i (Places.lt_of_get_elem? cs i h e) b)
      ∙ is_move.2 cs i h d e

  -- A list of at most one name has nowhere to go.
  selection_stays :
      (cs : List String) (i : ℕ)
      → Places.Distinct cs
      → length cs ≤ 1
      → get_elem? cs i ≡ move_selected (choose cs) (get_elem? cs i)
  selection_stays cs i d l = elim (Option-cases (get_elem? cs i)) [
    | inl e ↦ e ∙ sym (ap (move_selected (choose cs)) e)
    | inr (h, e) ↦
        let j = Places.lt_of_get_elem? cs i h e in
        ap (get_elem? cs) (omega (arith, is_move.1 (length cs) i j))
        ∙ is_move.2 cs i h d e
        ∙ sym (ap (move_selected (choose cs)) e)
  ]

  -- With two names or more, the manager at the place of `h` moves.
  moves :
      (sm : SwitchManager)
      → length sm.computers < 2 ^ 30
      → Places.Distinct sm.computers
      → (i : ℕ) → sm.current_computer ≡ pos i
      → (h : String) → get_elem? sm.computers i ≡ some h
      → leb (length sm.computers) 1 ≡ false
      → Returns (switch_by move sm) (select choose (view sm))
  unfolding switch_by view computer_at switched
  moves sm b d i p h g e =
      let from = ap (λ c. computer_at c sm.computers) p ∙ g in
      let to =
        ap (λ c. computer_at (move c (count sm)) sm.computers) p
        ∙ moved_selected sm.computers i h d b g in
      let l = Places.lt_of_get_elem? sm.computers i h g in
      let after = record sm { current_computer = move sm.current_computer (count sm) } in
      (
        call_on_switch after,
        none,
        if-false _ _ _ e
            ∙ (ap
                  (λ o.
                    switched o (computer_at (move sm.current_computer (count sm)) sm.computers)
                      after)
                  from
                ∙ ap (λ o. switched (some h) o after) to),
        call_on_switch-Follows after (select choose (view sm)) (
          (
            d,
            place (length sm.computers) i,
            ap (λ c. move c (count sm)) p ∙ is_move.0 (length sm.computers) i l b,
            omega (arith, is_move.1 (length sm.computers) i l),
          ),
          ap (λ (s : Option String). record { names = sm.computers; selected = s })
              (to ∙ sym (ap (move_selected (choose sm.computers)) from)),
        ),
      )

  pub switch_by-Returns :
      (sm : SwitchManager)
      → length sm.computers < 2 ^ 30
      → IsOk sm
      → Returns (switch_by move sm) (select choose (view sm))
  unfolding switch_by view computer_at switched
  switch_by-Returns sm b (d, i, p, l) = elim (Bool-cases (leb (length sm.computers) 1)) [
    | inl e ↦ (
      sm,
      some only_one,
      if-true _ _ _ e,
      (
        (d, i, p, l),
        ap (λ (s : Option String). record { names = sm.computers; selected = s })
            (subst
              (λ c.
                computer_at c sm.computers
                ≡ move_selected (choose sm.computers) (computer_at c sm.computers))
              (sym p) (selection_stays sm.computers i d (ground arith))),
      ),
    )
    | inr e ↦ let (h, g) = get_elem?-lt sm.computers i (ground arith) in moves sm b d i p h g e
  ]
