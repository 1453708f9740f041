-- ===== src/Input/Refinement.antt =====
-- internal/input/switch.go: after any calls, the index stands for the name that the contract selects.
use waymon.Common.{
  ℕ, zero, suc, ◌+◌, ◌-◌, ◌^◌, ◌<◌, ◌≤◌, ◌≡◌, refl, ◌∙◌, sym, ap, String, Bool, Option, none, some,
  List, [], ◌∷◌, arith, length, length-append, subst,
}
use waymon.Common.Int.{pos}
use waymon.Input.Switch.{
  SwitchManager, Outcome, done, panics, new_switch_manager, add_computer, remove_computer,
  set_connection_state, set_active_state, set_on_switch_callback, switch_next, switch_previous,
  next_computer, previous_computer, current_computer_name, computer_name, computer_at,
}
use waymon.Input.Contract.{Rotation, select_next, select_previous, add, remove}
use waymon.Input.Places
use waymon.Input.View.{view, IsOk, Follows, add_computer-IsOk, view-add_computer}
use waymon.Input.Removal.{remove_computer-Follows}
use waymon.Input.Moves.{
  Returns, switch_by-Returns, next-IsMove, previous-IsMove, place_after, place_before,
}

pub data Command : Type 0 where
  adds removes : String → Command
  moves_next moves_previous : Command
  sets_active sets_callback : Bool → Command
  sets_connection : Bool → String → Command

unfoldable pub apply : Command → SwitchManager → Outcome
apply (adds name) sm = done (add_computer name sm) none
apply (removes name) sm = done (remove_computer name sm) none
apply moves_next sm = switch_next sm
apply moves_previous sm = switch_previous sm
apply (sets_active active) sm = done (set_active_state active sm) none
apply (sets_callback callback) sm = done (set_on_switch_callback callback sm) none
apply (sets_connection connected host) sm = done (set_connection_state connected host sm) none

-- The same command on the names.
unfoldable pub replay : Command → Rotation → Rotation
replay (adds name) r = add name r
replay (removes name) r = remove name r
replay moves_next r = select_next r
replay moves_previous r = select_previous r
replay _ r = r

abbrev pub and_then : Outcome → (SwitchManager → Outcome) → Outcome
and_then (done sm e) k = k sm
and_then panics k = panics

-- An error goes to the caller, and the manager goes on.
unfoldable pub run : List Command → SwitchManager → Outcome
run [] sm = done sm none
run (c ∷ cs) sm = and_then (apply c sm) (λ after. run cs after)

unfoldable pub replays : List Command → Rotation → Rotation
replays [] r = r
replays (c ∷ cs) r = replays cs (replay c r)

-- "unknown" is the name where there is no computer.
abbrev pub name_of : Option String → String
name_of none = "unknown"
name_of (some name) = name

apply-Returns :
    (c : Command) (sm : SwitchManager)
    → length sm.computers < 2 ^ 30
    → IsOk sm
    → Returns (apply c sm) (replay c (view sm))
unfolding apply replay set_active_state set_connection_state set_on_switch_callback view switch_next
    switch_previous select_next select_previous
apply-Returns (adds name) sm b ok =
    (add_computer name sm, none, refl, (add_computer-IsOk name sm ok, view-add_computer name sm ok))
apply-Returns (removes name) sm b ok =
    (remove_computer name sm, none, refl, remove_computer-Follows name sm (omega (arith, b)) ok)
apply-Returns moves_next sm b ok = switch_by-Returns next_computer _ place_after next-IsMove sm b ok
apply-Returns moves_previous sm b ok =
    switch_by-Returns previous_computer _ place_before previous-IsMove sm b ok
apply-Returns (sets_active active) sm b ok = (set_active_state active sm, none, refl, (ok, refl))
apply-Returns (sets_callback f) sm b ok = (set_on_switch_callback f sm, none, refl, (ok, refl))
apply-Returns (sets_connection f host) sm b ok =
    (set_connection_state f host sm, none, refl, (ok, refl))

-- A command adds one name at most.
replay_grows : (c : Command) (r : Rotation) → length (replay c r).names ≤ length r.names + 1
unfolding replay add remove select_next select_previous
replay_grows (adds name) r = ground (arith, length-append r.names (name ∷ []))
replay_grows (removes name) r = ground (arith, Places.length-without name r.names)
replay_grows moves_next r = omega arith
replay_grows moves_previous r = omega arith
replay_grows (sets_active active) r = omega arith
replay_grows (sets_callback f) r = omega arith
replay_grows (sets_connection f host) r = omega arith

run-Follows :
    (cs : List Command) (sm : SwitchManager)
    → length sm.computers + length cs < 2 ^ 30
    → IsOk sm
    → (after : SwitchManager) × (run cs sm ≡ done after none) × Follows after (replays cs (view sm))
unfolding run replays view
run-Follows [] sm b ok = (sm, refl, (ok, refl))
run-Follows (c ∷ cs) sm b ok =
    let (next, e, returned, (next_ok, seen)) = apply-Returns c sm (omega (arith, b)) ok in
    let grows =
      subst (λ (r : Rotation). length r.names ≤ length sm.computers + 1) (sym seen)
        (replay_grows c (view sm)) in
    let (after, ran, (after_ok, follows)) = run-Follows cs next (omega (arith, b, grows)) next_ok in
    (
      after,
      ap (λ o. and_then o (run cs)) returned ∙ ran,
      (after_ok, follows ∙ ap (replays cs) seen),
    )

-- The name at an index is the one that is selected there.
computer_name_at :
    (cs : List String) (i : ℕ) → computer_name (pos i) cs ≡ name_of (computer_at (pos i) cs)
unfolding computer_name computer_at
computer_name_at [] i = ground arith
computer_name_at (c ∷ cs) zero = ground arith
computer_name_at (c ∷ cs) (suc i) = ground (arith, computer_name_at cs i)

name-IsOk : (sm : SwitchManager) → IsOk sm → current_computer_name sm ≡ name_of (view sm).selected
unfolding current_computer_name view
name-IsOk sm (d, i, p, l) =
    subst (λ c. computer_name c sm.computers ≡ name_of (computer_at c sm.computers)) (sym p)
      (computer_name_at sm.computers i)

abbrev pub initial_rotation : Rotation
initial_rotation = record { names = "server" ∷ []; selected = some "server" }

-- After any fewer than 2^30 - 1 calls of its methods, a new manager has not panicked, lists the
-- computers of the contract, and names as the current one the computer that the contract selects,
-- which follows the names: a removal of another computer keeps it, and the switches go to the
-- name after it or before it, around the ends.
pub run_names_selected :
    (cs : List Command)
    → length cs < 2 ^ 30 - 1
    → (sm : SwitchManager) × (run cs new_switch_manager ≡ done sm none)
      × (sm.computers ≡ (replays cs initial_rotation).names)
      × (current_computer_name sm ≡ name_of (replays cs initial_rotation).selected)
unfolding view new_switch_manager computer_at
run_names_selected cs b =
    let (sm, ran, (ok, follows)) =
      run-Follows cs new_switch_manager (omega (arith, b)) ((refl, tt), 0, refl, omega arith) in
    (
      sm,
      ran,
      ap (λ (r : Rotation). r.names) follows,
      name-IsOk sm ok ∙ ap (λ (r : Rotation). name_of r.selected) follows,
    )
