-- ===== src/Ui/Control.antt =====
-- internal/ui/server.go: what the interface shows when the goroutines that a key starts have run.
use waymon.Common.{
  ℕ, ◌≡◌, refl, ap, ◌∙◌, String, Bool, true, false, Option, none, some, List, [], ◌∷◌, arith,
  str_eq, if◌then◌else◌, if-true, if-false,
}
use waymon.Manager.State.{Platform, ClientManager}
use waymon.Manager.Switch.{switch_to_local, switch_to_client}
use waymon.Manager.Rotation.{get_active_client}
use waymon.Manager.Targets.{switch_to_local_frees}
use waymon.Ui.ServerModel.{
  Call, calls_switch_to_local, calls_switch_to_client, ServerModel, refresh_client_list, update_key,
  key_control, key_auth, key_local,
}

module _ (P : Platform) where
  abbrev pub run_call : ℕ → Call → ClientManager P → ClientManager P
  run_call now calls_switch_to_local cm = (switch_to_local P now cm).0
  run_call now (calls_switch_to_client id) cm = (switch_to_client P now id cm).0

  -- The oldest call runs first.
  unfoldable pub run_calls : ℕ → List Call → ClientManager P → ClientManager P
  run_calls now [] cm = cm
  run_calls now (call ∷ calls) cm = run_call now call (run_calls now calls cm)

  abbrev pub run_on : ℕ → List Call → Option (ClientManager P) → Option (ClientManager P)
  run_on now calls none = none
  run_on now calls (some cm) = some (run_calls now calls cm)

  -- The goroutines run, and then the scheduled refresh.
  unfoldable pub settle : ℕ → ServerModel P → ServerModel P
  unfolding run_calls
  settle now m =
      refresh_client_list P
        (record m { client_manager = run_on now m.calls m.client_manager; calls = [] })

  no_active_client :
      (now : ℕ) (cm : ClientManager P)
      → cm.controlling_local ≡ false
      → get_active_client P (switch_to_local P now cm).0 ≡ none
  unfolding get_active_client
  no_active_client now cm controlling =
      let (_, _, freed) = switch_to_local_frees P now cm in
      if-true _ _ _
        (ap (λ (id : String). str_eq id "") (freed ∙ if-false cm.controlling_local _ _ controlling))

  -- A key without a pending authentication.
  unless_asked :
      (now : ℕ) (k : String) (m : ServerModel P) (o : Option String)
      → o ≡ none
      → (elim o as (λ _. ServerModel P) [
        | none ↦ key_control P now k m
        | some addr ↦ key_auth P now k addr m
      ])
        ≡ key_control P now k m
  unless_asked now k m none unasked = refl
  unless_asked now k m (some addr) unasked = ground (arith, unasked)

  update_key-key_local :
      (now : ℕ) (esc : Bool) (m : ServerModel P)
      → m.base.is_shutting_down ≡ false
      → m.pending_auth ≡ none
      → update_key P now (if esc then "esc" else "0") m ≡ key_local P now m
  unfolding update_key key_control
  update_key-key_local now true m running unasked =
      if-false m.base.is_shutting_down _ _ running ∙ unless_asked now "esc" m m.pending_auth unasked
  update_key-key_local now false m running unasked =
      if-false m.base.is_shutting_down _ _ running ∙ unless_asked now "0" m m.pending_auth unasked

  key_local_lem :
      (now later : ℕ) (m : ServerModel P) (cm : ClientManager P)
      → m.client_manager ≡ some cm
      → m.calls ≡ []
      → cm.controlling_local ≡ false
      → let pressed = key_local P now m in
        (pressed.local_control ≡ true)
        × ((settle later pressed).local_control ≡ true)
        × ((settle later pressed).active_client ≡ none)
        × ((settle later pressed).client_manager ≡ some (switch_to_local P later cm).0)
  unfolding key_local settle run_calls refresh_client_list
  key_local_lem now later m cm managed idle controlling =
      rw (managed, idle, no_active_client later cm controlling) (refl, refl, refl, refl)

  -- While a client has control, no authentication is pending and nothing is shutting down, the keys
  -- "0" and "esc" make the interface show local control at once, and it still does so, for a manager
  -- that controls the local system, when the goroutine and the refresh that they start have run.
  pub update_key_releases :
      (now later : ℕ) (esc : Bool) (m : ServerModel P) (cm : ClientManager P)
      → m.client_manager ≡ some cm
      → m.base.is_shutting_down ≡ false
      → m.pending_auth ≡ none
      → m.calls ≡ []
      → cm.controlling_local ≡ false
      → let pressed = update_key P now (if esc then "esc" else "0") m in
        (pressed.local_control ≡ true)
        × ((settle later pressed).local_control ≡ true)
        × ((settle later pressed).active_client ≡ none)
        × ((settle later pressed).client_manager ≡ some (switch_to_local P later cm).0)
  update_key_releases now later esc m cm managed running unasked idle controlling =
      rw (update_key-key_local now esc m running unasked)
        (key_local_lem now later m cm managed idle controlling)
