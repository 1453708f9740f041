-- ===== src/Manager/Steps.antt =====
-- internal/server/manager.go: the switching methods keep the invariant.
use waymon.Common.{
  ℕ, ◌≡◌, ◌≢◌, refl, sym, ap, ◌∙◌, subst, String, true, false, not, ◌&&◌, Option, none, List, [],
  ◌∷◌, inl, inr, arith, str_eq, eq_iff, if_elim, Bool-cases, Option-cases, is_some, All,
}
use waymon.Common.Assoc.{lookup, adjust, lookup-adjust}
use waymon.Proto.{client_idle, client_being_controlled}
use waymon.Manager.State.{
  Platform, ClientManager, ConnectedClient, Error, set_status, released_control,
}
use waymon.Manager.Switch.{
  idle_previous, take_control, retarget, switch_to_client, release_previous,
  switch_to_local_internal, switch_to_local,
}
use waymon.Manager.Core.{core, core-notify, core-take_control, core-send_release}
use waymon.Manager.Invariant.{EntryOk, CoreOk, All-idle_active, All-control}

module _ {V : Type 0} where
  -- An invariant with no active client leaves the choice of the next one free.
  All-unmarked :
      (b : String) (m : List (String × ConnectedClient V)) → All (EntryOk "") m → All (EntryOk b) m
  All-unmarked b [] h = tt
  All-unmarked b ((k, c) ∷ m) h = (
    record {
      keyed = h.0.keyed;
      named = h.0.named;
      single = λ s. absurd (h.0.named (h.0.single s));
    },
    All-unmarked b m h.1,
  )

  pub is_some-lookup-adjust :
      (k j : String) (f : ConnectedClient V → ConnectedClient V)
      (m : List (String × ConnectedClient V))
      → is_some (lookup j (adjust k f m)) ≡ is_some (lookup j m)
  is_some-lookup-adjust k j f m = ground (arith, lookup-adjust k j f m)

module _ (P : Platform) where
  open P use {float, Backend, set_target}

  abbrev pub Ok : ClientManager P → Type 0
  Ok cm = CoreOk (core cm)

  -- An active client is in the map.
  pub not_missing :
      (cm : ClientManager P)
      → Ok cm
      → str_eq cm.active_client_id "" ≡ false
      → lookup cm.active_client_id cm.clients ≢ none
  not_missing cm ok named missing =
      ground (arith, ok.idle, ok.connected, eq_iff cm.active_client_id "")

  idle_previous-entries :
      (b : String) (cm : ClientManager P) → Ok cm → All (EntryOk b) (idle_previous P cm).clients
  unfolding idle_previous
  idle_previous-entries b cm ok = elim (Bool-cases (str_eq cm.active_client_id "")) [
    | inl e ↦ rw e (
        All-unmarked b cm.clients (
          subst (λ a. All (EntryOk a) cm.clients) ((eq_iff cm.active_client_id "").0 e) ok.entries))
    | inr e ↦ rw e (All-idle_active cm.active_client_id b cm.clients ok.entries)
  ]

  idle_previous_control :
      (cm : ClientManager P)
      → ((idle_previous P cm).active_client_id ≡ cm.active_client_id)
        × ((idle_previous P cm).controlling_local ≡ cm.controlling_local)
  unfolding idle_previous
  idle_previous_control cm = ground arith

  lookup-idle_previous :
      (id : String) (cm : ClientManager P)
      → is_some (lookup id (idle_previous P cm).clients) ≡ is_some (lookup id cm.clients)
  unfolding idle_previous
  lookup-idle_previous id cm =
      ground
        (arith, is_some-lookup-adjust cm.active_client_id id (set_status client_idle) cm.clients)

  idle_previous-Ok : (cm : ClientManager P) → Ok cm → Ok (idle_previous P cm)
  idle_previous-Ok cm ok =
      let (active, local) = idle_previous_control cm in
      record {
        entries =
            subst (λ a. All (EntryOk a) (idle_previous P cm).clients) (sym active)
              (idle_previous-entries cm.active_client_id cm ok);
        idle = λ e. active ∙ ok.idle (sym local ∙ e);
        connected = λ e.
            rw active (lookup-idle_previous cm.active_client_id cm ∙ ok.connected (sym local ∙ e));
      }

  take_control-Ok :
      (now : ℕ) (id : String) (c : ConnectedClient float.Value) (b : Backend) (cm : ClientManager P)
      → All (EntryOk id) cm.clients
      → is_some (lookup id cm.clients) ≡ true
      → Ok (take_control P now id c b cm)
  take_control-Ok now id c b cm h found = rw (core-take_control P now id c b cm) (record {
    entries = All-control id cm.clients h;
    idle = λ e. cc;
    connected =
        λ _. is_some-lookup-adjust id id (set_status client_being_controlled) cm.clients ∙ found;
  })

  retarget-Ok :
      (now : ℕ) (id : String) (c : ConnectedClient float.Value) (cm : ClientManager P)
      → Ok cm
      → is_some (lookup id cm.clients) ≡ true
      → Ok (retarget P now id c (idle_previous P cm)).0
  unfolding retarget
  retarget-Ok now id c cm ok found =
      let (b, done) = set_target id (idle_previous P cm).input_backend in
      elim (Bool-cases done) [
        | inl e ↦ rw e (
            take_control-Ok now id c b (idle_previous P cm) (idle_previous-entries id cm ok)
              (lookup-idle_previous id cm ∙ found))
        | inr e ↦ rw e (idle_previous-Ok cm ok)
      ]

  -- Switching to a client keeps the invariant, also where the backend refuses the target.
  pub switch_to_client-Ok :
      (now : ℕ) (id : String) (cm : ClientManager P) → Ok cm → Ok (switch_to_client P now id cm).0
  unfolding switch_to_client
  switch_to_client-Ok now id cm ok =
      elim (Bool-cases (str_eq cm.active_client_id id && not cm.controlling_local)) [
        | inl same ↦ rw same ok
        | inr other ↦ elim (Option-cases (lookup id cm.clients)) [
          | inl missing ↦ rw (other, missing, switch_to_client) ok
          | inr (c, found) ↦
              rw (other, found, switch_to_client) (retarget-Ok now id c cm ok (ap is_some found))
        ]
      ]

  abbrev idle_active : ClientManager P → ClientManager P
  idle_active cm = record cm {
    clients = adjust cm.active_client_id (set_status client_idle) cm.clients;
  }

  released_entries :
      (now : ℕ) (cm : ClientManager P)
      → Ok cm
      → All (EntryOk "") (release_previous P now cm).clients
  unfolding release_previous
  released_entries now cm ok = elim (Bool-cases (str_eq cm.active_client_id "")) [
    | inl e ↦
        rw e
          (subst (λ a. All (EntryOk a) cm.clients) ((eq_iff cm.active_client_id "").0 e) ok.entries)
    | inr e ↦ elim (Option-cases (lookup cm.active_client_id cm.clients)) [
      | inl missing ↦ absurd (not_missing cm ok e missing)
      | inr (prev, found) ↦
          rw (e, found, release_previous)
            (rw (ap (λ k. k.clients) (core-send_release P now prev (idle_active cm)))
              (All-idle_active cm.active_client_id "" cm.clients ok.entries))
    ]
  ]

  pub switch_to_local_internal-Ok :
      (now : ℕ) (cm : ClientManager P) → Ok cm → Ok (switch_to_local_internal P now cm).0
  unfolding switch_to_local_internal
  switch_to_local_internal-Ok now cm ok =
      rw (core-notify P released_control _)
        (record { entries = released_entries now cm ok; idle = λ _. refl; connected = λ e. cc })

  pub switch_to_local-Ok :
      (now : ℕ) (cm : ClientManager P) → Ok cm → Ok (switch_to_local P now cm).0
  unfolding switch_to_local
  switch_to_local-Ok now cm ok =
      if_elim (λ (r : ClientManager P × Option Error). Ok r.0) cm.controlling_local (λ _. ok)
        (λ _. switch_to_local_internal-Ok now cm ok)
