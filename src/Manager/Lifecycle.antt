-- ===== src/Manager/Lifecycle.antt =====
-- internal/server/manager.go: clients that come, go and describe themselves keep the invariant.
use waymon.Common.{
  ℕ, ◌≡◌, ◌≢◌, refl, sym, ◌∙◌, subst, String, true, false, Option, none, some, List, [], ◌∷◌, inl,
  inr, arith, str_eq, eq_iff, if◌then◌else◌, Bool-cases, Option-cases, is_some, All, if_elim,
}
use waymon.Common.Assoc.{
  lookup, insert, delete, adjust, lookup-insert, lookup-delete, All-insert, All-delete, All-adjust,
}
use waymon.Proto.{ClientConfig}
use waymon.Manager.State.{
  Platform, ClientManager, ConnectedClient, notify, client_connected, client_disconnected,
}
use waymon.Manager.Core.{Core, core, core-notify}
use waymon.Manager.Clients.{
  Outcome, done, then_switch_to_local, panics, register_client, release_if_active, remove,
  unregister_client, target_client, configure, update_cursor_bounds, update_client_configuration,
}
use waymon.Manager.Invariant.{EntryOk, CoreOk}
use waymon.Manager.Steps.{Ok, is_some-lookup-adjust}

module _ {V : Type 0} where
  All-delete_active :
      (id : String) (m : List (String × ConnectedClient V))
      → All (EntryOk id) m
      → All (EntryOk "") (delete id m)
  unfolding delete
  All-delete_active id [] h = tt
  All-delete_active id ((k, c) ∷ m) h = elim (Bool-cases (str_eq k id)) [
    | inl e ↦ rw e (All-delete_active id m h.1)
    | inr e ↦ rw e (
      record {
        keyed = h.0.keyed;
        named = h.0.named;
        single = λ s. ground (arith, eq_iff k id, h.0.single s);
      },
      All-delete_active id m h.1,
    )
  ]

  is_some-lookup-insert :
      (k j : String) (c : ConnectedClient V) (m : List (String × ConnectedClient V))
      → is_some (lookup j m) ≡ true
      → is_some (lookup j (insert k c m)) ≡ true
  is_some-lookup-insert k j c m h = ground (arith, lookup-insert k j c m)

  abbrev without : String → Core V → Core V
  without id k = record k { clients = delete id k.clients }

  without-CoreOk :
      (id : String) (k : Core V) → str_eq k.active id ≡ false → CoreOk k → CoreOk (without id k)
  without-CoreOk id k other ok = record {
    entries = All-delete (EntryOk k.active) id k.clients ok.entries;
    idle = ok.idle;
    connected = λ e. ground (
      arith,
      lookup-delete id k.active k.clients,
      eq_iff id k.active,
      eq_iff k.active id,
      ok.connected e,
    );
  }

  All-configure :
      (config : ClientConfig V) (a key : String) (m : List (String × ConnectedClient V))
      → All (EntryOk a) m
      → All (EntryOk a) (adjust key (configure config) m)
  unfolding configure
  All-configure config a key m h =
      All-adjust (EntryOk a) (EntryOk a) key (configure config) m
        (λ v p. record { keyed = p.keyed; named = p.named; single = p.single }) (λ j v ne p. p) h

module _ (P : Platform) where
  open P use {float}

  -- A new client, or one that registers again, keeps the invariant.
  pub register_client-Ok :
      (now : ℕ) (id name address : String) (cm : ClientManager P)
      → id ≢ ""
      → Ok P cm
      → Ok P (register_client P now id name address cm)
  unfolding register_client
  register_client-Ok now id name address cm named ok =
      rw (core-notify P (client_connected name address) _) (record {
        entries =
            All-insert (EntryOk cm.active_client_id) id _ cm.clients
              (record { keyed = refl; named = named; single = λ s. cc }) ok.entries;
        idle = ok.idle;
        connected = λ e. is_some-lookup-insert id cm.active_client_id _ cm.clients (ok.connected e);
      })

  core-release_if_active :
      (id : String) (c : ConnectedClient float.Value) (cm : ClientManager P)
      → core (release_if_active P id c cm) ≡ (
          if str_eq cm.active_client_id id
          then record { clients = cm.clients; active = ""; local = true }
          else core cm)
  unfolding release_if_active notify
  core-release_if_active id c cm = ground arith

  -- A client that leaves is no longer active, and nobody else is marked in its place.
  pub unregister_client-Ok :
      (id : String) (cm : ClientManager P) → Ok P cm → Ok P (unregister_client P id cm)
  unfolding unregister_client
  unregister_client-Ok id cm ok = elim (Option-cases (lookup id cm.clients)) [
    | inl missing ↦ rw (missing, unregister_client) ok
    | inr (c, found) ↦
        rw (found, unregister_client)
          (rw
            (core-notify P (client_disconnected c.name c.address)
              (remove P id (release_if_active P id c cm)))
            (subst (λ k. CoreOk (without id k)) (sym (core-release_if_active id c cm))
              (if_elim (λ k. CoreOk (without id k)) (str_eq cm.active_client_id id)
                {x = record { clients = cm.clients; active = ""; local = true }} {y = core cm}
                (λ e. record {
                  entries = All-delete_active id cm.clients (
                      subst (λ a. All (EntryOk a) cm.clients) ((eq_iff cm.active_client_id id).0 e)
                        ok.entries);
                  idle = λ _. refl;
                  connected = λ f. cc;
                })
                (λ e. without-CoreOk id (core cm) e ok))))
  ]

  -- What an outcome leaves behind.
  abbrev pub state : Outcome P → ClientManager P
  state (done cm) = cm
  state (then_switch_to_local cm) = cm
  state (panics cm) = cm

  configured-Ok :
      (config : ClientConfig float.Value) (key : String) (cm : ClientManager P)
      → Ok P cm
      → Ok P (record cm { clients = adjust key (configure config) cm.clients })
  configured-Ok config key cm ok = record {
    entries = All-configure config cm.active_client_id key cm.clients ok.entries;
    idle = ok.idle;
    connected = λ e.
        is_some-lookup-adjust key cm.active_client_id (configure config) cm.clients
        ∙ ok.connected e;
  }

  abbrev configured :
      ClientConfig float.Value
      → Option (String × ConnectedClient float.Value)
      → ClientManager P
      → ClientManager P
  configured config none cm = cm
  configured config (some (key, c)) cm = record cm {
    clients = adjust key (configure config) cm.clients;
  }

  core-update_client_configuration :
      (config : ClientConfig float.Value) (source : String) (cm : ClientManager P)
      → core (state (update_client_configuration P config source cm))
        ≡ core (configured config (target_client P config source cm.clients) cm)
  unfolding update_client_configuration update_cursor_bounds notify
  core-update_client_configuration config source cm = ground arith

  -- A configuration keeps the invariant, also where reading it panics.
  pub update_client_configuration-Ok :
      (config : ClientConfig float.Value) (source : String) (cm : ClientManager P)
      → Ok P cm
      → Ok P (state (update_client_configuration P config source cm))
  update_client_configuration-Ok config source cm ok =
      rw (core-update_client_configuration config source cm)
        (elim (target_client P config source cm.clients) as (λ t. Ok P (configured config t cm)) [
          | none ↦ ok
          | some (key, c) ↦ configured-Ok config key cm ok
        ])
