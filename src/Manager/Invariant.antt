-- ===== src/Manager/Invariant.antt =====
-- internal/server/manager.go: what holds of the manager between any two calls.
use waymon.Common.{
  ◌≡◌, ◌≢◌, refl, String, true, false, none, List, [], ◌∷◌, arith, eq_iff, is_some, All,
}
use waymon.Common.Assoc.{lookup, adjust, All-adjust}
use waymon.Proto.{client_idle, client_being_controlled}
use waymon.Manager.State.{ConnectedClient, set_status}
use waymon.Manager.Core.{Core}

module _ {V : Type 0} where
  -- One entry of the map: its key is its ID, which is not empty, and only the active client is
  -- marked as being controlled.
  pub record EntryOk (active : String) (e : String × ConnectedClient V) : Type 0 where
    pub keyed : e.1.id ≡ e.0
    pub named : e.0 ≢ ""
    pub single : e.1.status ≡ client_being_controlled → e.0 ≡ active

  -- Local control means that there is no active client; otherwise the active client is connected.
  pub record CoreOk (c : Core V) : Type 0 where
    pub entries : All (EntryOk c.active) c.clients
    pub idle : c.local ≡ true → c.active ≡ ""
    pub connected : c.local ≡ false → is_some (lookup c.active c.clients) ≡ true

  abbrev idled : ConnectedClient V → ConnectedClient V
  idled = set_status client_idle

  -- Setting the active client idle makes the entries fit any other active client.
  pub All-idle_active :
      (a b : String) (m : List (String × ConnectedClient V))
      → All (EntryOk a) m
      → All (EntryOk b) (adjust a idled m)
  All-idle_active a b m h =
      All-adjust (EntryOk a) (EntryOk b) a idled m
        (λ v p. record { keyed = p.keyed; named = p.named; single = λ s. cc })
        (λ j v ne p. record {
          keyed = p.keyed;
          named = p.named;
          single = λ s. ground (arith, eq_iff j a, p.single s);
        })
        h

  pub All-control :
      (b : String) (m : List (String × ConnectedClient V))
      → All (EntryOk b) m
      → All (EntryOk b) (adjust b (set_status client_being_controlled) m)
  All-control b m h =
      All-adjust (EntryOk b) (EntryOk b) b (set_status client_being_controlled) m
        (λ v p. record { keyed = p.keyed; named = p.named; single = λ s. refl }) (λ j v ne p. p) h

  -- A key that is missing may be any active client's, if none is marked.
  pub lookup_empty :
      (a : String) (m : List (String × ConnectedClient V)) → All (EntryOk a) m → lookup "" m ≡ none
  unfolding lookup
  lookup_empty a [] h = refl
  lookup_empty a ((j, c) ∷ m) h = ground (arith, eq_iff j "", h.0.named, lookup_empty a m h.1)
