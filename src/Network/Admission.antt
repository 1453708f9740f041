-- ===== src/Network/Admission.antt =====
-- internal/network/ssh_server.go with internal/config/config.go: which sessions there are, whatever
-- clients do. The SSH library starts a session only for a key that `publicKeyAuth` accepted, and
-- runs the deferred end of a handler once.
use waymon.Common.{
  ℕ, ◌&&◌, ◌+◌, ◌≤◌, ◌≡◌, refl, sym, ap, ◌∙◌, subst, String, Bool, true, false, Option, none, some,
  List, [], ◌∷◌, arith, length, All, if_elim, inl, inr, ◌⊎◌,
}
use waymon.Common.Assoc.{insert, delete, All-insert, All-delete}
use waymon.Common.Int.{ltb_ℤ, leb_ℤ, ℤ, pos, ◌≤ℤ◌, ◌<ℤ◌}
use waymon.Common.Sort.{has}
use waymon.Config.Store.{Store, whitelist, is_ssh_key_whitelisted}
use waymon.Network.Frame.{Writer}
use waymon.Network.Sessions.{
  SshServer, SshClient, Session, public_key_auth, open_session, close_session, stop, is_full,
  key_of,
}
use waymon.Network.Whitelist.{admit, whitelist_only, public_key_auth-IsAdmission}

-- A limit that is not reached leaves room.
room :
    (max : ℤ) (n : ℕ)
    → pos 0 <ℤ max
    → (ltb_ℤ (pos 0) max && leb_ℤ max (pos n)) ≡ false
    → pos (n + 1) ≤ℤ max
room max n p h = ground arith

none_accepted : (k : String) → ¬ (has k [] ≡ true)
none_accepted k h = ground (arith, h)

module _ {V : Type 0} where
  length-insert :
      (k : String) (v : V) (m : List (String × V)) → length (insert k v m) ≤ length m + 1
  unfolding insert
  length-insert k v [] = omega arith
  length-insert k v ((j, w) ∷ m) = ground (arith, length-insert k v m)

  length-delete : (k : String) (m : List (String × V)) → length (delete k m) ≤ length m
  unfolding delete
  length-delete k [] = omega arith
  length-delete k ((j, w) ∷ m) = ground (arith, length-delete k m)

module _ (W : Writer) where
  pub record World : Type 0 where
    pub server : SshServer W
    pub config : Store
    pub accepted : List String

  abbrev pub authenticate : Bool → Option String → Option Bool → World → World
  authenticate save key approval w =
      let (config, ok) = public_key_auth save key approval w.config in
      record w { config = config; accepted = admit key ok w.accepted }

  pub data Step : World → World → Type 0 where
    authenticates :
        (w : World) (save : Bool) (key : Option String) (approval : Option Bool)
        → Step w (authenticate save key approval w)
    opens :
        (w : World) (sess : Session W) (key : String)
        → sess.fingerprint ≡ some key
        → has key w.accepted ≡ true
        → Step w (record w { server = (open_session W sess w.server).0 })
    closes :
        (w : World) (sess : Session W)
        → Step w (record w { server = close_session W sess w.server })
    stops : (w : World) → Step w (record w { server = stop W w.server })

  pub data Reach (start : World) : World → Type 0 where
    here : Reach start start
    then_step : {w next : World} → Reach start w → Step w next → Reach start next

  -- The keys of the clients are on a list.
  abbrev AreListed : List String → List (String × SshClient W) → Type 0
  AreListed keys = All (λ (e : String × SshClient W). has e.1.public_key keys ≡ true)

  -- In whitelist-only mode the accepted keys and those of the clients are on the list.
  record IsOk (w : World) : Type 0 where
    only : whitelist_only w.config ≡ true
    keys : (k : String) → has k w.accepted ≡ true → has k (whitelist w.config) ≡ true
    clients : AreListed (whitelist w.config) w.server.clients

  all_grow :
      (before after : List String) (m : List (String × SshClient W))
      → ((k : String) → has k before ≡ true → has k after ≡ true)
      → AreListed before m
      → AreListed after m
  all_grow before after [] g h = tt
  all_grow before after ((id, c) ∷ m) g h = (g c.public_key h.0, all_grow before after m g h.1)

  admit_cases :
      (key : Option String) (ok : Bool) (keys : List String) (k : String)
      → has k (admit key ok keys) ≡ true
      → (has k (admit key ok []) ≡ true) ⊎ (has k keys ≡ true)
  admit_cases none ok keys k h = inr h
  admit_cases (some key) false keys k h = inr h
  admit_cases (some key) true keys k h = ground (arith, h)

  Step-IsOk : {w next : World} → Step w next → IsOk w → IsOk next
  unfolding open_session close_session stop
  Step-IsOk (authenticates w save key approval) ok =
      let (o, g, a) = public_key_auth-IsAdmission save key approval w.config in
      record {
        only = o ∙ ok.only;
        keys = λ k h. elim (admit_cases key _ w.accepted k h) [
          | inl new ↦ a k new ok.only
          | inr old ↦ g k (ok.keys k old)
        ];
        clients = all_grow _ _ w.server.clients g ok.clients;
      }
  Step-IsOk (opens w sess key given accepted) ok = record {
    only = ok.only;
    keys = ok.keys;
    clients =
        if_elim (λ (o : SshServer W × Bool). AreListed (whitelist w.config) o.0.clients)
          (is_full W w.server) (λ e. ok.clients)
          (λ e.
            All-insert
              (λ (e : String × SshClient W). has e.1.public_key (whitelist w.config) ≡ true) sess.id
              _ w.server.clients
              (subst (λ k. has (key_of W k) (whitelist w.config) ≡ true) (sym given)
                (ok.keys key accepted))
              ok.clients);
  }
  Step-IsOk (closes w sess) ok = record {
    only = ok.only;
    keys = ok.keys;
    clients =
        All-delete (λ (e : String × SshClient W). has e.1.public_key (whitelist w.config) ≡ true)
          sess.id w.server.clients ok.clients;
  }
  Step-IsOk (stops w) ok = record {
    only = ok.only;
    keys = ok.keys;
    clients =
        if_elim (λ (o : SshServer W). AreListed (whitelist w.config) o.clients) w.server.stopped
          (λ e. ok.clients) (λ e. tt);
  }

  -- The limit stays, and there are no more clients than it allows.
  abbrev IsWithin : ℤ → SshServer W → Type 0
  IsWithin max s = (s.max_clients ≡ max) × (pos (length s.clients) ≤ℤ max)

  open_session-IsWithin :
      (max : ℤ) (sess : Session W) (s : SshServer W)
      → pos 0 <ℤ max
      → IsWithin max s
      → IsWithin max (open_session W sess s).0
  unfolding open_session is_full
  open_session-IsWithin max sess s p (m, l) =
      if_elim (λ (o : SshServer W × Bool). IsWithin max o.0) (is_full W s) (λ e. (m, l))
        (λ e.
          let full = ap (λ k. ltb_ℤ (pos 0) k && leb_ℤ k (pos (length s.clients))) (sym m) ∙ e in
          (m, omega (arith, room max (length s.clients) p full, length-insert sess.id _ s.clients)))

  Step-IsWithin :
      {w next : World}
      → (max : ℤ) → pos 0 <ℤ max
      → Step w next
      → IsWithin max w.server
      → IsWithin max next.server
  unfolding close_session stop
  Step-IsWithin max p (authenticates w save key approval) h = h
  Step-IsWithin max p (opens w sess key given accepted) h =
      open_session-IsWithin max sess w.server p h
  Step-IsWithin max p (closes w sess) (m, l) =
      (m, omega (arith, l, length-delete sess.id w.server.clients))
  Step-IsWithin max p (stops w) (m, l) =
      if_elim (λ (o : SshServer W). IsWithin max o) w.server.stopped (λ e. (m, l))
        (λ e. (m, omega (arith, p)))

  Reach-IsOk : {start w : World} → IsOk start → Reach start w → IsOk w
  Reach-IsOk h here = h
  Reach-IsOk h (then_step r st) = Step-IsOk st (Reach-IsOk h r)

  Reach-IsWithin :
      {start w : World}
      → (max : ℤ) → pos 0 <ℤ max
      → IsWithin max start.server
      → Reach start w
      → IsWithin max w.server
  Reach-IsWithin max p h here = h
  Reach-IsWithin max p h (then_step r st) = Step-IsWithin max p st (Reach-IsWithin max p h r)

  -- A server in whitelist-only mode starts without accepted keys, with an empty map of clients and a
  -- positive limit. Whatever attempts to authenticate, sessions and ends of sessions follow, also
  -- after it stopped, the map of clients never has more entries than the limit, and the key of every
  -- entry is on the whitelist. An entry stands for a session ID, not for a session: sessions of one
  -- SSH connection share theirs, and the statement does not bound how many of them run.
  pub reachable_sessions :
      (start w : World)
      → whitelist_only start.config ≡ true
      → start.accepted ≡ []
      → start.server.clients ≡ []
      → pos 0 <ℤ start.server.max_clients
      → Reach start w
      → (pos (length w.server.clients) ≤ℤ start.server.max_clients)
        × All
            (λ (e : String × SshClient W). is_ssh_key_whitelisted e.1.public_key w.config ≡ true)
            w.server.clients
  unfolding is_ssh_key_whitelisted
  reachable_sessions start w only fresh empty positive r = (
    (Reach-IsWithin start.server.max_clients positive
        (
          refl,
          subst (λ m. pos (length m) ≤ℤ start.server.max_clients) (sym empty)
              (omega (arith, positive)),
        )
        r).1,
    (Reach-IsOk
        (record {
          only = only;
          keys = λ k h. absurd (none_accepted k (subst (λ ks. has k ks ≡ true) fresh h));
          clients = subst (AreListed (whitelist start.config)) (sym empty) tt;
        })
        r).clients,
  )
