-- ===== src/Manager/Status.antt =====
-- internal/server/manager.go: HandleStatusQuery reports what is controlled.
use waymon.Common.{
  ℕ, zero, suc, ◌≡◌, refl, ap, ◌∙◌, String, true, false, not, ◌&&◌, some, List, [], ◌∷◌, ◌⊎◌, inl,
  inr, arith, str_eq, eq_iff, if◌then◌else◌, Bool-cases, is_some, ◌+◌, ◌<◌, ◌^◌, length, get_elem?,
}
use waymon.Common.Assoc.{lookup, keys}
use waymon.Common.Int.{ℤ, pos, int32, int32_exact}
use waymon.Common.Sort.{sort_strings, has, has-sort_strings}
use waymon.Manager.State.{Platform, ClientManager, ConnectedClient}
use waymon.Manager.Rotation.{
  StatusResponse, sorted_ids, computer_names, current_index, handle_status_query,
}

pub has-keys {ℓ} :
    {V : Type ℓ} (id : String) (m : List (String × V)) → has id (keys m) ≡ is_some (lookup id m)
unfolding lookup
has-keys id [] = refl
has-keys id ((k, v) ∷ m) = ground (arith, has-keys id m)

zero-add : (n : ℕ) → 0 + n ≡ n
zero-add n = omega arith

module _ (P : Platform) where
  open P use {float}

  -- The index that the loop ends with: what it began with, if the active client is not listed, or
  -- the place of the active client.
  abbrev Located : List String → ℕ → ℤ → ClientManager P → ℤ → Type 0
  Located ids i found cm r =
      ((r ≡ found) × (has cm.active_client_id ids ≡ false))
      ⊎ ((k : ℕ) × (r ≡ int32 (pos (i + suc k))) × (get_elem? ids k ≡ some cm.active_client_id))

  current_index-Located :
      (ids : List String) (i : ℕ) (found : ℤ) (cm : ClientManager P)
      → cm.controlling_local ≡ false
      → Located ids i found cm (current_index P ids i found cm)
  unfolding current_index
  current_index-Located [] i found cm remote = inl (refl, refl)
  current_index-Located (id ∷ ids) i found cm remote =
      let found' =
        if not cm.controlling_local && str_eq id cm.active_client_id
        then int32 (pos (i + 1))
        else found in
      elim (current_index-Located ids (i + 1) found' cm remote) [
        | inr (k, e, at) ↦ inr (suc k, e ∙ ap (λ n. int32 (pos n)) (omega arith), at)
        | inl (e, absent) ↦ elim (Bool-cases (str_eq id cm.active_client_id)) [
          | inl hit ↦ inr (0, ground arith, ap some ((eq_iff id cm.active_client_id).0 hit))
          | inr miss ↦ inl (ground arith, ground arith)
        ]
      ]

  get_elem?-computer_names :
      (ids : List String) (k : ℕ) (id : String) (c : ConnectedClient float.Value)
      (cm : ClientManager P)
      → get_elem? ids k ≡ some id
      → lookup id cm.clients ≡ some c
      → get_elem? (computer_names P ids cm) k ≡ some c.name
  unfolding computer_names
  get_elem?-computer_names [] k id c cm e found = cc
  get_elem?-computer_names (j ∷ ids) zero id c cm e found = ground arith
  get_elem?-computer_names (j ∷ ids) (suc k) id c cm e found =
      get_elem?-computer_names ids k id c cm e found

  length-computer_names :
      (ids : List String) (cm : ClientManager P) → length (computer_names P ids cm) ≡ length ids
  unfolding computer_names
  length-computer_names [] cm = refl
  length-computer_names (id ∷ ids) cm = ap suc (length-computer_names ids cm)

  get_elem?-bound :
      {A : Type 0} (xs : List A) (k : ℕ) (x : A) → get_elem? xs k ≡ some x → k < length xs
  get_elem?-bound [] k x e = cc
  get_elem?-bound (y ∷ xs) zero x e = omega arith
  get_elem?-bound (y ∷ xs) (suc k) x e = omega (arith, get_elem?-bound xs k x e)

  exact : (n : ℕ) → n < 2 ^ 31 → int32 (pos n) ≡ pos n
  exact n h = int32_exact (pos n) (omega (arith, h), omega (arith, h))

  -- The index names the computer: it is that of this name in the list.
  abbrev pub PointsTo : StatusResponse → String → Type 0
  PointsTo s name =
      (k : ℕ) × (s.current_computer ≡ pos k) × (get_elem? s.computer_names k ≡ some name)

  -- While a client is controlled, and there are fewer than 2^31 - 1 clients, the status says so, and
  -- at its current index, an int32, names this client by the name that it goes by; the total is the
  -- number of the names.
  pub status_names_controlled :
      (c : ConnectedClient float.Value) (cm : ClientManager P)
      → cm.controlling_local ≡ false
      → lookup cm.active_client_id cm.clients ≡ some c
      → length (sorted_ids P cm) + 1 < 2 ^ 31
      → let s = handle_status_query P cm in
        (s.active ≡ true) × (s.total_computers ≡ pos (length s.computer_names)) × PointsTo s c.name
  unfolding handle_status_query sorted_ids
  status_names_controlled c cm remote active few =
      let ids = sort_strings (keys cm.clients) in
      (
        ap not remote,
        exact (suc (length (computer_names P ids cm)))
            (omega (arith, length-computer_names ids cm, few)),
        elim (current_index-Located ids 0 (pos 0) cm remote) [
          | inl (e, absent) ↦ absurd (
              ground (
                arith,
                has-sort_strings cm.active_client_id (keys cm.clients),
                has-keys cm.active_client_id cm.clients,
              ))
          | inr (k, e, at) ↦ (
            suc k,
            e
                ∙ (ap (λ n. int32 (pos n)) (zero-add (suc k))
                    ∙ exact (suc k)
                        (omega (arith, get_elem?-bound ids k cm.active_client_id at, few))),
            get_elem?-computer_names ids k cm.active_client_id c cm at active,
          )
        ],
      )

  current_index_local :
      (ids : List String) (i : ℕ) (found : ℤ) (cm : ClientManager P)
      → cm.controlling_local ≡ true
      → current_index P ids i found cm ≡ found
  unfolding current_index
  current_index_local [] i found cm local = refl
  current_index_local (id ∷ ids) i found cm local =
      current_index_local ids (i + 1) _ cm local ∙ ground arith

  -- Under local control the status says so, and at its current index names the server.
  status_names_server :
      (cm : ClientManager P)
      → cm.controlling_local ≡ true
      → let s = handle_status_query P cm in (s.active ≡ false) × PointsTo s "server"
  unfolding handle_status_query sorted_ids
  status_names_server cm local =
      let named : PointsTo (handle_status_query P cm) "server" =
        (0, current_index_local (sort_strings (keys cm.clients)) 0 (pos 0) cm local, refl) in
      (ap not local, named)
