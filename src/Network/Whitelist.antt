-- ===== src/Network/Whitelist.antt =====
-- internal/network/ssh_server.go with internal/config/config.go: what an attempt to authenticate does
-- to the list of keys.
use waymon.Common.{
  ◌≡◌, refl, sym, ap, ◌∙◌, subst, if-true, if-false, String, Bool, true, false, Option, none, some,
  List, [], ◌∷◌, ◌++◌, arith, str_eq, eq_iff, eq_refl, if_elim, ◌||◌, Option-cases, Bool-cases, inl,
  inr,
}
use waymon.Common.Sort.{has}
use waymon.Config.Store.{
  Store, Error, get, change, set_whitelist, whitelist, is_ssh_key_whitelisted,
  add_ssh_key_to_whitelist,
}
use waymon.Network.Sessions.{public_key_auth, on_auth_request, ask}

-- The keys that have been accepted, one more where the answer is yes.
abbrev pub admit : Option String → Bool → List String → List String
admit none ok keys = keys
admit (some key) false keys = keys
admit (some key) true keys = key ∷ keys

unfoldable pub whitelist_only : Store → Bool
whitelist_only store = (get store).server.ssh_whitelist_only

whitelist-set_whitelist :
    (keys : List String) (store : Store) → whitelist (set_whitelist keys store) ≡ keys
unfolding whitelist set_whitelist change get
whitelist-set_whitelist keys store = elim (Option-cases store.current) [
  | inl e ↦ rw e refl
  | inr (c, e) ↦ rw e refl
]

whitelist_only-set_whitelist :
    (keys : List String) (store : Store)
    → whitelist_only (set_whitelist keys store) ≡ whitelist_only store
unfolding whitelist_only set_whitelist change get
whitelist_only-set_whitelist keys store = elim (Option-cases store.current) [
  | inl e ↦ rw e refl
  | inr (c, e) ↦ rw e refl
]

has-append :
    (k key : String) (ks : List String) → has k (ks ++ (key ∷ [])) ≡ (has k ks || str_eq key k)
has-append k key [] = ground arith
has-append k key (j ∷ ks) = ground (arith, has-append k key ks)

-- An approved key is on the list, and the others stay.
added :
    (save : Bool) (key k : String) (store : Store)
    → (has k (whitelist store) || str_eq key k) ≡ true
    → has k (whitelist (add_ssh_key_to_whitelist save key store).0) ≡ true
unfolding add_ssh_key_to_whitelist
added save key k store h = elim (Bool-cases (has key (whitelist store))) [
  | inl e ↦
      subst (λ (o : Store × Option Error). has k (whitelist o.0) ≡ true) (sym (if-true _ _ _ e))
        (ground (arith, eq_iff key k, h, e))
  | inr e ↦
      subst (λ (o : Store × Option Error). has k (whitelist o.0) ≡ true) (sym (if-false _ _ _ e))
        (ap (has k) (whitelist-set_whitelist (whitelist store ++ (key ∷ [])) store)
          ∙ (has-append k key (whitelist store) ∙ h))
]

whitelist_only-add :
    (save : Bool) (key : String) (store : Store)
    → whitelist_only (add_ssh_key_to_whitelist save key store).0 ≡ whitelist_only store
unfolding add_ssh_key_to_whitelist
whitelist_only-add save key store =
    if_elim (λ (o : Store × Option Error). whitelist_only o.0 ≡ whitelist_only store) _ (λ e. refl)
      (λ e. whitelist_only-set_whitelist (whitelist store ++ (key ∷ [])) store)

-- What an attempt does to the list: it only grows, by the key where that one is accepted.
abbrev pub IsAdmission : Option String → Store → Store × Bool → Type 0
IsAdmission key before (after, ok) =
    (whitelist_only after ≡ whitelist_only before)
    × ((k : String) → has k (whitelist before) ≡ true → has k (whitelist after) ≡ true)
    × ((k : String)
        → has k (admit key ok []) ≡ true
        → whitelist_only before ≡ true
        → has k (whitelist after) ≡ true)

ask-IsAdmission :
    (save : Bool) (key : String) (approval : Option Bool) (store : Store)
    → IsAdmission (some key) store (ask save key approval store)
ask-IsAdmission save key none store = (refl, λ k h. h, λ k h o. ground (arith, h))
ask-IsAdmission save key (some false) store = (refl, λ k h. h, λ k h o. ground (arith, h))
ask-IsAdmission save key (some true) store = (
  whitelist_only-add save key store,
  λ k h. added save key k store (ground (arith, h)),
  λ k h o. added save key k store (ground (arith, h)),
)

pub public_key_auth-IsAdmission :
    (save : Bool) (key : Option String) (approval : Option Bool) (store : Store)
    → IsAdmission key store (public_key_auth save key approval store)
unfolding public_key_auth is_ssh_key_whitelisted whitelist_only
public_key_auth-IsAdmission save none approval store = (refl, λ k h. h, λ k h o. ground (arith, h))
public_key_auth-IsAdmission save (some key) approval store =
    if_elim (λ (r : Store × Bool). IsAdmission (some key) store r)
      (is_ssh_key_whitelisted key store) (λ e. (refl, λ k h. h, λ k h o. whitelisted k h e))
      (λ e.
        if_elim (λ (r : Store × Bool). IsAdmission (some key) store r)
          ((get store).server.ssh_whitelist_only) (λ f. ask-IsAdmission save key approval store)
          (λ f. (refl, λ k h. h, λ k h o. ground (arith, f, o))))
  where
    whitelisted :
        (k : String)
        → has k (key ∷ []) ≡ true
        → has key (whitelist store) ≡ true
        → has k (whitelist store) ≡ true
    whitelisted k h e = ground (arith, h, e, eq_iff key k)

-- With the handler that the server command installs, every key that parses is accepted, whatever
-- the mode; it is on the list afterwards in whitelist-only mode, and otherwise if it was before.
pub unknown_key_accepted :
    (save : Bool) (addr key : String) (store : Store)
    → let (after, ok) = public_key_auth save (some key) (some (on_auth_request addr key)) store in
      (ok ≡ true)
      × (has key (whitelist after) ≡ (whitelist_only store || has key (whitelist store)))
unfolding public_key_auth is_ssh_key_whitelisted on_auth_request whitelist_only
unknown_key_accepted save addr key store = elim (Bool-cases (has key (whitelist store))) [
  | inl e ↦
      subst (IsAccepted key (whitelist_only store || has key (whitelist store)))
        (sym (if-true (has key (whitelist store)) _ _ e)) (refl, e ∙ ground arith)
  | inr e ↦
      subst (IsAccepted key (whitelist_only store || has key (whitelist store)))
        (sym (if-false (has key (whitelist store)) _ _ e))
        (elim (Bool-cases (whitelist_only store)) [
          | inl o ↦
              subst (IsAccepted key (whitelist_only store || has key (whitelist store)))
                (sym (if-true (whitelist_only store) _ _ o))
                (refl, added save key key store (ground (arith, eq_refl key)) ∙ ground (arith, o))
          | inr o ↦
              subst (IsAccepted key (whitelist_only store || has key (whitelist store)))
                (sym (if-false (whitelist_only store) _ _ o)) (refl, ground (arith, o))
        ])
]
  where
    IsAccepted : String → Bool → Store × Bool → Type 0
    IsAccepted key listed (after, ok) = (ok ≡ true) × (has key (whitelist after) ≡ listed)
