-- ===== src/Common/Assoc.antt =====
-- A Go map with string keys, as an association list. Its order stands for the order in which
-- `range` happens to visit the map; a theorem over every list covers every order.
use mathlib.Core.Option
use waymon.Common.{
  ◌≡◌, refl, sym, ap, subst, subst₂, String, Option, none, some, List, [], ◌∷◌, inl, inr, arith,
  str_eq, eq_iff, eq_refl, if◌then◌else◌, Bool-cases, All, map, false,
}

module _ {ℓ} {V : Type ℓ} where
  unfoldable pub lookup : String → List (String × V) → Option V
  lookup k [] = none
  lookup k ((j, v) ∷ m) = if str_eq j k then some v else lookup k m

  -- `m[k] = v`
  unfoldable pub insert : String → V → List (String × V) → List (String × V)
  insert k v [] = (k, v) ∷ []
  insert k v ((j, w) ∷ m) = if str_eq j k then (k, v) ∷ m else (j, w) ∷ insert k v m

  -- `delete(m, k)`
  unfoldable pub delete : String → List (String × V) → List (String × V)
  delete k [] = []
  delete k ((j, v) ∷ m) = let rest = delete k m in if str_eq j k then rest else (j, v) ∷ rest

  -- A write through the pointer `m[k]`: nothing if there is no such key.
  unfoldable pub adjust : String → (V → V) → List (String × V) → List (String × V)
  adjust k f [] = []
  adjust k f ((j, v) ∷ m) = (j, if str_eq j k then f v else v) ∷ adjust k f m

  abbrev pub keys : List (String × V) → List String
  keys = map (λ e. e.0)

  -- What a key is bound to after a write and after a deletion, of the same key or of another.
  pub lookup-insert :
      (written asked : String) (v : V) (m : List (String × V))
      → lookup asked (insert written v m)
        ≡ (if str_eq written asked then some v else lookup asked m)
  unfolding lookup insert
  lookup-insert written asked v [] = refl
  lookup-insert written asked v ((key, old) ∷ rest) = ground (
    lookup-insert written asked v rest,
    eq_iff key asked,
    eq_iff key written,
    eq_iff written asked,
    arith,
  )

  pub lookup-delete :
      (gone asked : String) (m : List (String × V))
      → lookup asked (delete gone m) ≡ (if str_eq gone asked then none else lookup asked m)
  unfolding lookup delete
  lookup-delete gone asked [] = ground arith
  lookup-delete gone asked ((key, old) ∷ rest) =
      ground
        (lookup-delete gone asked rest, eq_iff key asked, eq_iff key gone, eq_iff gone asked, arith)

  pub lookup-adjust :
      (k j : String) (f : V → V) (m : List (String × V))
      → lookup j (adjust k f m) ≡ (if str_eq k j then Option.map f (lookup j m) else lookup j m)
  unfolding lookup adjust
  lookup-adjust k j f [] = ground arith
  lookup-adjust k j f ((i, w) ∷ m) =
      ground (arith, eq_iff k j, eq_iff i k, eq_iff i j, lookup-adjust k j f m)

  pub keys-adjust : (k : String) (f : V → V) (m : List (String × V)) → keys (adjust k f m) ≡ keys m
  unfolding adjust
  keys-adjust k f [] = refl
  keys-adjust k f ((j, v) ∷ m) = ap (◌∷◌ j) (keys-adjust k f m)

  pub lookup-insert_self :
      (k : String) (v : V) (m : List (String × V)) → lookup k (insert k v m) ≡ some v
  lookup-insert_self k v m = simp (lookup-insert, eq_refl)

  pub lookup-delete_self : (k : String) (m : List (String × V)) → lookup k (delete k m) ≡ none
  lookup-delete_self k m = simp (lookup-delete, eq_refl)

  pub lookup-adjust_self :
      (k : String) (f : V → V) (m : List (String × V))
      → lookup k (adjust k f m) ≡ Option.map f (lookup k m)
  lookup-adjust_self k f m = simp (lookup-adjust, eq_refl)

-- A property of every entry. The key is handed over too.
module _ {ℓ κ} {V : Type ℓ} (P : String × V → Type κ) where
  pub All-insert :
      (k : String) (v : V) (m : List (String × V)) → P (k, v) → All P m → All P (insert k v m)
  unfolding insert
  All-insert k v [] p h = (p, h)
  All-insert k v ((j, w) ∷ m) p h = elim (Bool-cases (str_eq j k)) [
    | inl e ↦ rw e (p, h.1)
    | inr e ↦ rw e (h.0, All-insert k v m p h.1)
  ]

  pub All-delete : (k : String) (m : List (String × V)) → All P m → All P (delete k m)
  unfolding delete
  All-delete k [] h = h
  All-delete k ((j, w) ∷ m) h = elim (Bool-cases (str_eq j k)) [
    | inl e ↦ rw e (All-delete k m h.1)
    | inr e ↦ rw e (h.0, All-delete k m h.1)
  ]

  pub All-lookup :
      (k : String) {v : V} (m : List (String × V)) → All P m → lookup k m ≡ some v → P (k, v)
  unfolding lookup
  All-lookup k [] h e = cc
  All-lookup k {v} ((j, w) ∷ m) h e = elim (Bool-cases (str_eq j k)) [
    | inl hit ↦
        let found : some w ≡ some v = rw hit at e in
        let same : w ≡ v = cc found in subst₂ (λ a b. P (a, b)) ((eq_iff j k).0 hit) same h.0
    | inr miss ↦ All-lookup k m h.1 (rw miss at e)
  ]

-- A write through a pointer, where the property may change on the way.
pub All-adjust {ℓ κ μ} :
    {V : Type ℓ} (P : String × V → Type κ) (Q : String × V → Type μ) (k : String) (f : V → V)
    (m : List (String × V))
    → ((v : V) → P (k, v) → Q (k, f v))
    → ((j : String) (v : V) → str_eq j k ≡ false → P (j, v) → Q (j, v))
    → All P m
    → All Q (adjust k f m)
unfolding adjust
All-adjust P Q k f [] hit miss h = tt
All-adjust P Q k f ((j, v) ∷ m) hit miss h = elim (Bool-cases (str_eq j k)) [
  | inl e ↦
      let same : j ≡ k = (eq_iff j k).0 e in
      rw e (
        subst (λ i. Q (i, f v)) (sym same) (hit v (subst (λ i. P (i, v)) same h.0)),
        All-adjust P Q k f m hit miss h.1,
      )
  | inr e ↦ rw e (miss j v e h.0, All-adjust P Q k f m hit miss h.1)
]
