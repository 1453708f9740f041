-- ===== src/Input/Places.antt =====
-- internal/input/switch.go: where a name stands in a list of distinct names.
use waymon.Common.{
  ℕ, zero, suc, ◌+◌, ◌<◌, ◌≡◌, refl, ◌∙◌, sym, ap, inl, inr, Bool-cases, ◌≤◌, String, true, false,
  ◌||◌, Option, some, List, [], ◌∷◌, ◌++◌, arith, str_eq, eq_iff, eq_refl, length, get_elem?,
}
use waymon.Common.Sort.{has}
use waymon.Input.Switch.{without, removed_index}
use waymon.Input.Contract.{successor, predecessor, last_or}

abbrev pub Distinct : List String → Type 0
Distinct [] = Unit
Distinct (c ∷ cs) = (has c cs ≡ false) × Distinct cs

pub has-get_elem? :
    (h : String) (cs : List String) (i : ℕ) → get_elem? cs i ≡ some h → has h cs ≡ true
has-get_elem? h [] i e = ground (arith, e)
has-get_elem? h (c ∷ cs) zero e = ground (arith, e, eq_refl h)
has-get_elem? h (c ∷ cs) (suc i) e = ground (arith, has-get_elem? h cs i e)

-- The head of a list of distinct names is not one of the others.
pub head_differs :
    (h c : String) (cs : List String) → has c cs ≡ false → has h cs ≡ true → str_eq c h ≡ false
head_differs h c cs d e = ground (arith, eq_iff c h)

pub successor_next :
    (f h : String) (cs : List String) (i : ℕ)
    → Distinct cs
    → get_elem? cs i ≡ some h
    → suc i < length cs
    → get_elem? cs (suc i) ≡ some (successor f h cs)
unfolding successor
successor_next f h [] i d e l = ground (arith, e)
successor_next f h (c ∷ []) i d e l = absurd (omega (arith, l))
successor_next f h (c ∷ b ∷ cs) zero d e l = ground (arith, e, eq_refl h)
successor_next f h (c ∷ b ∷ cs) (suc i) d e l = ground (
  arith,
  head_differs h c (b ∷ cs) d.0 (has-get_elem? h (b ∷ cs) i e),
  successor_next f h (b ∷ cs) i d.1 e (omega (arith, l)),
)

pub successor_wraps :
    (f h : String) (cs : List String) (i : ℕ)
    → Distinct cs
    → get_elem? cs i ≡ some h
    → suc i ≡ length cs
    → successor f h cs ≡ f
unfolding successor
successor_wraps f h [] i d e l = ground (arith, e)
successor_wraps f h (c ∷ []) i d e l = ground arith
successor_wraps f h (c ∷ b ∷ cs) zero d e l = absurd (omega (arith, l))
successor_wraps f h (c ∷ b ∷ cs) (suc i) d e l = ground (
  arith,
  head_differs h c (b ∷ cs) d.0 (has-get_elem? h (b ∷ cs) i e),
  successor_wraps f h (b ∷ cs) i d.1 e (omega (arith, l)),
)

pub predecessor_first : (p h c : String) (cs : List String) → c ≡ h → predecessor p h (c ∷ cs) ≡ p
unfolding predecessor
predecessor_first p h c cs e = ground (arith, e, eq_refl h)

pub predecessor_before :
    (p h : String) (cs : List String) (i : ℕ)
    → Distinct cs
    → get_elem? cs (suc i) ≡ some h
    → get_elem? cs i ≡ some (predecessor p h cs)
unfolding predecessor
predecessor_before p h [] i d e = ground (arith, e)
predecessor_before p h (c ∷ []) i d e = ground (arith, e)
predecessor_before p h (c ∷ b ∷ cs) zero d e =
    ground (arith, head_differs h c (b ∷ cs) d.0 (has-get_elem? h (b ∷ cs) 0 e), e, eq_refl h)
predecessor_before p h (c ∷ b ∷ cs) (suc i) d e = ground (
  arith,
  head_differs h c (b ∷ cs) d.0 (has-get_elem? h (b ∷ cs) (suc i) e),
  predecessor_before c h (b ∷ cs) i d.1 e,
)

pub get_elem?-last_or :
    (d c : String) (cs : List String) → get_elem? (c ∷ cs) (length cs) ≡ some (last_or d (c ∷ cs))
get_elem?-last_or d c [] = refl
get_elem?-last_or d c (b ∷ cs) = get_elem?-last_or c b cs

pub without_absent : (name : String) (cs : List String) → has name cs ≡ false → without name cs ≡ cs
unfolding without
without_absent name [] h = refl
without_absent name (c ∷ cs) h = ground (arith, without_absent name cs)

pub has-without :
    (h name : String) (cs : List String) → has h cs ≡ false → has h (without name cs) ≡ false
unfolding without
has-without h name [] e = refl
has-without h name (c ∷ cs) e = ground (arith, has-without h name cs)

pub Distinct-without : (name : String) (cs : List String) → Distinct cs → Distinct (without name cs)
unfolding without
Distinct-without name [] d = tt
Distinct-without name (c ∷ cs) d =
    ground (arith, d, Distinct-without name cs d.1, has-without c name cs d.0)

pub has-append :
    (h name : String) (cs : List String) → has h (cs ++ (name ∷ [])) ≡ (has h cs || str_eq name h)
has-append h name [] = ground arith
has-append h name (c ∷ cs) = ground (arith, has-append h name cs)

pub Distinct-append :
    (name : String) (cs : List String)
    → Distinct cs
    → has name cs ≡ false
    → Distinct (cs ++ (name ∷ []))
Distinct-append name [] d e = (refl, tt)
Distinct-append name (c ∷ cs) d e = (
  has-append c name cs ∙ ground (arith, eq_iff name c, eq_iff c name, e, d.0),
  Distinct-append name cs d.1 (ground arith),
)

pub removed_index_absent :
    (name : String) (i : ℕ) (cs : List String) (found : Option ℕ)
    → has name cs ≡ false
    → removed_index name i cs found ≡ found
unfolding removed_index
removed_index_absent name i [] found e = refl
removed_index_absent name i (c ∷ cs) found e =
    ground (arith, removed_index_absent name (suc i) cs found)

-- The loop finds the place of a name.
pub removed_index_at :
    (name : String) (i : ℕ) (cs : List String) (found : Option ℕ)
    → Distinct cs
    → has name cs ≡ true
    → (k : ℕ) × (removed_index name i cs found ≡ some (i + k)) × (get_elem? cs k ≡ some name)
unfolding removed_index
removed_index_at name i [] found d e = ground (arith, e)
removed_index_at name i (c ∷ cs) found d e = elim (Bool-cases (str_eq c name)) [
  | inl h ↦ (
    0,
    rw h (
        removed_index_absent name (suc i) cs (some i) (rw (sym ((eq_iff c name).0 h)) d.0)
        ∙ ap some (omega arith)),
    rw ((eq_iff c name).0 h) refl,
  )
  | inr h ↦
      let (k, p, q) = removed_index_at name (suc i) cs found d.1 (ground arith) in
      (suc k, rw (h, p) (ap some (omega arith)), q)
]

-- What comes after the removed name moves one place down.
pub without_above :
    (name h : String) (cs : List String) (k i : ℕ)
    → Distinct cs
    → get_elem? cs k ≡ some name
    → get_elem? cs (suc i) ≡ some h
    → k < suc i
    → get_elem? (without name cs) i ≡ some h
unfolding without
without_above name h [] k i d e p l = ground (arith, e)
without_above name h (c ∷ cs) zero i d e p l =
    ground (arith, e, p, d, eq_iff c name, without_absent name cs)
without_above name h (c ∷ cs) (suc k) zero d e p l = absurd (omega (arith, l))
without_above name h (c ∷ cs) (suc k) (suc i) d e p l = ground (
  arith,
  head_differs name c cs d.0 (has-get_elem? name cs k e),
  without_above name h cs k i d.1 e p (omega (arith, l)),
)

-- What comes before it stays.
pub without_below :
    (name h : String) (cs : List String) (k i : ℕ)
    → Distinct cs
    → get_elem? cs k ≡ some name
    → get_elem? cs i ≡ some h
    → i < k
    → get_elem? (without name cs) i ≡ some h
unfolding without
without_below name h [] k i d e p l = ground (arith, e)
without_below name h (c ∷ cs) zero i d e p l = absurd (omega (arith, l))
without_below name h (c ∷ cs) (suc k) zero d e p l =
    ground (arith, head_differs name c cs d.0 (has-get_elem? name cs k e), p)
without_below name h (c ∷ cs) (suc k) (suc i) d e p l = ground (
  arith,
  head_differs name c cs d.0 (has-get_elem? name cs k e),
  without_below name h cs k i d.1 e p (omega (arith, l)),
)

pub length-without : (name : String) (cs : List String) → length (without name cs) ≤ length cs
unfolding without
length-without name [] = omega arith
length-without name (c ∷ cs) = ground (arith, length-without name cs)

pub get_elem?-append :
    (cs ds : List String) (i : ℕ) (h : String)
    → get_elem? cs i ≡ some h
    → get_elem? (cs ++ ds) i ≡ some h
get_elem?-append [] ds i h e = ground (arith, e)
get_elem?-append (c ∷ cs) ds zero h e = e
get_elem?-append (c ∷ cs) ds (suc i) h e = get_elem?-append cs ds i h e

pub lt_of_get_elem? :
    (cs : List String) (i : ℕ) (h : String) → get_elem? cs i ≡ some h → i < length cs
lt_of_get_elem? [] i h e = ground (arith, e)
lt_of_get_elem? (c ∷ cs) zero h e = omega arith
lt_of_get_elem? (c ∷ cs) (suc i) h e = omega (arith, lt_of_get_elem? cs i h e)

-- Names at two places differ.
pub places_differ :
    (g h : String) (cs : List String) (k i : ℕ)
    → Distinct cs
    → get_elem? cs k ≡ some g
    → get_elem? cs i ≡ some h
    → k < i
    → str_eq g h ≡ false
places_differ g h [] k i d e p l = ground (arith, e)
places_differ g h (c ∷ cs) k zero d e p l = absurd (omega (arith, l))
places_differ g h (c ∷ cs) zero (suc i) d e p l =
    ground (arith, e, head_differs h c cs d.0 (has-get_elem? h cs i p))
places_differ g h (c ∷ cs) (suc k) (suc i) d e p l =
    places_differ g h cs k i d.1 e p (omega (arith, l))
