-- ===== src/Common/Sort.antt =====
-- Go's `sort.Strings`, by insertion; any sort gives the same list. Strings compare by bytes.
use Prim.Native.Nat.{Ordering}
use Prim.Native.String.{compare}
use waymon.Common.{
  ◌≡◌, refl, ◌∙◌, ap, suc, arith, length, ◌||◌, str_eq, String, Bool, true, false, List, [], ◌∷◌,
  if◌then◌else◌,
}

-- `s < t`
abbrev pub str_ltb : String → String → Bool
str_ltb s t = elim (compare s t) [ Ordering.lt ↦ true | _ ↦ false ]

unfoldable pub insert_sorted : String → List String → List String
insert_sorted s [] = s ∷ []
insert_sorted s (t ∷ ts) = if str_ltb t s then t ∷ insert_sorted s ts else s ∷ t ∷ ts

unfoldable pub sort_strings : List String → List String
unfolding insert_sorted
sort_strings [] = []
sort_strings (s ∷ ss) = insert_sorted s (sort_strings ss)

sort_strings_test : sort_strings ("b" ∷ "a" ∷ "ab" ∷ []) ≡ "a" ∷ "ab" ∷ "b" ∷ []
unfolding sort_strings
sort_strings_test = refl

-- Whether a string is in a list.
abbrev pub has : String → List String → Bool
has s [] = false
has s (t ∷ ts) = str_eq t s || has s ts

has-insert_sorted :
    (s t : String) (ts : List String) → has s (insert_sorted t ts) ≡ (str_eq t s || has s ts)
unfolding insert_sorted
has-insert_sorted s t [] = refl
has-insert_sorted s t (u ∷ us) = ground (arith, has-insert_sorted s t us)

pub has-sort_strings : (s : String) (ss : List String) → has s (sort_strings ss) ≡ has s ss
unfolding sort_strings
has-sort_strings s [] = refl
has-sort_strings s (t ∷ ts) =
    ground (arith, has-insert_sorted s t (sort_strings ts), has-sort_strings s ts)

pub length-sort_strings : (ss : List String) → length (sort_strings ss) ≡ length ss
unfolding sort_strings
length-sort_strings [] = refl
length-sort_strings (s ∷ ss) =
    length-insert_sorted s (sort_strings ss) ∙ ap suc (length-sort_strings ss)
  where
    length-insert_sorted :
        (t : String) (ts : List String) → length (insert_sorted t ts) ≡ suc (length ts)
    length-insert_sorted t [] = refl
    length-insert_sorted t (u ∷ us) = ground (arith, length-insert_sorted t us)
