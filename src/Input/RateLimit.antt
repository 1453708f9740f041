-- ===== src/Input/RateLimit.antt =====
-- internal/input/event_aggregator.go: what the rate limit lets pass.
use waymon.Common.{
  ℕ, ◌+◌, ◌≤◌, ◌≡◌, refl, sym, ap, ◌∙◌, subst, String, Bool, true, false, Option, none, some, inl,
  inr, ◌⊎◌, if-true, if-false, List, [], ◌∷◌, arith, str_eq, eq_iff, Bool-cases, All,
}
use waymon.Common.Assoc.{lookup, insert, lookup-insert}
use waymon.Proto.{InputEvent}
use waymon.Input.Aggregator.{
  RateLimitFilter, new_rate_limit_filter, rate_limit, is_early, get_event_type_name,
}

not_early :
    (now interval last : ℕ) (o : Option ℕ)
    → o ≡ some last
    → is_early now interval o ≡ false
    → last + interval ≤ now
not_early now interval last none e h = ground (arith, e)
not_early now interval last (some l) e h = ground (arith, e, h)

module _ {V : Type 0} where
  abbrev continue_with :
      (RateLimitFilter → List (ℕ × InputEvent V))
      → ℕ × InputEvent V
      → RateLimitFilter × Bool
      → List (ℕ × InputEvent V)
  continue_with rest e (rl, true) = e ∷ rest rl
  continue_with rest e (rl, false) = rest rl

  -- The events, with their times, that pass one after the other.
  unfoldable pub passed : RateLimitFilter → List (ℕ × InputEvent V) → List (ℕ × InputEvent V)
  passed rl [] = []
  passed rl ((now, event) ∷ es) =
      continue_with (λ after. passed after es) (now, event) (rate_limit now event rl)

  -- A later event of this type is at or after this time.
  abbrev IsLater : String → ℕ → ℕ × InputEvent V → Type 0
  IsLater type time (now, event) = get_event_type_name event ≡ type → time ≤ now

  abbrev pub IsSpaced : ℕ → List (ℕ × InputEvent V) → Type 0
  IsSpaced interval [] = Unit
  IsSpaced interval ((now, event) ∷ es) =
      All (IsLater (get_event_type_name event) (now + interval)) es × IsSpaced interval es

  -- How the filter decides, by its state.
  rate_limit-cases :
      (now : ℕ) (event : InputEvent V) (rl : RateLimitFilter)
      → (rate_limit now event rl ≡ (rl, false))
        ⊎ ((is_early now rl.min_interval (lookup (get_event_type_name event) rl.event_type_last)
              ≡ false)
            × (rate_limit now event rl ≡ (
              record rl {
                event_type_last = insert (get_event_type_name event) now rl.event_type_last;
              },
              true,
            )))
  unfolding rate_limit
  rate_limit-cases now event rl =
      elim (Bool-cases
        (is_early now rl.min_interval (lookup (get_event_type_name event) rl.event_type_last))) [
          | inl e ↦ inl (if-true _ _ _ e)
          | inr e ↦ inr (e, if-false _ _ _ e)
        ]

  earlier_bound :
      (type : String) (a b : ℕ) (es : List (ℕ × InputEvent V))
      → a ≤ b
      → All (IsLater type b) es
      → All (IsLater type a) es
  earlier_bound type a b [] l h = tt
  earlier_bound type a b ((now, event) ∷ es) l h =
      (λ e. omega (arith, l, h.0 e), earlier_bound type a b es l h.1)

  -- After an event of a type at some time, the others of that type keep the interval.
  passed_from :
      (type : String) (last : ℕ) (rl : RateLimitFilter) (es : List (ℕ × InputEvent V))
      → lookup type rl.event_type_last ≡ some last
      → All (IsLater type (last + rl.min_interval)) (passed rl es)
  unfolding passed
  passed_from type last rl [] h = tt
  passed_from type last rl ((now, event) ∷ es) h = elim (rate_limit-cases now event rl) [
    | inl e ↦
        subst
          (λ o.
            All (IsLater type (last + rl.min_interval))
              (continue_with (λ after. passed after es) (now, event) o))
          (sym e) (passed_from type last rl es h)
    | inr (e, p) ↦
        let later = λ (q : get_event_type_name event ≡ type).
          not_early now rl.min_interval last _ (ap (λ t. lookup t rl.event_type_last) q ∙ h) e in
        let after = record rl {
          event_type_last = insert (get_event_type_name event) now rl.event_type_last;
        } in
        subst
          (λ o.
            All (IsLater type (last + rl.min_interval))
              (continue_with (λ after. passed after es) (now, event) o))
          (sym p)
          (
            later,
            elim (Bool-cases (str_eq (get_event_type_name event) type)) [
              | inl same ↦
                  earlier_bound type (last + rl.min_interval) (now + rl.min_interval)
                    (passed after es) (omega (arith, later ((eq_iff _ _).0 same)))
                    (passed_from type now after es (
                      lookup-insert (get_event_type_name event) type now rl.event_type_last
                      ∙ if-true _ _ _ same))
              | inr other ↦ passed_from type last after es (
                  lookup-insert (get_event_type_name event) type now rl.event_type_last
                  ∙ (if-false _ _ _ other ∙ h))
            ],
          )
  ]

  passed_from-IsSpaced :
      (rl : RateLimitFilter) (es : List (ℕ × InputEvent V))
      → IsSpaced rl.min_interval (passed rl es)
  unfolding passed
  passed_from-IsSpaced rl [] = tt
  passed_from-IsSpaced rl ((now, event) ∷ es) = elim (rate_limit-cases now event rl) [
    | inl e ↦
        subst
          (λ o. IsSpaced rl.min_interval (continue_with (λ after. passed after es) (now, event) o))
          (sym e) (passed_from-IsSpaced rl es)
    | inr (e, p) ↦
        let after = record rl {
          event_type_last = insert (get_event_type_name event) now rl.event_type_last;
        } in
        subst
          (λ o. IsSpaced rl.min_interval (continue_with (λ after. passed after es) (now, event) o))
          (sym p)
          (
            passed_from (get_event_type_name event) now after es (
                lookup-insert (get_event_type_name event) (get_event_type_name event) now
                  rl.event_type_last
                ∙ if-true (str_eq (get_event_type_name event) (get_event_type_name event)) _
                    (lookup (get_event_type_name event) rl.event_type_last)
                    ((eq_iff (get_event_type_name event) (get_event_type_name event)).1 refl)),
            passed_from-IsSpaced after es,
          )
  ]

-- Whatever events reach a new rate limit, at whatever times, those that pass keep the interval: an
-- event comes no earlier than the interval after every event of the same type that passed before.
pub passed-IsSpaced :
    {V : Type 0} (interval : ℕ) (es : List (ℕ × InputEvent V))
    → IsSpaced interval (passed (new_rate_limit_filter interval) es)
unfolding new_rate_limit_filter
passed-IsSpaced interval es = passed_from-IsSpaced (new_rate_limit_filter interval) es
