-- ===== src/Network/Loop.antt =====
-- internal/network: what the loops of Receive make of the bytes, for turns that take bytes.
use waymon.Common.{
  ℕ, zero, suc, ◌<◌, ◌≤◌, ◌≡◌, refl, true, false, Option, none, some, List, [], ◌∷◌, arith, length,
  ap, sym, ◌∙◌,
}
use waymon.Proto.{InputEvent}
use waymon.Network.Receive.{Turn, ends, rejected, turns, Received, deliver, after, loop}

-- A turn takes bytes where it goes on, and ends where there are none.
pub record TakesBytes {V : Type 0} (turn : List ℕ → Turn V) : Type 0 where
  pub at_end : turn [] ≡ ends
  pub shorter :
      (stream : List ℕ) (event : Option (InputEvent V)) (rest : List ℕ)
      → turn stream ≡ turns event rest
      → length rest < length stream

-- A loop without fuel: finitely many turns from the bytes to an end, and what they have done.
pub data Runs {V : Type 0} (turn : List ℕ → Turn V) : List ℕ → Received V → Type 0 where
  stops :
      (stream : List ℕ)
      → turn stream ≡ ends
      → Runs turn stream (record { messages = []; refused = false })
  refuses :
      (stream : List ℕ)
      → turn stream ≡ rejected
      → Runs turn stream (record { messages = []; refused = true })
  skips :
      (stream rest : List ℕ) (r : Received V)
      → turn stream ≡ turns none rest
      → Runs turn rest r
      → Runs turn stream r
  delivers :
      (stream rest : List ℕ) (event : InputEvent V) (r : Received V)
      → turn stream ≡ turns (some event) rest
      → Runs turn rest r
      → Runs turn stream (deliver event r)

module _ {V : Type 0} (turn : List ℕ → Turn V) (takes : TakesBytes turn) where
  pub loop-[] : (fuel : ℕ) → loop turn fuel [] ≡ record { messages = []; refused = false }
  unfolding loop
  loop-[] zero = refl
  loop-[] (suc fuel) = ap (after (loop turn fuel)) takes.at_end

  after_enough :
      (f g : List ℕ → Received V) (t : Turn V)
      → ((event : Option (InputEvent V)) (rest : List ℕ) → t ≡ turns event rest → f rest ≡ g rest)
      → after f t ≡ after g t
  after_enough f g ends h = refl
  after_enough f g rejected h = refl
  after_enough f g (turns none rest) h = h none rest refl
  after_enough f g (turns (some event) rest) h = ap (deliver event) (h (some event) rest refl)

  -- More fuel than the stream has bytes changes nothing.
  pub loop_enough :
      (fuel more : ℕ) (stream : List ℕ)
      → length stream ≤ fuel
      → length stream ≤ more
      → loop turn fuel stream ≡ loop turn more stream
  unfolding loop
  loop_enough fuel more [] h k = loop-[] fuel ∙ sym (loop-[] more)
  loop_enough zero more (b ∷ bs) h k = absurd (omega (arith, h))
  loop_enough (suc fuel) zero (b ∷ bs) h k = absurd (omega (arith, k))
  loop_enough (suc fuel) (suc more) (b ∷ bs) h k =
      after_enough (loop turn fuel) (loop turn more) (turn (b ∷ bs)) (λ event rest e.
        let s : length rest < length (b ∷ bs) = takes.shorter (b ∷ bs) event rest e in
        loop_enough fuel more rest (omega (arith, s, h)) (omega (arith, s, k)))

  after-Runs :
      (next : List ℕ → Received V) (stream : List ℕ) (t : Turn V)
      → turn stream ≡ t
      → ((event : Option (InputEvent V)) (rest : List ℕ)
          → turn stream ≡ turns event rest
          → Runs turn rest (next rest))
      → Runs turn stream (after next t)
  after-Runs next stream ends e h = stops stream e
  after-Runs next stream rejected e h = refuses stream e
  after-Runs next stream (turns none rest) e h = skips stream rest (next rest) e (h none rest e)
  after-Runs next stream (turns (some event) rest) e h =
      delivers stream rest event (next rest) e (h (some event) rest e)

  -- With enough fuel, the loop ends as it does without.
  pub loop-Runs :
      (fuel : ℕ) (stream : List ℕ) → length stream ≤ fuel → Runs turn stream (loop turn fuel stream)
  unfolding loop
  loop-Runs zero [] h = stops [] takes.at_end
  loop-Runs zero (b ∷ bs) h = absurd (omega (arith, h))
  loop-Runs (suc fuel) stream h =
      after-Runs (loop turn fuel) stream (turn stream) refl (λ event rest e.
        let s : length rest < length stream = takes.shorter stream event rest e in
        loop-Runs fuel rest (omega (arith, s, h)))

  -- The loop with the fuel of its stream takes a turn, and goes on with that of the rest.
  pub loop_turn :
      (stream : List ℕ) (event : InputEvent V) (rest : List ℕ)
      → turn stream ≡ turns (some event) rest
      → loop turn (length stream) stream ≡ deliver event (loop turn (length rest) rest)
  unfolding loop
  loop_turn [] event rest e = absurd (omega (arith, takes.shorter [] (some event) rest e))
  loop_turn (b ∷ bs) event rest e =
      let s : length rest < length (b ∷ bs) = takes.shorter (b ∷ bs) (some event) rest e in
      ap (after (loop turn (length bs))) e
      ∙ ap (deliver event)
          (loop_enough (length bs) (length rest) rest (omega (arith, s)) (omega arith))

-- A turn that ends ends the loop.
pub loop_ends :
    {V : Type 0} (turn : List ℕ → Turn V) (fuel : ℕ) (stream : List ℕ)
    → turn stream ≡ ends
    → loop turn fuel stream ≡ record { messages = []; refused = false }
unfolding loop
loop_ends turn zero stream e = refl
loop_ends turn (suc fuel) stream e = ap (after (loop turn fuel)) e
