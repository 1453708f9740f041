-- ===== src/Network/Cleanup.antt =====
-- internal/network/ssh_client.go: what is open after calls of `Connect`, `Disconnect` and
-- `Reconnect`, and after the server has refused the client.
use waymon.Common.{
  String, ◌≡◌, refl, ℕ, ◌+◌, not, ◌&&◌, ◌||◌, Bool, true, false, Option, none, some, List, [], ◌∷◌,
  arith, if◌then◌else◌, if-true, if-false, Bool-cases, inl, inr, subst, sym,
}
use waymon.Network.Dial.{
  SshClient, Open, Answers, DialError, authentication, connect, disconnect, dial, unless_refused,
  open_connection, open_session, reconnect, new_ssh_client, mark_refused,
}

pub data Call : Type 0 where
  connecting reconnecting : Answers → Call
  disconnecting : Call
  refused_by_server : Call  -- a turn of `receiveInputEvents` that reads the refusal

unfoldable pub run : List Call → SshClient × Open → SshClient × Open
run [] s = s
run (connecting a ∷ calls) s = run calls (connect a s).0
run (reconnecting a ∷ calls) s = run calls (reconnect a s).0
run (disconnecting ∷ calls) s = run calls (disconnect s)
run (refused_by_server ∷ calls) s = run calls (mark_refused s.0, s.1)

-- How many refusals a connected client reads.
unfoldable pub refusals : List Call → SshClient × Open → ℕ
refusals [] s = 0
refusals (connecting a ∷ calls) s = refusals calls (connect a s).0
refusals (reconnecting a ∷ calls) s = refusals calls (reconnect a s).0
refusals (disconnecting ∷ calls) s = refusals calls (disconnect s)
refusals (refused_by_server ∷ calls) s =
    (if s.0.connected then 1 else 0) + refusals calls (mark_refused s.0, s.1)

-- What is open next to `o` while the client is connected.
abbrev pub opened : Bool → Open → Open
opened connected o = if connected then open_session (open_connection o) else o

-- As many connections and sessions more.
abbrev pub with_lost : ℕ → Open → Open
with_lost n o = record { connections = o.connections + n; sessions = o.sessions + n }

-- A connected client holds a session and a connection, and these are all that is open next to `o`.
pub record IsAccounted (o : Open) (s : SshClient × Open) : Type 0 where
  pub held : (not s.0.connected || (s.0.client && s.0.session)) ≡ true
  pub accounted : s.1 ≡ opened s.0.connected o

dial-IsAccounted :
    (a : Answers) (o : Open) (s : SshClient × Open)
    → IsAccounted o s
    → s.0.connected ≡ false
    → IsAccounted o (dial a s).0
dial-IsAccounted a o s h fresh = ground (arith, h.held, h.accounted, fresh)

unless_refused-IsAccounted :
    (e : Option DialError) (a : Answers) (o : Open) (s : SshClient × Open)
    → IsAccounted o s
    → s.0.connected ≡ false
    → IsAccounted o (unless_refused e (dial a s) s).0
unless_refused-IsAccounted none a o s h fresh = dial-IsAccounted a o s h fresh
unless_refused-IsAccounted (some e) a o s h fresh = h

connect-IsAccounted :
    (a : Answers) (o : Open) (s : SshClient × Open)
    → IsAccounted o s
    → IsAccounted o (connect a s).0
unfolding connect
connect-IsAccounted a o s h = elim (Bool-cases s.0.connected) [
  | inl e ↦
      subst (λ (r : (SshClient × Open) × Option DialError). IsAccounted o r.0)
        (sym (if-true s.0.connected _ _ e)) h
  | inr e ↦
      subst (λ (r : (SshClient × Open) × Option DialError). IsAccounted o r.0)
        (sym (if-false s.0.connected _ _ e))
        (unless_refused-IsAccounted (authentication a s.0.private_key_path) a o s h e)
]

disconnect-IsAccounted :
    (o : Open) (s : SshClient × Open) → IsAccounted o s → IsAccounted o (disconnect s)
unfolding disconnect
disconnect-IsAccounted o s h = ground (arith, h.held, h.accounted)

mark_refused-IsAccounted :
    (o : Open) (s : SshClient × Open)
    → IsAccounted o s
    → IsAccounted (with_lost (if s.0.connected then 1 else 0) o) (mark_refused s.0, s.1)
unfolding mark_refused
mark_refused-IsAccounted o s h = ground (arith, h.held, h.accounted)

with_lost_twice : (n m : ℕ) (o : Open) → with_lost m (with_lost n o) ≡ with_lost (n + m) o
with_lost_twice n m o = ground arith

with_lost_none : (o : Open) → with_lost 0 o ≡ o
with_lost_none o = ground arith

run-IsAccounted :
    (calls : List Call) (o : Open) (s : SshClient × Open)
    → IsAccounted o s
    → IsAccounted (with_lost (refusals calls s) o) (run calls s)
unfolding run refusals reconnect
run-IsAccounted [] o s h = subst (λ b. IsAccounted b s) (sym (with_lost_none o)) h
run-IsAccounted (connecting a ∷ calls) o s h =
    run-IsAccounted calls o (connect a s).0 (connect-IsAccounted a o s h)
run-IsAccounted (reconnecting a ∷ calls) o s h =
    run-IsAccounted calls o (reconnect a s).0
      (connect-IsAccounted a o (disconnect s) (disconnect-IsAccounted o s h))
run-IsAccounted (disconnecting ∷ calls) o s h =
    run-IsAccounted calls o (disconnect s) (disconnect-IsAccounted o s h)
run-IsAccounted (refused_by_server ∷ calls) o s h =
    let lost : ℕ = if s.0.connected then 1 else 0 in
    subst (λ b. IsAccounted b (run calls (mark_refused s.0, s.1)))
      (with_lost_twice lost (refusals calls (mark_refused s.0, s.1)) o)
      (run-IsAccounted calls (with_lost lost o) (mark_refused s.0, s.1)
        (mark_refused-IsAccounted o s h))

closed_after : (o : Open) (s : SshClient × Open) → IsAccounted o s → (disconnect s).1 ≡ o
unfolding disconnect
closed_after o s h = ground (arith, h.held, h.accounted)

-- Whatever the keys, the network and the server answer, and however `Connect`, `Disconnect`,
-- `Reconnect` and refusals that the client reads follow one another on a new client: each refusal
-- that it reads while connected leaves a connection and a session open, which nothing closes any
-- more. Next to these, and to what was open before, a connection and a session are open exactly
-- while the client is connected, and a further `Disconnect` closes them.
pub run-new-IsAccounted :
    (key : String) (calls : List Call) (o : Open)
    → let start : SshClient × Open = (new_ssh_client key, o) in
      IsAccounted (with_lost (refusals calls start) o) (run calls start)
      × ((disconnect (run calls start)).1 ≡ with_lost (refusals calls start) o)
unfolding new_ssh_client
run-new-IsAccounted key calls o =
    let start : SshClient × Open = (new_ssh_client key, o) in
    let h = run-IsAccounted calls o start (record { held = refl; accounted = refl }) in
    (h, closed_after (with_lost (refusals calls start) o) (run calls start) h)
