-- ===== src/Handshake/Progress.antt =====
-- A client that sends its version byte and its two chunks, cut into any calls, completes the handshake
-- (src/protocol/handshake/handshake_session.cpp).
use rtmp_core.Base.{
  ℕ, ◌+◌, ◌≤◌, ◌<◌, ◌≡◌, ◌⊎◌, refl, sym, ap, ◌∙◌, true, false, inl, inr, List, [], ◌∷◌, ◌++◌, arith,
  length, length-append, length-drop, drop, drop-append, drop-drop, append_assoc, append-nil,
  get_or-append, drop_all, ltb, ltb→le, ltb→lt, le→ltb, lt→ltb, ◌==◌, Bool-cases,
}
use mathlib.Core.Path.{subst}
use rtmp_core.Core.ByteOrder.{byte_at}
use rtmp_core.Handshake.Reply.{c1_of, reply_to, reply-c1_of, c1_of-append}
use rtmp_core.Handshake.{
  HandshakeSession, Env, start, waiting_for_c0, waiting_for_c1, waiting_for_c2, completed, sent,
  finished, is_terminal, try_consume_c0, try_consume_c1, try_consume_c2, when_c0, when_c1, when_c2,
  advance, on_bytes_received, reply, max_handshake_bytes,
}

-- A call with bytes, on a session that is open and has room for them.
on_bytes_received_open :
    (e : Env) (y : ℕ) (ys : List ℕ) (s : HandshakeSession)
    → is_terminal s.state ≡ false
    → length s.buffer + length (y ∷ ys) ≤ max_handshake_bytes
    → on_bytes_received e (y ∷ ys) s ≡ advance e (record s { buffer = s.buffer ++ (y ∷ ys) })
unfolding on_bytes_received
on_bytes_received_open e y ys s h fits =
    rw (h, le→ltb max_handshake_bytes (length s.buffer + length (y ∷ ys)) fits) refl

module _ (P : Env → Type 0) where
  -- What the session is after the bytes `b` of a handshake.
  pub data Reached (b : List ℕ) (s : HandshakeSession) : Type 0 where
    nothing : b ≡ [] → s ≡ start → Reached b s
    in_c1 :
        1 ≤ length b
        → length b < 1537
        → s ≡ record { state = waiting_for_c1; buffer = drop 1 b; calls = [] }
        → Reached b s
    in_c2 :
        (e : Env)
        → P e
        → 1537 ≤ length b
        → length b < 3073
        → s ≡ record {
          state = waiting_for_c2;
          buffer = drop 1537 b;
          calls = sent (reply_to e b) ∷ [];
        }
        → Reached b s
    done :
        (e : Env)
        → P e
        → length b ≡ 3073
        → s ≡ record {
          state = completed;
          buffer = drop 3073 b;
          calls = sent (reply_to e b) ∷ finished ∷ [];
        }
        → Reached b s

  c2_stage :
      (e : Env) (b : List ℕ) (s : HandshakeSession)
      → P e
      → 1537 ≤ length b
      → length b ≤ 3073
      → s
        ≡ record { state = waiting_for_c2; buffer = drop 1537 b; calls = sent (reply_to e b) ∷ [] }
      → Reached b (when_c2 s.state s)
  unfolding when_c2 try_consume_c2
  c2_stage e b s p lo hi same = elim (Bool-cases (ltb (length b) 3073)) [
    | inl part ↦ rw same (
        rw
          (lt→ltb (length (drop 1537 b)) 1536
            (omega (arith, ltb→lt (length b) 3073 part, length-drop 1537 b)))
          (in_c2 e p lo (ltb→lt (length b) 3073 part) refl))
    | inr all ↦ rw same (
        rw
          (le→ltb (length (drop 1537 b)) 1536
            (omega (arith, ltb→le (length b) 3073 all, length-drop 1537 b)))
          (done e p (omega (arith, ltb→le (length b) 3073 all)) (rw (drop-drop 1537 1536 b) refl)))
  ]

  abbrev after_c1 : List ℕ → List ℕ → HandshakeSession
  after_c1 b r = record { state = waiting_for_c2; buffer = drop 1537 b; calls = sent r ∷ [] }

  answered : (e : Env) (b : List ℕ) → after_c1 b (reply e (c1_of b)) ≡ after_c1 b (reply_to e b)
  answered e b = ap (after_c1 b) (reply-c1_of e b)

  c1_stage :
      (e : Env) (b : List ℕ) (s : HandshakeSession)
      → P e
      → 1 ≤ length b
      → length b ≤ 3073
      → s ≡ record { state = waiting_for_c1; buffer = drop 1 b; calls = [] }
      → Reached b (when_c2 (when_c1 e s.state s).state (when_c1 e s.state s))
  unfolding when_c1 try_consume_c1
  c1_stage e b s p lo hi same = elim (Bool-cases (ltb (length b) 1537)) [
    | inl part ↦ rw same (
        rw
          (lt→ltb (length (drop 1 b)) 1536
            (omega (arith, ltb→lt (length b) 1537 part, length-drop 1 b)))
          (unfold when_c2 in in_c1 lo (ltb→lt (length b) 1537 part) refl))
    | inr more ↦ rw same (
        rw
          (le→ltb (length (drop 1 b)) 1536
            (omega (arith, ltb→le (length b) 1537 more, length-drop 1 b)))
          (c2_stage e b _ p (ltb→le (length b) 1537 more) hi
            (rw (drop-drop 1 1536 b) (answered e b))))
  ]

  advance_c0 :
      (e : Env) (y : ℕ) (ys : List ℕ)
      → P e
      → y ≡ 3
      → length (y ∷ ys) ≤ 3073
      → Reached
          (y ∷ ys)
          (advance e (record { state = waiting_for_c0; buffer = y ∷ ys; calls = [] }))
  unfolding advance when_c0 try_consume_c0
  advance_c0 e y ys p is3 hi =
      rw (le→ltb (length (y ∷ ys)) 1 (omega arith), same)
        (c1_stage e (y ∷ ys) (record { state = waiting_for_c1; buffer = ys; calls = [] }) p
          (omega arith) hi refl)
    where
      same : (y == 3) ≡ true
      same = rw is3 refl

  advance_c1 :
      (e : Env) (b x : List ℕ) (s : HandshakeSession)
      → P e
      → 1 ≤ length b
      → length (b ++ x) ≤ 3073
      → s ≡ record { state = waiting_for_c1; buffer = drop 1 b; calls = [] }
      → Reached (b ++ x) (advance e (record s { buffer = s.buffer ++ x }))
  unfolding advance when_c0
  advance_c1 e b x s p lo hi same = rw same (
      c1_stage e (b ++ x) (record { state = waiting_for_c1; buffer = drop 1 b ++ x; calls = [] }) p
        (omega (arith, length-append b x)) hi (rw (drop-append 1 b x lo) refl))

  advance_c2 :
      (e e0 : Env) (b x : List ℕ) (s : HandshakeSession)
      → P e0
      → 1537 ≤ length b
      → length (b ++ x) ≤ 3073
      → s
        ≡ record { state = waiting_for_c2; buffer = drop 1537 b; calls = sent (reply_to e0 b) ∷ [] }
      → Reached (b ++ x) (advance e (record s { buffer = s.buffer ++ x }))
  unfolding advance when_c0 when_c1
  advance_c2 e e0 b x s p lo hi same = rw same (
      c2_stage e0 (b ++ x)
        (record {
          state = waiting_for_c2;
          buffer = drop 1537 b ++ x;
          calls = sent (reply_to e0 b) ∷ [];
        })
        p (omega (arith, length-append b x)) hi
        (rw (drop-append 1537 b x lo, c1_of-append b x lo) refl))

  on_bytes_received-Reached :
      (e : Env) (b : List ℕ) (y : ℕ) (ys : List ℕ) (s : HandshakeSession)
      → P e
      → Reached b s
      → length (b ++ y ∷ ys) ≤ 3073
      → byte_at (b ++ y ∷ ys) 0 ≡ 3
      → Reached (b ++ y ∷ ys) (on_bytes_received e (y ∷ ys) s)
  on_bytes_received-Reached e b y ys s p (nothing none' same) hi is3 =
      let is3' : y ≡ 3 = subst (λ c. byte_at (c ++ y ∷ ys) 0 ≡ 3) none' is3 in
      let hi' : length (y ∷ ys) ≤ 3073 = subst (λ c. length (c ++ y ∷ ys) ≤ 3073) none' hi in
      subst (λ c. Reached (c ++ y ∷ ys) (on_bytes_received e (y ∷ ys) s)) (sym none')
        (subst (λ t. Reached (y ∷ ys) (on_bytes_received e (y ∷ ys) t)) (sym same)
          (subst (Reached (y ∷ ys))
            (sym (on_bytes_received_open e y ys start refl (omega (arith, hi'))))
            (advance_c0 e y ys p is3' hi')))
  on_bytes_received-Reached e b y ys s p (in_c1 lo part same) hi is3 =
      let room : length s.buffer + length (y ∷ ys) ≤ 3073 =
        rw same (omega (arith, length-append b (y ∷ ys), length-drop 1 b)) in
      subst (Reached (b ++ y ∷ ys)) (sym (on_bytes_received_open e y ys s (rw same refl) room))
        (advance_c1 e b (y ∷ ys) s p lo hi same)
  on_bytes_received-Reached e b y ys s p (in_c2 e0 p0 lo part same) hi is3 =
      let room : length s.buffer + length (y ∷ ys) ≤ 3073 =
        rw same (omega (arith, length-append b (y ∷ ys), length-drop 1537 b)) in
      subst (Reached (b ++ y ∷ ys)) (sym (on_bytes_received_open e y ys s (rw same refl) room))
        (advance_c2 e e0 b (y ∷ ys) s p0 lo hi same)
  on_bytes_received-Reached e b y ys s p (done e0 p0 all same) hi is3 =
      absurd (omega (arith, length-append b (y ∷ ys)))

on_bytes_received-nil : (e : Env) (s : HandshakeSession) → on_bytes_received e [] s ≡ s
unfolding on_bytes_received
on_bytes_received-nil e s = ground arith

-- The calls of the transport, each with the clock and the random bytes of its moment.
pub receive_all : List (Env × List ℕ) → HandshakeSession → HandshakeSession
receive_all [] s = s
receive_all ((e, xs) ∷ rest) s = receive_all rest (on_bytes_received e xs s)

abbrev pub bytes_of : List (Env × List ℕ) → List ℕ
bytes_of [] = []
bytes_of ((e, xs) ∷ rest) = xs ++ bytes_of rest

-- The clock and the random source of one of the calls.
abbrev pub Offered : Env → List (Env × List ℕ) → Type 0
Offered e [] = ⊥
Offered e ((e', xs) ∷ rest) = (e ≡ e') ⊎ Offered e rest

receive_all-Reached :
    (P : Env → Type 0) (calls : List (Env × List ℕ)) (b : List ℕ) (s : HandshakeSession)
    → ((e : Env) → Offered e calls → P e)
    → Reached P b s
    → length (b ++ bytes_of calls) ≤ 3073
    → byte_at (b ++ bytes_of calls) 0 ≡ 3
    → Reached P (b ++ bytes_of calls) (receive_all calls s)
unfolding receive_all
receive_all-Reached P [] b s f r hi is3 = rw (append-nil b) r
receive_all-Reached P ((e, []) ∷ rest) b s f r hi is3 =
    rw (on_bytes_received-nil e s) (receive_all-Reached P rest b s (λ e' o. f e' (inr o)) r hi is3)
receive_all-Reached P ((e, y ∷ ys) ∷ rest) b s f r hi is3 =
    let b' = b ++ y ∷ ys in
    let eq = append_assoc b (y ∷ ys) (bytes_of rest) in
    let hi' : length (b' ++ bytes_of rest) ≤ 3073 = rw eq hi in
    let is3' : byte_at (b' ++ bytes_of rest) 0 ≡ 3 = rw eq is3 in
    subst (λ c. Reached P c (receive_all rest (on_bytes_received e (y ∷ ys) s))) eq
      (receive_all-Reached P rest b' (on_bytes_received e (y ∷ ys) s) (λ e' o. f e' (inr o))
        (on_bytes_received-Reached P e b y ys s (f e (inl refl)) r
          (omega (arith, length-append b' (bytes_of rest)))
          (sym (get_or-append b' (bytes_of rest) 0 0 (omega (arith, length-append b (y ∷ ys))))
            ∙ is3'))
        hi' is3')

-- A new session that is sent 3073 bytes, a 3 first, completes, however they are cut into calls: it
-- sends one reply, which is version 3, a time, four zeros, random bytes and the 1536 bytes after the
-- first, with the time and the random bytes of one of the calls; then it reports the completion, and
-- keeps no byte.
pub receive_all-completes :
    (calls : List (Env × List ℕ))
    → length (bytes_of calls) ≡ 3073
    → byte_at (bytes_of calls) 0 ≡ 3
    → (e : Env) × Offered e calls
      × (receive_all calls start ≡ record {
        state = completed;
        buffer = [];
        calls = sent (reply_to e (bytes_of calls)) ∷ finished ∷ [];
      })
receive_all-completes calls size is3 = ends (
    receive_all-Reached (λ e. Offered e calls) calls [] start (λ e o. o) (nothing refl refl)
      (omega (arith, size)) is3)
  where
    ends :
        Reached (λ e. Offered e calls) (bytes_of calls) (receive_all calls start)
        → (e : Env) × Offered e calls
          × (receive_all calls start ≡ record {
            state = completed;
            buffer = [];
            calls = sent (reply_to e (bytes_of calls)) ∷ finished ∷ [];
          })
    ends (nothing none' same) = absurd (omega (arith, ap length none', size))
    ends (in_c1 lo part same) = absurd (omega (arith, size))
    ends (in_c2 e p lo part same) = absurd (omega (arith, size))
    ends (done e p all same) = (
      e,
      p,
      same
          ∙ ap
              (λ (r : List ℕ). record {
                state = completed;
                buffer = r;
                calls = sent (reply_to e (bytes_of calls)) ∷ finished ∷ [];
              })
              (drop_all 3073 (bytes_of calls) (omega (arith, size))),
    )
