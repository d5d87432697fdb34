-- ===== src/Handshake/Invariant.antt =====
-- What a session has told its handlers, by its state (src/protocol/handshake/handshake_session.cpp).
use rtmp_core.Base.{
  ℕ, ◌+◌, ◌≤◌, ◌≡◌, refl, sym, ap, ◌∙◌, true, append_assoc, append-nil, drop-append, false, ◌⊎◌,
  inl, inr, List, [], ◌∷◌, ◌++◌, arith, length, length-append, length-drop, take, drop, ltb, ltb→le,
  ◌==◌, Bool-cases,
}
use rtmp_core.Core.Error.{Error}
use rtmp_core.Core.ByteOrder.{byte_at, write_u32_be}
use rtmp_core.Handshake.Reply.{reply_to, reply-c1_of, c1_of-append}
use rtmp_core.Handshake.{
  HandshakeState, HandshakeSession, Call, Env, start, waiting_for_c0, waiting_for_c1,
  sending_s0_s1_s2, waiting_for_c2, completed, failed, timed_out, sent, finished, reported,
  is_terminal, fail, on_timeout, try_consume_c0, try_consume_c1, try_consume_c2, when_c0, when_c1,
  when_c2, advance, on_bytes_received, reply, handshake_chunk_size, c0_size, rtmp_version,
  max_handshake_bytes,
}

-- What a connection does to the session.
pub data Event : Type 0 where
  bytes : Env → List ℕ → Event
  timeout : Event

-- All bytes of the events.
abbrev pub bytes_of : List Event → List ℕ
bytes_of [] = []
bytes_of (bytes e xs ∷ rest) = xs ++ bytes_of rest
bytes_of (timeout ∷ rest) = bytes_of rest

-- The clock and the random source of one of the calls.
abbrev pub Offers : Env → List Event → Type 0
Offers e [] = ⊥
Offers e (bytes e' xs ∷ rest) = (e ≡ e') ⊎ Offers e rest
Offers e (timeout ∷ rest) = Offers e rest

-- `P` is what is known of the clock and the random source, `b` the bytes of all calls so far.
module _ (P : Env → Type 0) where
  -- S0, S1 and S2 for the bytes `b`.
  abbrev pub IsReply : List ℕ → List ℕ → Type 0
  IsReply b r = (e : Env) × P e × (r ≡ reply_to e b) × (1537 ≤ length b)

  abbrev pub Ended : List ℕ → List Call → Type 0
  Ended b cs =
      ((e : Error) × (cs ≡ reported e ∷ []))
      ⊎ ((r : List ℕ) × (e : Error) × IsReply b r × (cs ≡ sent r ∷ reported e ∷ []))

  -- The reply is sent at most once, before the end is reported, and the end is reported once.
  abbrev pub Told : HandshakeState → List ℕ → List ℕ → List Call → Type 0
  Told waiting_for_c0 b buf cs = (cs ≡ []) × (buf ≡ b)
  Told waiting_for_c1 b buf cs = (cs ≡ []) × (buf ≡ drop 1 b) × (1 ≤ length b)
  Told sending_s0_s1_s2 b buf cs = ⊥
  Told waiting_for_c2 b buf cs = (r : List ℕ) × IsReply b r × (cs ≡ sent r ∷ [])
  Told completed b buf cs = (r : List ℕ) × IsReply b r × (cs ≡ sent r ∷ finished ∷ [])
  Told failed b buf cs = Ended b cs
  Told timed_out b buf cs = Ended b cs

  pub record Inv (b : List ℕ) (s : HandshakeSession) : Type 0 where
    pub told : Told s.state b s.buffer s.calls
    pub bounded : length s.buffer ≤ max_handshake_bytes

  abbrev session : HandshakeState → List ℕ → List Call → HandshakeSession
  session st buf cs = record { state = st; buffer = buf; calls = cs }

  IsReply-append : (b x r : List ℕ) → IsReply b r → IsReply (b ++ x) r
  IsReply-append b x r (e, p, is, long) = (
    e,
    p,
    is
        ∙ ap (λ c. 3 ∷ (write_u32_be e.elapsed_ms ++ (0 ∷ 0 ∷ 0 ∷ 0 ∷ (e.random ++ c))))
            (sym (c1_of-append b x long)),
    omega (arith, long, length-append b x),
  )

  Ended-append : (b x : List ℕ) (cs : List Call) → Ended b cs → Ended (b ++ x) cs
  Ended-append b x cs (inl e) = inl e
  Ended-append b x cs (inr (r, e, is, t)) = inr (r, e, IsReply-append b x r is, t)

  -- An ended session ignores what comes.
  Inv-after :
      (b x : List ℕ) (st : HandshakeState) (buf : List ℕ) (cs : List Call)
      → is_terminal st ≡ true
      → Inv b (session st buf cs)
      → Inv (b ++ x) (session st buf cs)
  Inv-after b x waiting_for_c0 buf cs h v = cc
  Inv-after b x waiting_for_c1 buf cs h v = cc
  Inv-after b x sending_s0_s1_s2 buf cs h v = cc
  Inv-after b x waiting_for_c2 buf cs h v = cc
  Inv-after b x completed buf cs h v = record {
    told = (v.told.0, IsReply-append b x v.told.0 v.told.1, v.told.2);
    bounded = v.bounded;
  }
  Inv-after b x failed buf cs h v = record {
    told = Ended-append b x cs v.told;
    bounded = v.bounded;
  }
  Inv-after b x timed_out buf cs h v = record {
    told = Ended-append b x cs v.told;
    bounded = v.bounded;
  }

  -- An open session keeps what comes, where there is room.
  Told-append :
      (b x : List ℕ) (st : HandshakeState) (buf : List ℕ) (cs : List Call)
      → is_terminal st ≡ false
      → Told st b buf cs
      → Told st (b ++ x) (buf ++ x) cs
  Told-append b x waiting_for_c0 buf cs h (t, same) = (t, ap (λ ys. ys ++ x) same)
  Told-append b x waiting_for_c1 buf cs h (t, same, some) = (
    t,
    ap (λ ys. ys ++ x) same ∙ sym (drop-append 1 b x some),
    omega (arith, some, length-append b x),
  )
  Told-append b x sending_s0_s1_s2 buf cs h t = absurd t
  Told-append b x waiting_for_c2 buf cs h (r, is, t) = (r, IsReply-append b x r is, t)
  Told-append b x completed buf cs h t = cc
  Told-append b x failed buf cs h t = cc
  Told-append b x timed_out buf cs h t = cc

  dying :
      (st : HandshakeState) (b buf : List ℕ) (cs : List Call) (e : Error)
      → Told st b buf cs
      → is_terminal st ≡ false
      → Ended b (cs ++ (reported e ∷ []))
  dying waiting_for_c0 b buf cs e t h = inl (e, rw t.0 refl)
  dying waiting_for_c1 b buf cs e t h = inl (e, rw t.0 refl)
  dying sending_s0_s1_s2 b buf cs e t h = absurd t
  dying waiting_for_c2 b buf cs e (r, is, t) h = inr (r, e, is, rw t refl)
  dying completed b buf cs e t h = cc
  dying failed b buf cs e t h = cc
  dying timed_out b buf cs e t h = cc

  fail-Inv : (b : List ℕ) (s : HandshakeSession) → Inv b s → Inv b (fail s)
  unfolding fail
  fail-Inv b s v = elim (Bool-cases (is_terminal s.state)) [
    | inl done ↦ rw done v
    | inr open' ↦
        rw open'
          (record { told = dying s.state b s.buffer s.calls _ v.told open'; bounded = omega arith })
  ]

  on_timeout-Inv : (b : List ℕ) (s : HandshakeSession) → Inv b s → Inv b (on_timeout s)
  unfolding on_timeout
  on_timeout-Inv b s v = elim (Bool-cases (is_terminal s.state)) [
    | inl done ↦ rw done v
    | inr open' ↦
        rw open'
          (record { told = dying s.state b s.buffer s.calls _ v.told open'; bounded = omega arith })
  ]

  try_consume_c0-Inv :
      (b buf : List ℕ) (cs : List Call)
      → Inv b (session waiting_for_c0 buf cs)
      → Inv b (try_consume_c0 (session waiting_for_c0 buf cs))
  unfolding try_consume_c0
  try_consume_c0-Inv b buf cs v = elim (Bool-cases (ltb (length buf) c0_size)) [
    | inl short ↦ rw short v
    | inr long ↦
        let rest : Inv b (session waiting_for_c1 (drop 1 buf) cs) = record {
          told = (
            v.told.0,
            ap (drop 1) v.told.1,
            omega (arith, ltb→le (length buf) c0_size long, ap length v.told.1),
          );
          bounded = omega (arith, v.bounded, length-drop 1 buf);
        } in
        elim (Bool-cases (byte_at buf 0 == rtmp_version)) [
          | inl good ↦ rw (long, good) rest
          | inr bad ↦ rw (long, bad) (fail-Inv b (session waiting_for_c0 buf cs) v)
        ]
  ]

  try_consume_c1-Inv :
      (e : Env) (b buf : List ℕ) (cs : List Call)
      → P e
      → Inv b (session waiting_for_c1 buf cs)
      → Inv b (try_consume_c1 e (session waiting_for_c1 buf cs))
  unfolding try_consume_c1
  try_consume_c1-Inv e b buf cs p v = elim (Bool-cases (ltb (length buf) handshake_chunk_size)) [
    | inl short ↦ rw short v
    | inr long ↦
        let all_there : 1537 ≤ length b = omega (
          arith,
          ltb→le (length buf) handshake_chunk_size long,
          ap length v.told.1,
          length-drop 1 b,
        ) in
        rw long (record {
          told = (
            reply e (take handshake_chunk_size buf),
            (
              e,
              p,
              ap (λ xs. reply e (take handshake_chunk_size xs)) v.told.1 ∙ reply-c1_of e b,
              all_there,
            ),
            rw v.told.0 refl,
          );
          bounded = omega (arith, v.bounded, length-drop handshake_chunk_size buf);
        })
  ]

  try_consume_c2-Inv :
      (b buf : List ℕ) (cs : List Call)
      → Inv b (session waiting_for_c2 buf cs)
      → Inv b (try_consume_c2 (session waiting_for_c2 buf cs))
  unfolding try_consume_c2
  try_consume_c2-Inv b buf cs v = elim (Bool-cases (ltb (length buf) handshake_chunk_size)) [
    | inl short ↦ rw short v
    | inr long ↦ rw long (record {
      told = (v.told.0, v.told.1, rw v.told.2 refl);
      bounded = omega (arith, v.bounded, length-drop handshake_chunk_size buf);
    })
  ]

  when_c0-Inv :
      (st : HandshakeState) (b buf : List ℕ) (cs : List Call)
      → Inv b (session st buf cs)
      → Inv b (when_c0 st (session st buf cs))
  unfolding when_c0
  when_c0-Inv waiting_for_c0 b buf cs v = try_consume_c0-Inv b buf cs v
  when_c0-Inv _ b buf cs v = v

  when_c1-Inv :
      (e : Env) (st : HandshakeState) (b buf : List ℕ) (cs : List Call)
      → P e
      → Inv b (session st buf cs)
      → Inv b (when_c1 e st (session st buf cs))
  unfolding when_c1
  when_c1-Inv e waiting_for_c1 b buf cs p v = try_consume_c1-Inv e b buf cs p v
  when_c1-Inv e _ b buf cs p v = v

  when_c2-Inv :
      (st : HandshakeState) (b buf : List ℕ) (cs : List Call)
      → Inv b (session st buf cs)
      → Inv b (when_c2 st (session st buf cs))
  unfolding when_c2
  when_c2-Inv waiting_for_c2 b buf cs v = try_consume_c2-Inv b buf cs v
  when_c2-Inv _ b buf cs v = v

  advance-Inv : (e : Env) (b : List ℕ) (s : HandshakeSession) → P e → Inv b s → Inv b (advance e s)
  unfolding advance
  advance-Inv e b s p v =
      let s0 = when_c0 s.state s in
      let s1 = when_c1 e s0.state s0 in
      when_c2-Inv s1.state b s1.buffer s1.calls
        (when_c1-Inv e s0.state b s0.buffer s0.calls p (when_c0-Inv s.state b s.buffer s.calls v))

  fail-terminal : (s : HandshakeSession) → is_terminal (fail s).state ≡ true
  unfolding fail
  fail-terminal s = elim (Bool-cases (is_terminal s.state)) [
    | inl done ↦ rw done done
    | inr open' ↦ rw open' refl
  ]

  received-Inv :
      (e : Env) (xs b : List ℕ) (s : HandshakeSession)
      → P e
      → Inv b s
      → Inv (b ++ xs) (on_bytes_received e xs s)
  unfolding on_bytes_received
  received-Inv e [] b s p v = elim (Bool-cases (is_terminal s.state)) [
    | inl done ↦ rw (done, append-nil b) v
    | inr open' ↦ rw (open', append-nil b) v
  ]
  received-Inv e (y ∷ ys) b s p v = elim (Bool-cases (is_terminal s.state)) [
    | inl done ↦ rw done (Inv-after b (y ∷ ys) s.state s.buffer s.calls done v)
    | inr open' ↦
        let xs = y ∷ ys in
        elim (Bool-cases (ltb max_handshake_bytes (length s.buffer + length xs))) [
          | inl over ↦
              let s' = fail s in
              rw (open', over)
                (Inv-after b xs s'.state s'.buffer s'.calls (fail-terminal s) (fail-Inv b s v))
          | inr fits ↦
              rw (open', fits)
                (advance-Inv e (b ++ xs) (record s { buffer = s.buffer ++ xs }) p
                  (record {
                    told = Told-append b xs s.state s.buffer s.calls open' v.told;
                    bounded = omega (
                      arith,
                      length-append s.buffer xs,
                      ltb→le max_handshake_bytes (length s.buffer + length xs) fits,
                    );
                  }))
        ]
  ]

pub run : List Event → HandshakeSession → HandshakeSession
run [] s = s
run (bytes e xs ∷ rest) s = run rest (on_bytes_received e xs s)
run (timeout ∷ rest) s = run rest (on_timeout s)

run-Inv :
    (P : Env → Type 0) (events : List Event) (b : List ℕ) (s : HandshakeSession)
    → ((e : Env) → Offers e events → P e)
    → Inv P b s
    → Inv P (b ++ bytes_of events) (run events s)
unfolding run
run-Inv P [] b s f v = rw (append-nil b) v
run-Inv P (bytes e xs ∷ rest) b s f v = rw (sym (append_assoc b xs (bytes_of rest))) (
    run-Inv P rest (b ++ xs) (on_bytes_received e xs s) (λ e' o. f e' (inr o))
      (received-Inv P e xs b s (f e (inl refl)) v))
run-Inv P (timeout ∷ rest) b s f v = run-Inv P rest b (on_timeout s) f (on_timeout-Inv P b s v)

-- After any bytes and any timeouts, a session holds at most 3073 bytes, is never left while it is
-- sending, and its handlers were called as its state says: nothing at first; then one reply, which
-- is version 3, a time, four zeros, random bytes, and the 1536 bytes that the client sent after its
-- first byte, with the time and the random bytes of one of the calls; then either the completion or
-- one error, and nothing after that. An error may also come without a reply.
pub run-start-Inv :
    (events : List Event) → Inv (λ e. Offers e events) (bytes_of events) (run events start)
run-start-Inv events =
    run-Inv (λ e. Offers e events) events [] start (λ e o. o)
      (record { told = (refl, refl); bounded = omega arith })
