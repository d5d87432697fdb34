-- ===== src/Handshake/Reply.antt =====
-- What the server is to send (src/protocol/handshake/handshake_session.cpp).
use rtmp_core.Base.{
  ℕ, ◌≤◌, ◌≡◌, refl, List, ◌∷◌, ◌++◌, arith, length, length-drop, take, drop, drop-append,
  take-append,
}
use rtmp_core.Core.ByteOrder.{write_u32_be}
use rtmp_core.Handshake.{Env, reply}

-- The 1536 bytes after the first.
abbrev pub c1_of : List ℕ → List ℕ
c1_of b = take 1536 (drop 1 b)

-- Version 3; the four bytes of the time and four of 0, then the random bytes; and what the client sent
-- after its first byte.
abbrev pub reply_to : Env → List ℕ → List ℕ
reply_to e b = 3 ∷ (write_u32_be e.elapsed_ms ++ (0 ∷ 0 ∷ 0 ∷ 0 ∷ (e.random ++ c1_of b)))

pub reply-c1_of : (e : Env) (b : List ℕ) → reply e (c1_of b) ≡ reply_to e b
unfolding reply write_u32_be
reply-c1_of e b = refl

pub c1_of-append : (b x : List ℕ) → 1537 ≤ length b → c1_of (b ++ x) ≡ c1_of b
c1_of-append b x h =
    rw (drop-append 1 b x (omega arith))
      (take-append 1536 (drop 1 b) x (omega (arith, length-drop 1 b)))
