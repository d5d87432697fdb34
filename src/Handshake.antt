-- ===== src/Handshake.antt =====
-- include/rtmp_server/protocol/handshake/handshake_session.hpp and
-- src/protocol/handshake/handshake_session.cpp. The clock and the random source are arguments of a
-- call, `Env`; `calls` lists what the three handlers were called with, first call first. The
-- handlers do not call the session.
pub mod Invariant
pub mod Progress
pub mod Reply
pub mod Tests
use rtmp_core.Base.{
  ℕ, ◌+◌, ◌*◌, Bool, true, false, ◌||◌, List, [], ◌∷◌, ◌++◌, length, take, drop, get_or, ltb, ◌==◌,
  if◌then◌else◌,
}
use rtmp_core.Core.Error.{
  Error, ErrorCode, ErrorCategory, malformed_handshake, connection_timed_out, protocol, network,
}
use rtmp_core.Core.ByteOrder.{byte_at, write_u32_be}

abbrev pub rtmp_version : ℕ
rtmp_version = 3

abbrev pub c0_size : ℕ
c0_size = 1

abbrev pub handshake_chunk_size : ℕ
handshake_chunk_size = 4 + 4 + 1528

abbrev pub max_handshake_bytes : ℕ
max_handshake_bytes = c0_size + handshake_chunk_size + handshake_chunk_size

pub data HandshakeState : Type 0 where
  waiting_for_c0 waiting_for_c1 sending_s0_s1_s2 waiting_for_c2 : HandshakeState
  completed failed timed_out : HandshakeState

pub data Call : Type 0 where
  sent : List ℕ → Call
  finished : Call
  reported : Error → Call

pub record HandshakeSession : Type 0 where
  pub state : HandshakeState
  pub buffer : List ℕ
  pub calls : List Call

-- to_millis(monotonic_now() - start_time_), and what secure_random_bytes fills in.
pub record Env : Type 0 where
  pub elapsed_ms : ℕ
  pub random : List ℕ

abbrev pub start : HandshakeSession
start = record { state = waiting_for_c0; buffer = []; calls = [] }

abbrev pub is_terminal : HandshakeState → Bool
is_terminal completed = true
is_terminal failed = true
is_terminal timed_out = true
is_terminal waiting_for_c0 = false
is_terminal waiting_for_c1 = false
is_terminal sending_s0_s1_s2 = false
is_terminal waiting_for_c2 = false

abbrev error : ErrorCode → ErrorCategory → Call
error code category = reported (record { code = code; category = category })

pub fail : HandshakeSession → HandshakeSession
fail s = if is_terminal s.state then s else record {
  state = failed;
  buffer = [];
  calls = s.calls ++ (error malformed_handshake protocol ∷ []);
}

pub on_timeout : HandshakeSession → HandshakeSession
on_timeout s = if is_terminal s.state then s else record {
  state = timed_out;
  buffer = [];
  calls = s.calls ++ (error connection_timed_out network ∷ []);
}

pub try_consume_c0 : HandshakeSession → HandshakeSession
unfolding fail
try_consume_c0 s =
    if ltb (length s.buffer) c0_size
    then s
    else if byte_at s.buffer 0 == rtmp_version
    then record s { buffer = drop c0_size s.buffer; state = waiting_for_c1 }
    else fail s

-- S0, S1 and S2 in one buffer; S2 is the first chunk of the client, `c1`, as it came.
pub reply : Env → List ℕ → List ℕ
reply e c1 =
    (rtmp_version ∷ []) ++ (write_u32_be e.elapsed_ms ++ (write_u32_be 0 ++ (e.random ++ c1)))

-- The state is sending_s0_s1_s2 while the send handler runs, and the code sets it again after.
pub try_consume_c1 : Env → HandshakeSession → HandshakeSession
try_consume_c1 e s = if ltb (length s.buffer) handshake_chunk_size then s else record {
  state = waiting_for_c2;
  buffer = drop handshake_chunk_size s.buffer;
  calls = s.calls ++ (sent (reply e (take handshake_chunk_size s.buffer)) ∷ []);
}

pub try_consume_c2 : HandshakeSession → HandshakeSession
try_consume_c2 s = if ltb (length s.buffer) handshake_chunk_size then s else record {
  state = completed;
  buffer = drop handshake_chunk_size s.buffer;
  calls = s.calls ++ (finished ∷ []);
}

-- `if (state_ == HandshakeState::WaitingForC0) try_consume_c0();` and the two after it.
when_c0 : HandshakeState → HandshakeSession → HandshakeSession
when_c0 waiting_for_c0 s = try_consume_c0 s
when_c0 _ s = s

when_c1 : Env → HandshakeState → HandshakeSession → HandshakeSession
when_c1 e waiting_for_c1 s = try_consume_c1 e s
when_c1 e _ s = s

when_c2 : HandshakeState → HandshakeSession → HandshakeSession
when_c2 waiting_for_c2 s = try_consume_c2 s
when_c2 _ s = s

pub advance : Env → HandshakeSession → HandshakeSession
unfolding when_c0 when_c1 when_c2
advance e s = let s0 = when_c0 s.state s in let s1 = when_c1 e s0.state s0 in when_c2 s1.state s1

is_empty : List ℕ → Bool
is_empty [] = true
is_empty (b ∷ bs) = false

pub on_bytes_received : Env → List ℕ → HandshakeSession → HandshakeSession
unfolding is_empty
on_bytes_received e bytes s =
    if is_terminal s.state || is_empty bytes
    then s
    else if ltb max_handshake_bytes (length s.buffer + length bytes)
    then fail s
    else advance e (record s { buffer = s.buffer ++ bytes })
