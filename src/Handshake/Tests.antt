-- ===== src/Handshake/Tests.antt =====
-- The handshake at concrete bytes (src/protocol/handshake/handshake_session.cpp).
use rtmp_core.Base.{ℕ, zero, suc, ◌≡◌, refl, List, [], ◌∷◌, arith, length, length-append}
use rtmp_core.Handshake.{Env, start, completed, sent, finished}
use rtmp_core.Handshake.Invariant as Invariant
use rtmp_core.Handshake.Reply.{reply_to}
use rtmp_core.Handshake.Invariant.{Inv, Event, Offers, bytes, timeout, run, run-start-Inv}
use rtmp_core.Handshake.Progress.{receive_all, receive_all-completes, bytes_of, Offered}

abbrev env : Env
env = record { elapsed_ms = 5; random = 1 ∷ 2 ∷ [] }

abbrev sevens : ℕ → List ℕ
sevens zero = []
sevens (suc n) = 7 ∷ sevens n

length-sevens : (n : ℕ) → length (sevens n) ≡ n
length-sevens zero = refl
length-sevens (suc n) = omega (arith, length-sevens n)

abbrev client : List (Env × List ℕ)
client = (env, 3 ∷ []) ∷ (env, sevens 3072) ∷ []

length-client : length (bytes_of client) ≡ 3073
length-client = omega (arith, length-sevens 3072, length-append (sevens 3072) [])

abbrev events : List Event
events = bytes env (3 ∷ 7 ∷ []) ∷ timeout ∷ []

run-start-Inv_example : Inv (λ e. Offers e events) (Invariant.bytes_of events) (run events start)
run-start-Inv_example = run-start-Inv events

receive_all-completes_example :
    (e : Env) × Offered e client
    × (receive_all client start ≡ record {
      state = completed;
      buffer = [];
      calls = sent (reply_to e (bytes_of client)) ∷ finished ∷ [];
    })
receive_all-completes_example = receive_all-completes client length-client refl
