-- ===== src/Amf0/Decoder/Runs.antt =====
-- The loop of decode_all as the source has it, without a bound (src/protocol/amf0/amf0_decoder.cpp).
use rtmp_core.Base.{ℕ, zero, suc, ◌≤◌, ◌<◌, ◌≡◌, refl, List, [], ◌∷◌, arith, length}
use rtmp_core.Core.Error.{Error}
use rtmp_core.Core.Result.{Result, ok, err, ◌>>=◌}
use rtmp_core.Amf0.{Value}
use rtmp_core.Amf0.Decoder.{decode_value, decode_all_loop, decode_all, max_nesting_depth}
use rtmp_core.Amf0.Decoder.Takes.{Takes, decode_value-Takes}

-- `while (offset < bytes.size())` comes to the result `r` on the bytes `xs`: at once at the end of the
-- bytes; with the error of the value that stands first; or with that value in front of what the loop
-- comes to on the rest, which is shorter.
pub data Runs : List ℕ → Result (List Value) → Type 0 where
  at_end : Runs [] (ok [])
  stopped :
      (xs : List ℕ) (e : Error)
      → 1 ≤ length xs
      → decode_value (suc max_nesting_depth) xs ≡ err e
      → Runs xs (err e)
  next :
      (xs rest : List ℕ) (v : Value) (later : Result (List Value))
      → decode_value (suc max_nesting_depth) xs ≡ ok (v, rest)
      → length rest < length xs
      → Runs rest later
      → Runs xs (later >>= λ vs. ok (v ∷ vs))

round-Runs :
    (fuel x : ℕ) (xs : List ℕ) (r : Result (Value × List ℕ))
    → length xs ≤ fuel
    → decode_value (suc max_nesting_depth) (x ∷ xs) ≡ r
    → Takes 1 (x ∷ xs) r
    → ((rest : List ℕ) → length rest ≤ fuel → Runs rest (decode_all_loop fuel rest))
    → Runs (x ∷ xs) (r >>= λ p. decode_all_loop fuel p.1 >>= λ vs. ok (p.0 ∷ vs))
round-Runs fuel x xs (err e) enough here takes later = stopped (x ∷ xs) e (omega arith) here
round-Runs fuel x xs (ok (v, rest)) enough here takes later =
    next (x ∷ xs) rest v (decode_all_loop fuel rest) here (omega (arith, takes))
      (later rest (omega (arith, takes, enough)))

decode_all_loop-Runs :
    (fuel : ℕ) (xs : List ℕ) → length xs ≤ fuel → Runs xs (decode_all_loop fuel xs)
unfolding decode_all_loop
decode_all_loop-Runs fuel [] enough = at_end
decode_all_loop-Runs zero (x ∷ xs) enough = absurd (omega arith)
decode_all_loop-Runs (suc fuel) (x ∷ xs) enough =
    round-Runs fuel x xs (decode_value (suc max_nesting_depth) (x ∷ xs)) (omega arith) refl
      (decode_value-Takes (suc max_nesting_depth) (x ∷ xs)) (decode_all_loop-Runs fuel)

-- decode_all comes to an end on any bytes, and its result is the one of the loop without a bound:
-- each round decodes the value that stands first and goes on behind it, with fewer bytes left, until
-- no byte is left or a value is refused, and then its error is the result.
pub decode_all-Runs : (xs : List ℕ) → Runs xs (decode_all xs)
unfolding decode_all
decode_all-Runs xs = decode_all_loop-Runs (length xs) xs (omega arith)
