-- ===== src/Chunk/Decoder/Tests.antt =====
-- The decoder at concrete bytes (src/protocol/chunk/chunk_decoder.cpp).
use rtmp_core.Base.{ℕ, ◌≡◌, ◌≢◌, ◌⊎◌, refl, List, [], ◌∷◌, ◌++◌, arith, true, false}
use mathlib.Core.List.{flatten}
use rtmp_core.Chunk.Decoder.Inspect.{Limits}
use rtmp_core.Chunk.Decoder.{
  ChunkDecoder, initial, on_bytes_received, decode_one, insufficient_data,
}
use rtmp_core.Chunk.Decoder.Invariant.{Inv, initial-Inv}
use rtmp_core.Chunk.Decoder.Invariant.Rounds.{on_bytes_received-Inv}
use rtmp_core.Chunk.Decoder.Fragments.Cut.{receive_all, receive_all-cut, on_bytes_received_ends}

abbrev limits : Limits
limits = record {
  max_chunk_streams = 64;
  max_buffered_payload_bytes = 20971520;
  max_chunk_size = 0xFFFFFF;
}

abbrev decoder : ChunkDecoder
decoder = record { parser = initial 10485760 limits; bytes_received = 0; bytes_at_last_ack = 0 }

-- One audio message of two bytes, on chunk stream 3 and message stream 1.
abbrev front : List ℕ
front = 3 ∷ 0 ∷ 0 ∷ 5 ∷ 0 ∷ 0 ∷ 2 ∷ 8 ∷ []

abbrev back : List ℕ
back = 1 ∷ 0 ∷ 0 ∷ 0 ∷ 0xAA ∷ 0xBB ∷ []

receive_all-cut_example :
    (receive_all (front ∷ back ∷ []) decoder).parser
    ≡ (receive_all ((front ++ back) ∷ []) decoder).parser
unfolding flatten
receive_all-cut_example = receive_all-cut (front ∷ back ∷ []) ((front ++ back) ∷ []) decoder refl

on_bytes_received-Inv_example : Inv (on_bytes_received (front ++ back) decoder).parser
on_bytes_received-Inv_example =
    on_bytes_received-Inv (front ++ back) decoder
      (initial-Inv 10485760 limits (omega arith) (omega arith))

not_empty : front ≢ []
not_empty e = cc

on_bytes_received_ends_example :
    let p = (on_bytes_received front decoder).parser in
    ((p.failed ≡ false) × ((decode_one p).0 ≡ insufficient_data))
    ⊎ ((p.failed ≡ true) × (p.buffer ≡ []))
on_bytes_received_ends_example = on_bytes_received_ends front decoder refl not_empty
