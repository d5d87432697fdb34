-- ===== src/Core/ByteReader/Tests.antt =====
-- The cursor at concrete bytes (byte_reader.hpp).
use rtmp_core.Base.{◌≡◌, refl, none, some, [], ◌∷◌, arith}
use rtmp_core.Core.ByteOrder.{read_u16_be}
use rtmp_core.Core.ByteReader.{ByteReader, advanced, next_u16_be}
use rtmp_core.Core.ByteReader.Pieces.{read_pieces, read_pieces-cut, cut}

abbrev reader : ByteReader
reader = record { data_ = 9 ∷ 1 ∷ 2 ∷ 3 ∷ []; position = 1 }

read : next_u16_be reader ≡ (some 258, advanced 2 reader)
unfolding next_u16_be read_u16_be
read = refl

short : next_u16_be (advanced 2 reader) ≡ (none, advanced 2 reader)
unfolding next_u16_be
short = refl

read_pieces-cut_example :
    read_pieces (1 ∷ 2 ∷ []) reader ≡ (cut (1 ∷ 2 ∷ []) (1 ∷ 2 ∷ 3 ∷ []), advanced 3 reader)
read_pieces-cut_example = read_pieces-cut (1 ∷ 2 ∷ []) reader (omega arith)
