-- ===== src/Media/Tests.antt =====
-- Configuration records, samples and messages at concrete bytes (src/media, src/protocol/media).
use rtmp_core.Base.{ℕ, ◌≡◌, refl, List, [], ◌∷◌, ◌++◌, ◌+◌, ◌*◌, ◌%◌, ◌^◌, arith, true, false}
use rtmp_core.Core.Result.{ok, err}
use rtmp_core.Chunk.{RtmpMessage}
use rtmp_core.Media.Nals.{malformed, append_nals}
use rtmp_core.Media.Annexb.Laws.{write_sample, byte_stream}
use rtmp_core.Media.Avc
use rtmp_core.Media.Avc.Laws as AvcLaws
use rtmp_core.Media.Hevc
use rtmp_core.Media.Hevc.Laws as HevcLaws
use rtmp_core.Media.Ingest.{new_state, state_for}
use rtmp_core.Media.Ingest.Accounting.{
  Message, audio, video, metadata, Accounts, handle, handle-Accounts, ingest_all, errors, rejected,
  ingest_all-counts,
}

abbrev sps : List ℕ
sps = 0x67 ∷ 0x64 ∷ 0 ∷ []

abbrev pps : List ℕ
pps = 0x68 ∷ 0xEB ∷ []

abbrev config : Avc.AvcDecoderConfig
config = record { nalu_length_size = 4; sps = sps ∷ []; pps = pps ∷ [] }

config-Storable : AvcLaws.Storable config
config-Storable = record {
  low = omega arith;
  high = omega arith;
  some_sps = omega arith;
  few_sps = omega arith;
  some_pps = omega arith;
  short_sps = (omega arith, tt);
  short_pps = (omega arith, tt);
}

parse_decoder_config-write_config_example :
    Avc.parse_decoder_config (AvcLaws.write_config 1 0x64 0 31 config (9 ∷ [])) ≡ ok config
parse_decoder_config-write_config_example =
    AvcLaws.parse_decoder_config-write_config 1 0x64 0 31 config (9 ∷ []) config-Storable

-- A delimiter and a slice.
abbrev slice : List ℕ
slice = 0x65 ∷ 0x88 ∷ 0x84 ∷ []

abbrev units : List (List ℕ)
units = (0x09 ∷ 0xF0 ∷ []) ∷ slice ∷ []

-- With a sequence parameter set of its own, which the one of the configuration replaces.
abbrev own_sets : List (List ℕ)
own_sets = (0x67 ∷ 0x42 ∷ []) ∷ slice ∷ []

avcc_to_annexb-write_sample_example :
    Avc.avcc_to_annexb (write_sample 4 own_sets) config true
    ≡ (ok tt, byte_stream ((0x09 ∷ 0xF0 ∷ []) ∷ sps ∷ pps ∷ slice ∷ []))
avcc_to_annexb-write_sample_example =
    AvcLaws.avcc_to_annexb-write_sample config true own_sets (omega arith) (omega arith)
      ((omega arith, omega arith), ((omega arith, omega arith), tt))

avcc_to_annexb-cut_example :
    Avc.avcc_to_annexb (write_sample 4 units ++ (0 ∷ 0 ∷ [])) config false
    ≡ (err malformed, (Avc.access_unit_delimiter ++ []) ++ append_nals (slice ∷ []))
avcc_to_annexb-cut_example =
    AvcLaws.avcc_to_annexb-cut config false units (0 ∷ 0 ∷ []) (omega arith) (omega arith)
      ((omega arith, omega arith), ((omega arith, omega arith), tt)) (omega arith) (omega arith)

abbrev fields : List ℕ
fields =
    1 ∷ 1 ∷ 0x60 ∷ 0 ∷ 0 ∷ 0 ∷ 0x90 ∷ 0 ∷ 0 ∷ 0 ∷ 0 ∷ 0 ∷ 93 ∷ 0xF0 ∷ 0 ∷ 0xFC ∷ 0xFD ∷ 0xF8 ∷ 0xF8
    ∷ 0 ∷ 0 ∷ []

-- One unit of each of the three types, and one of type 39, which is left out.
abbrev arrays : List HevcLaws.NalArray
arrays =
    record { nal_unit_type = 32; nals = (0x40 ∷ 1 ∷ []) ∷ [] }
    ∷ record { nal_unit_type = 39; nals = (0x4E ∷ 1 ∷ []) ∷ [] }
    ∷ record { nal_unit_type = 33; nals = (0x42 ∷ 1 ∷ []) ∷ [] }
    ∷ record { nal_unit_type = 34; nals = (0x44 ∷ 1 ∷ []) ∷ [] }
    ∷ []

abbrev hevc_config : Hevc.HevcDecoderConfig
hevc_config = record {
  nalu_length_size = 4;
  vps = (0x40 ∷ 1 ∷ []) ∷ [];
  sps = (0x42 ∷ 1 ∷ []) ∷ [];
  pps = (0x44 ∷ 1 ∷ []) ∷ [];
}

parse_decoder_config-write_record_example :
    Hevc.parse_decoder_config (HevcLaws.write_record fields 4 arrays) ≡ ok hevc_config
parse_decoder_config-write_record_example =
    HevcLaws.parse_decoder_config-write_record fields 4 arrays refl (omega arith) (omega arith)
      (
        (omega arith, omega arith, (omega arith, tt)),
        (
          (omega arith, omega arith, (omega arith, tt)),
          (
            (omega arith, omega arith, (omega arith, tt)),
            ((omega arith, omega arith, (omega arith, tt)), tt),
          ),
        ),
      )
      (omega arith) (omega arith)

abbrev hevc_units : List (List ℕ)
hevc_units = (0x42 ∷ 1 ∷ 0x50 ∷ []) ∷ (0x26 ∷ 1 ∷ 0xAF ∷ []) ∷ []

hvcc_to_annexb-write_sample_example :
    Hevc.hvcc_to_annexb (write_sample 4 hevc_units) hevc_config true
    ≡ (ok tt, byte_stream (HevcLaws.sets_of true hevc_config ++ ((0x26 ∷ 1 ∷ 0xAF ∷ []) ∷ [])))
hvcc_to_annexb-write_sample_example =
    HevcLaws.hvcc_to_annexb-write_sample hevc_config true hevc_units (omega arith) (omega arith)
      ((omega arith, omega arith), ((omega arith, omega arith), tt))

abbrev message : List ℕ → RtmpMessage
message payload = record {
  chunk_stream_id = 6;
  message_stream_id = 1;
  message_type_id = 9;
  timestamp = 40;
  payload = payload;
}

abbrev header_message : RtmpMessage
header_message = message ((1 * 16 + 7) ∷ 0 ∷ 0 ∷ 0 ∷ 0 ∷ AvcLaws.write_config 1 0x64 0 31 config [])

-- An AAC header that is cut off.
abbrev bad_audio : RtmpMessage
bad_audio = message (0xAF ∷ 0 ∷ 0x12 ∷ [])

handle-Accounts_example : Accounts new_state (handle (audio bad_audio) new_state)
handle-Accounts_example = handle-Accounts (audio bad_audio) new_state

abbrev messages : List (List ℕ × Message)
messages =
    (107 ∷ [], video header_message)
    ∷ (107 ∷ [], audio bad_audio)
    ∷ (108 ∷ [], metadata (message []))
    ∷ []

ingest_all-counts_example :
    let (rs, last) = ingest_all messages [] in
    rejected (state_for (107 ∷ []) last) ≡ errors (107 ∷ []) rs % 2 ^ 64
ingest_all-counts_example = ingest_all-counts (107 ∷ []) messages
