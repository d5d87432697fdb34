-- ===== src/Media/Avc/Laws.antt =====
-- A configuration record that is written and parsed back, and the conversion of a sample
-- (src/media/h264/avc.cpp).
use rtmp_core.Base.{
  ℕ, ◌+◌, ◌-◌, ◌%◌, ◌≤◌, ◌<◌, ◌≡◌, refl, sym, ap, ◌∙◌, Bool, true, false, not, ◌||◌, List, [], ◌∷◌,
  ◌++◌, All, arith, length, ltb, if◌then◌else◌,
}
use rtmp_core.Core.Result.{err, ok}
use rtmp_core.Core.ByteOrder.{byte_at}
use rtmp_core.Media.Nals.{malformed, append_nals}
use rtmp_core.Media.Nals.Laws.{write_nals, Short, read_nals-write_nals}
use rtmp_core.Media.Annexb.Laws.{
  write_sample, kept, byte_stream, only, kept-only, append_nals-byte_stream, byte_stream-append,
  UnitOf, convert_nals-write_sample, convert_nals-cut,
}
use rtmp_core.Media.Avc.{
  AvcDecoderConfig, valid, parse_pps, parse_decoder_config, is_skipped, access_unit_delimiter,
  avcc_to_annexb,
}

-- AVCDecoderConfigurationRecord (ISO 14496-15), with what a reader may find in the fields that it skips.
abbrev pub write_config : ℕ → ℕ → ℕ → ℕ → AvcDecoderConfig → List ℕ → List ℕ
write_config version profile compatibility level config trailer =
    version
    ∷ profile
    ∷ compatibility
    ∷ level
    ∷ (0xFC + (config.nalu_length_size - 1))
    ∷ (0xE0 + length config.sps)
    ∷ (write_nals config.sps ++ (length config.pps ∷ (write_nals config.pps ++ trailer)))

pub record Storable (config : AvcDecoderConfig) : Type 0 where
  pub low : 1 ≤ config.nalu_length_size
  pub high : config.nalu_length_size ≤ 4
  pub some_sps : 1 ≤ length config.sps
  pub few_sps : length config.sps < 32
  pub some_pps : 1 ≤ length config.pps
  pub short_sps : All Short config.sps
  pub short_pps : All Short config.pps

-- For a configuration that a record can hold, what is written is parsed back, whatever the version,
-- profile and level are and whatever follows the record.
pub parse_decoder_config-write_config :
    (version profile compatibility level : ℕ) (config : AvcDecoderConfig) (trailer : List ℕ)
    → Storable config
    → parse_decoder_config (write_config version profile compatibility level config trailer)
      ≡ ok config
unfolding parse_decoder_config parse_pps
parse_decoder_config-write_config version profile compatibility level config trailer s =
    let behind = length config.pps ∷ (write_nals config.pps ++ trailer) in
    let low = s.low in
    let high = s.high in
    let few = s.few_sps in
    let some_sps = s.some_sps in
    let some_pps = s.some_pps in
    let width : (0xFC + (config.nalu_length_size - 1)) % 4 + 1 ≡ config.nalu_length_size =
      omega arith in
    let count : (0xE0 + length config.sps) % 32 ≡ length config.sps = omega arith in
    let fine : valid config ≡ true = ground arith in
    let room : ltb (length (write_config version profile compatibility level config trailer)) 6
        ≡ false =
      ground arith in
    let more : ltb 0 (length behind) ≡ true = ground arith in
    rw
      (
        room,
        width,
        count,
        read_nals-write_nals config.sps behind s.short_sps,
        more,
        read_nals-write_nals config.pps trailer s.short_pps,
        fine,
      )
      refl

-- Which types of unit stay (ITU-T H.264, table 7-1: 7 and 8 are the parameter sets, 9 the delimiter).
abbrev pub stays : Bool → List ℕ → Bool
stays own_sets nal =
    let nal_type = byte_at nal 0 % 32 in
    if own_sets then ltb nal_type 7 || ltb 9 nal_type else ltb nal_type 9 || ltb 9 nal_type

is_skipped-stays :
    (own_sets : Bool) (nal : List ℕ) → is_skipped own_sets nal ≡ not (stays own_sets nal)
is_skipped-stays true nal = ground arith
is_skipped-stays false nal = ground arith

abbrev pub sets_of : Bool → AvcDecoderConfig → List (List ℕ)
sets_of insert_parameter_sets config =
    if insert_parameter_sets then config.sps ++ config.pps else []

sets_of-stream :
    (insert_parameter_sets : Bool) (config : AvcDecoderConfig)
    → (if insert_parameter_sets then append_nals config.sps ++ append_nals config.pps else [])
      ≡ byte_stream (sets_of insert_parameter_sets config)
sets_of-stream false config = refl
sets_of-stream true config =
    rw (append_nals-byte_stream config.sps, append_nals-byte_stream config.pps)
      (sym (byte_stream-append config.sps config.pps))

-- For a length field of one to four bytes, and a sample of units that are not empty and fit it, the
-- conversion succeeds. It puts out, each behind a start code: a delimiter; the parameter sets of the
-- configuration where they are asked for; and then exactly the units of the sample in their order,
-- less those of type 9 and, where parameter sets were put in, those of the types 7 and 8.
pub avcc_to_annexb-write_sample :
    (config : AvcDecoderConfig) (insert_parameter_sets : Bool) (nals : List (List ℕ))
    → 1 ≤ config.nalu_length_size
    → config.nalu_length_size ≤ 4
    → All (UnitOf config.nalu_length_size) nals
    → avcc_to_annexb (write_sample config.nalu_length_size nals) config insert_parameter_sets ≡ (
      ok tt,
      byte_stream (
          (0x09 ∷ 0xF0 ∷ [])
          ∷ (sets_of insert_parameter_sets config ++ only (stays insert_parameter_sets) nals)),
    )
unfolding avcc_to_annexb
avcc_to_annexb-write_sample config insert_parameter_sets nals low high all =
    let width = config.nalu_length_size in
    let skip = is_skipped insert_parameter_sets in
    let sets = sets_of insert_parameter_sets config in
    let units = only (stays insert_parameter_sets) nals in
    let allowed : (ltb width 1 || ltb 4 width) ≡ false = ground arith in
    let chosen =
      kept-only skip (stays insert_parameter_sets) (is_skipped-stays insert_parameter_sets) nals in
    let bytes : (access_unit_delimiter ++ byte_stream sets) ++ append_nals units
        ≡ byte_stream ((0x09 ∷ 0xF0 ∷ []) ∷ (sets ++ units)) =
      rw (append_nals-byte_stream units, byte_stream-append sets units) refl in
    rw (allowed, sets_of-stream insert_parameter_sets config)
      (convert_nals-write_sample skip width low high nals _ all
        ∙ ap (λ us. (ok tt, (access_unit_delimiter ++ byte_stream sets) ++ append_nals us)) chosen
        ∙ ap (λ bs. (ok tt, bs)) bytes)

-- A sample that ends inside a length field behind such units is refused as malformed; what was put
-- out for the units before the cut stays put out.
pub avcc_to_annexb-cut :
    (config : AvcDecoderConfig) (insert_parameter_sets : Bool) (nals : List (List ℕ))
    (rest : List ℕ)
    → 1 ≤ config.nalu_length_size
    → config.nalu_length_size ≤ 4
    → All (UnitOf config.nalu_length_size) nals
    → 1 ≤ length rest
    → length rest < config.nalu_length_size
    → avcc_to_annexb
        (write_sample config.nalu_length_size nals ++ rest)
        config
        insert_parameter_sets
      ≡ (
        err malformed,
        (access_unit_delimiter
              ++ (if insert_parameter_sets
                  then append_nals config.sps ++ append_nals config.pps
                  else []))
            ++ append_nals (kept (is_skipped insert_parameter_sets) nals),
      )
unfolding avcc_to_annexb
avcc_to_annexb-cut config insert_parameter_sets nals rest low high all some_bytes short =
    let width = config.nalu_length_size in
    let allowed : (ltb width 1 || ltb 4 width) ≡ false = ground arith in
    rw allowed (
      convert_nals-cut (is_skipped insert_parameter_sets) width low high nals rest _ all some_bytes
        short)
