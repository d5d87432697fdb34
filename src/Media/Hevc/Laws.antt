-- ===== src/Media/Hevc/Laws.antt =====
-- A configuration record that is written and parsed back (src/media/hevc/hevc.cpp).
use rtmp_core.Base.{
  ℕ, ◌+◌, ◌-◌, ◌%◌, ◌^◌, ◌≤◌, ◌<◌, ◌≡◌, refl, sym, ap, ◌∙◌, Bool, true, false, not, ◌/◌, ◌||◌, List,
  [], ◌∷◌, ◌++◌, append_assoc, append-nil, All, arith, length, length-append, drop, drop-drop,
  drop_length-append, ltb, ◌==◌, if◌then◌else◌,
}
use rtmp_core.Core.Result.{ok}
use rtmp_core.Core.ByteOrder.{byte_at, read_u16_be, write_u16_be, read-write_u16_be}
use rtmp_core.Core.ByteOrder.Skip.{read_u16_be-skip, byte_at-skip}
use rtmp_core.Media.Nals.{append_nals}
use rtmp_core.Media.Nals.Laws.{write_nals, Short, read_nals-write_nals}
use rtmp_core.Media.Annexb.Laws.{
  write_sample, byte_stream, only, kept-only, append_nals-byte_stream, byte_stream-append, UnitOf,
  convert_nals-write_sample,
}
use rtmp_core.Media.Hevc.{
  HevcDecoderConfig, valid, add_array, read_arrays, new_config, parse_decoder_config, is_skipped,
  hvcc_to_annexb, nal_type_vps, nal_type_sps, nal_type_pps,
}

-- An array of the record: the type of its units, and the units.
pub record NalArray : Type 0 where
  pub nal_unit_type : ℕ
  pub nals : List (List ℕ)

abbrev pub write_arrays : List NalArray → List ℕ
write_arrays [] = []
write_arrays (a ∷ rest) =
    a.nal_unit_type ∷ (write_u16_be (length a.nals) ++ (write_nals a.nals ++ write_arrays rest))

-- The units of one type, array after array.
abbrev pub units_of : ℕ → List NalArray → List (List ℕ)
units_of t [] = []
units_of t (a ∷ rest) = if a.nal_unit_type == t then a.nals ++ units_of t rest else units_of t rest

abbrev pub Storable : NalArray → Type 0
Storable a = (a.nal_unit_type < 64) × (length a.nals < 2 ^ 16) × All Short a.nals

-- What the arrays add.
abbrev pub added : HevcDecoderConfig → List NalArray → HevcDecoderConfig
added config arrays = record config {
  vps = config.vps ++ units_of nal_type_vps arrays;
  sps = config.sps ++ units_of nal_type_sps arrays;
  pps = config.pps ++ units_of nal_type_pps arrays;
}

added-array :
    (a : NalArray) (rest : List NalArray) (config : HevcDecoderConfig)
    → added (add_array a.nal_unit_type a.nals config) rest ≡ added config (a ∷ rest)
unfolding add_array
added-array a rest config = ground (
  arith,
  append_assoc config.vps a.nals (units_of nal_type_vps rest),
  append_assoc config.sps a.nals (units_of nal_type_sps rest),
  append_assoc config.pps a.nals (units_of nal_type_pps rest),
)

read_arrays-write_arrays :
    (arrays : List NalArray) (config : HevcDecoderConfig)
    → All Storable arrays
    → read_arrays (length arrays) (write_arrays arrays) config ≡ ok (added config arrays)
unfolding read_arrays write_u16_be
read_arrays-write_arrays [] config all =
    rw (append-nil config.vps, append-nil config.sps, append-nil config.pps) refl
read_arrays-write_arrays (a ∷ rest) config ((small, few, short), all) =
    let behind = write_nals a.nals ++ write_arrays rest in
    let n = length a.nals in
    let xs = write_arrays (a ∷ rest) in
    let room : ltb (length xs) 3 ≡ false = ground arith in
    let type_id : a.nal_unit_type % 64 ≡ a.nal_unit_type = omega arith in
    let count : read_u16_be xs 1 ≡ n =
      read_u16_be-skip (a.nal_unit_type ∷ []) (write_u16_be n ++ behind) 1 0 refl
      ∙ read-write_u16_be n behind few in
    rw (room, type_id, count, read_nals-write_nals a.nals (write_arrays rest) short)
      (read_arrays-write_arrays rest (add_array a.nal_unit_type a.nals config) all
        ∙ ap ok (added-array a rest config))

-- HEVCDecoderConfigurationRecord (ISO 14496-15), with any 21 bytes in the fields that are not read.
abbrev pub write_record : List ℕ → ℕ → List NalArray → List ℕ
write_record fields nalu_length_size arrays =
    fields ++ ((0xFC + (nalu_length_size - 1)) ∷ (length arrays ∷ write_arrays arrays))

-- A record of fewer than 256 arrays, whose units are of any types but fit their length fields, is
-- parsed to the parameter sets of the three types in their order, whatever the 21 bytes of the other
-- fields are, where there is a sequence and a picture parameter set; units of other types are left out.
pub parse_decoder_config-write_record :
    (fields : List ℕ) (nalu_length_size : ℕ) (arrays : List NalArray)
    → length fields ≡ 21
    → 1 ≤ nalu_length_size
    → nalu_length_size ≤ 4
    → All Storable arrays
    → 1 ≤ length (units_of nal_type_sps arrays)
    → 1 ≤ length (units_of nal_type_pps arrays)
    → parse_decoder_config (write_record fields nalu_length_size arrays)
      ≡ ok (record {
        nalu_length_size = nalu_length_size;
        vps = units_of nal_type_vps arrays;
        sps = units_of nal_type_sps arrays;
        pps = units_of nal_type_pps arrays;
      })
unfolding parse_decoder_config
parse_decoder_config-write_record fields width arrays e low high all some_sps some_pps =
    let tail = (0xFC + (width - 1)) ∷ (length arrays ∷ write_arrays arrays) in
    let xs = fields ++ tail in
    let room : ltb (length xs) 23 ≡ false = ground (arith, length-append fields tail) in
    let sized : byte_at xs 21 % 4 + 1 ≡ width =
      omega (arith, byte_at-skip fields tail 21 0 (omega arith)) in
    let count : byte_at xs 22 ≡ length arrays = byte_at-skip fields tail 22 1 (omega arith) in
    let there : drop 23 xs ≡ write_arrays arrays =
      sym (drop-drop 21 2 xs)
      ∙ ap (drop 2) (ap (λ k. drop k xs) (sym e) ∙ drop_length-append fields tail) in
    let fine : valid (added (new_config width) arrays) ≡ true = ground arith in
    rw (room, sized, count, there, read_arrays-write_arrays arrays (new_config width) all, fine)
      refl

-- Which types of unit stay (ITU-T H.265, table 7-1: 32 to 34 are the parameter sets, 35 the delimiter).
abbrev pub stays : Bool → List ℕ → Bool
stays own_sets nal =
    let nal_type = byte_at nal 0 / 2 % 64 in
    if own_sets then ltb nal_type 32 || ltb 35 nal_type else ltb nal_type 35 || ltb 35 nal_type

is_skipped-stays :
    (own_sets : Bool) (nal : List ℕ) → is_skipped own_sets nal ≡ not (stays own_sets nal)
is_skipped-stays true nal = ground arith
is_skipped-stays false nal = ground arith

abbrev pub sets_of : Bool → HevcDecoderConfig → List (List ℕ)
sets_of insert_parameter_sets config =
    if insert_parameter_sets then config.vps ++ (config.sps ++ config.pps) else []

sets_of-stream :
    (insert_parameter_sets : Bool) (config : HevcDecoderConfig)
    → (if insert_parameter_sets
        then append_nals config.vps ++ (append_nals config.sps ++ append_nals config.pps)
        else [])
      ≡ byte_stream (sets_of insert_parameter_sets config)
sets_of-stream false config = refl
sets_of-stream true config =
    rw
      (
        append_nals-byte_stream config.vps,
        append_nals-byte_stream config.sps,
        append_nals-byte_stream config.pps,
      )
      (ap (◌++◌ (byte_stream config.vps)) (sym (byte_stream-append config.sps config.pps))
        ∙ sym (byte_stream-append config.vps (config.sps ++ config.pps)))

-- For a length field of one to four bytes, and a sample of units that are not empty and fit it, the
-- conversion succeeds. It puts out, each behind a start code: the parameter sets of all three types
-- of the configuration where they are asked for; and then exactly the units of the sample in their
-- order, less those of type 35 and, where parameter sets were put in, those of the types 32 to 34.
pub hvcc_to_annexb-write_sample :
    (config : HevcDecoderConfig) (insert_parameter_sets : Bool) (nals : List (List ℕ))
    → 1 ≤ config.nalu_length_size
    → config.nalu_length_size ≤ 4
    → All (UnitOf config.nalu_length_size) nals
    → hvcc_to_annexb (write_sample config.nalu_length_size nals) config insert_parameter_sets ≡ (
      ok tt,
      byte_stream (sets_of insert_parameter_sets config ++ only (stays insert_parameter_sets) nals),
    )
unfolding hvcc_to_annexb
hvcc_to_annexb-write_sample config insert_parameter_sets nals low high all =
    let width = config.nalu_length_size in
    let skip = is_skipped insert_parameter_sets in
    let sets = sets_of insert_parameter_sets config in
    let units = only (stays insert_parameter_sets) nals in
    let allowed : (ltb width 1 || ltb 4 width) ≡ false = ground arith in
    let chosen =
      kept-only skip (stays insert_parameter_sets) (is_skipped-stays insert_parameter_sets) nals in
    let bytes : byte_stream sets ++ append_nals units ≡ byte_stream (sets ++ units) =
      rw (append_nals-byte_stream units) (sym (byte_stream-append sets units)) in
    rw (allowed, sets_of-stream insert_parameter_sets config)
      (convert_nals-write_sample skip width low high nals _ all
        ∙ ap (λ us. (ok tt, byte_stream sets ++ append_nals us)) chosen
        ∙ ap (λ bs. (ok tt, bs)) bytes)
