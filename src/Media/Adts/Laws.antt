-- ===== src/Media/Adts/Laws.antt =====
-- The fields of the audio configuration and of the ADTS header (src/media/aac/adts.cpp).
use rtmp_core.Base.{
  ℕ, ◌+◌, ◌-◌, ◌*◌, ◌/◌, ◌%◌, ◌^◌, ◌≤◌, ◌<◌, ◌≡◌, ◌⊎◌, inl, inr, refl, ap, ◌∙◌, true, false, List,
  [], ◌∷◌, arith, ltb, leb, ◌==◌, if◌then◌else◌,
}
use rtmp_core.Core.Result.{ok}
use rtmp_core.Media.Adts.{
  AudioSpecificConfig, parse_audio_specific_config, plain, escaped, checked, append_adts_header,
}

-- Five bits of object type, or 31 and six more bits from 32 on; four bits of sampling frequency
-- index; four bits of channels; zeros to the end of the byte.
abbrev pub write_config : AudioSpecificConfig → List ℕ
write_config c =
    let bits =
      (c.object_type - 32) * 2 ^ 13
      + c.sampling_frequency_index * 2 ^ 9
      + c.channel_configuration * 2 ^ 5 in
    if ltb c.object_type 31
    then (c.object_type * 2 ^ 3 + c.sampling_frequency_index / 2)
      ∷ (c.sampling_frequency_index % 2 * 2 ^ 7 + c.channel_configuration * 2 ^ 3)
      ∷ []
    else (31 * 2 ^ 3 + bits / 2 ^ 16) ∷ (bits / 2 ^ 8 % 2 ^ 8) ∷ (bits % 2 ^ 8) ∷ []

-- What the layout can express and the parser knows.
pub record IsConfig (c : AudioSpecificConfig) : Type 0 where
  pub some_type : 1 ≤ c.object_type
  pub no_escape : (c.object_type < 31) ⊎ (32 ≤ c.object_type)
  pub low_type : c.object_type < 96
  pub low_index : c.sampling_frequency_index < 13
  pub low_channels : c.channel_configuration < 16

checked-fine :
    (c : AudioSpecificConfig)
    → 1 ≤ c.object_type
    → c.sampling_frequency_index < 13
    → checked c ≡ ok c
unfolding checked
checked-fine c some low =
    let there : (c.object_type == 0) ≡ false = ground arith in
    let known : leb 13 c.sampling_frequency_index ≡ false = ground arith in rw (there, known) refl

config-ext :
    (a b : AudioSpecificConfig)
    → a.object_type ≡ b.object_type
    → a.sampling_frequency_index ≡ b.sampling_frequency_index
    → a.channel_configuration ≡ b.channel_configuration
    → a ≡ b
config-ext a b t s c =
    ap
      (λ n. record {
        object_type = n;
        sampling_frequency_index = a.sampling_frequency_index;
        channel_configuration = a.channel_configuration;
      })
      t
    ∙ ap
        (λ n. record {
          object_type = b.object_type;
          sampling_frequency_index = n;
          channel_configuration = a.channel_configuration;
        })
        s
    ∙ ap
        (λ n. record {
          object_type = b.object_type;
          sampling_frequency_index = b.sampling_frequency_index;
          channel_configuration = n;
        })
        c

plain-write :
    (c : AudioSpecificConfig) (b0 b1 : ℕ)
    → IsConfig c
    → c.object_type < 31
    → b0 ≡ c.object_type * 2 ^ 3 + c.sampling_frequency_index / 2
    → b1 ≡ c.sampling_frequency_index % 2 * 2 ^ 7 + c.channel_configuration * 2 ^ 3
    → parse_audio_specific_config (b0 ∷ b1 ∷ []) ≡ ok c
unfolding parse_audio_specific_config plain
plain-write c b0 b1 fine low e0 e1 =
    let index = fine.low_index in
    let channels = fine.low_channels in
    let kind : (b0 / 2 ^ 3 % 2 ^ 5 == 31) ≡ false = ground arith in
    let same : plain (b0 ∷ b1 ∷ []) ≡ c =
      config-ext (plain (b0 ∷ b1 ∷ [])) c (omega arith) (omega arith) (omega arith) in
    rw kind (ap checked same ∙ checked-fine c fine.some_type index)

escaped-write :
    (c : AudioSpecificConfig) (b0 b1 b2 bits : ℕ)
    → IsConfig c
    → 32 ≤ c.object_type
    → bits
      ≡ (c.object_type - 32) * 2 ^ 13
        + c.sampling_frequency_index * 2 ^ 9
        + c.channel_configuration * 2 ^ 5
    → b0 ≡ 31 * 2 ^ 3 + bits / 2 ^ 16
    → b1 ≡ bits / 2 ^ 8 % 2 ^ 8
    → b2 ≡ bits % 2 ^ 8
    → parse_audio_specific_config (b0 ∷ b1 ∷ b2 ∷ []) ≡ ok c
unfolding parse_audio_specific_config escaped
escaped-write c b0 b1 b2 bits fine high e e0 e1 e2 =
    let index = fine.low_index in
    let channels = fine.low_channels in
    let low = fine.low_type in
    let kind : (b0 / 2 ^ 3 % 2 ^ 5 == 31) ≡ true = ground arith in
    let same : escaped (b0 ∷ b1 ∷ b2 ∷ []) ≡ c =
      config-ext (escaped (b0 ∷ b1 ∷ b2 ∷ [])) c (omega arith) (omega arith) (omega arith) in
    rw kind (ap checked same ∙ checked-fine c fine.some_type index)

-- A header as a number.
abbrev pub number_from : ℕ → List ℕ → ℕ
number_from n [] = n
number_from n (b ∷ bs) = number_from (n * 2 ^ 8 + b) bs

-- A configuration is read back from its bytes when its object type is from 1 to 95 and not 31, its
-- sampling frequency index is below 13, and its channel configuration is below 16.
pub parse_audio_specific_config-write_config :
    (c : AudioSpecificConfig) → IsConfig c → parse_audio_specific_config (write_config c) ≡ ok c
parse_audio_specific_config-write_config c fine = elim fine.no_escape [
  | inl low ↦
      let plain_type : ltb c.object_type 31 ≡ true = ground arith in
      rw plain_type (
        plain-write c (c.object_type * 2 ^ 3 + c.sampling_frequency_index / 2)
          (c.sampling_frequency_index % 2 * 2 ^ 7 + c.channel_configuration * 2 ^ 3) fine low refl
          refl)
  | inr high ↦
      let long_type : ltb c.object_type 31 ≡ false = ground arith in
      let bits =
        (c.object_type - 32) * 2 ^ 13
        + c.sampling_frequency_index * 2 ^ 9
        + c.channel_configuration * 2 ^ 5 in
      rw long_type (
        escaped-write c (31 * 2 ^ 3 + bits / 2 ^ 16) (bits / 2 ^ 8 % 2 ^ 8) (bits % 2 ^ 8) bits fine
          high refl refl refl refl)
]

-- The header, as a number of 56 bits, has the fields of ADTS in their places: the sync word of 12
-- bits and the mark of a header without check sum, the profile, the sampling frequency index, the
-- channels, the length of the frame with its header, the fullness 0x7FF and the count 0. The index
-- is below 16, the channels below 8, the object type from 1 to 4, and the length fits 13 bits.
pub number_from-append_adts_header :
    (c : AudioSpecificConfig) (n : ℕ)
    → 1 ≤ c.object_type
    → c.object_type ≤ 4
    → c.sampling_frequency_index < 16
    → c.channel_configuration < 8
    → n + 7 < 2 ^ 13
    → number_from 0 (append_adts_header c n)
      ≡ 0xFFF * 2 ^ 44
        + 1 * 2 ^ 40
        + (c.object_type - 1) * 2 ^ 38
        + c.sampling_frequency_index * 2 ^ 34
        + c.channel_configuration * 2 ^ 30
        + (n + 7) * 2 ^ 13
        + 0x7FF * 2 ^ 2
unfolding append_adts_header
number_from-append_adts_header c n some low index channels fits = omega arith
