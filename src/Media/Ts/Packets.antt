-- ===== src/Media/Ts/Packets.antt =====
-- The packets that carry an access unit (src/media/ts/ts_muxer.cpp, write_pes_packets), and what
-- process_packet of src/media/ts/ts_demuxer.cpp takes for the payload of one.
use rtmp_core.Base.{
  ℕ, zero, suc, ◌+◌, ◌-◌, ◌*◌, ◌/◌, ◌%◌, ◌^◌, ◌≤◌, ◌<◌, ◌≡◌, ◌⊎◌, refl, ap, ◌∙◌, inl, inr, Bool,
  true, false, List, [], ◌∷◌, ◌++◌, append-nil, arith, length, length-append, length-take,
  length-drop, take-append-drop, take, drop, drop_length-append, ltb, leb, if◌then◌else◌,
}
use rtmp_core.Core.ByteOrder.{byte_at}
use rtmp_core.Media.Ts.Demux.{packet_payload}
use rtmp_core.Media.Ts.{
  Marks, packet_size, sync_byte, wanted, adaptation_length, stuffing, adaptation_field,
  payload_bytes, pes_packet, pes_packets, next_cc, later, fill, clock_field, packet_header,
}

length-fill : (n : ℕ) → length (fill n) ≡ n
length-fill zero = refl
length-fill (suc n) = ap suc (length-fill n)

-- Either there is none of it, or its own parts fill it.
abbrev Holds : Marks → Type 0
Holds k = ((wanted k ≡ 0) × (clock_field k ≡ [])) ⊎ (wanted k ≡ 2 + length (clock_field k))

wanted-Holds_of :
    (first with_pcr random_access : Bool) (c : ℕ)
    → Holds
        (record { first = first; with_pcr = with_pcr; pcr_90k = c; random_access = random_access })
unfolding wanted clock_field
wanted-Holds_of true true random_access c = inr refl
wanted-Holds_of true false true c = inr refl
wanted-Holds_of true false false c = inl (refl, refl)
wanted-Holds_of false with_pcr random_access c = inl (refl, refl)

wanted-Holds : (k : Marks) → Holds k
wanted-Holds k = wanted-Holds_of k.first k.with_pcr k.random_access k.pcr_90k

wanted-Small : (k : Marks) → wanted k ≤ 8
unfolding wanted
wanted-Small k = ground arith

module _ (k : Marks) (r : ℕ) (some_left : 1 ≤ r) where
  pub payload_bytes-Fills : adaptation_length k r + payload_bytes k r ≡ 184
  unfolding adaptation_length
  payload_bytes-Fills = let small = wanted-Small k in ground arith

  pub payload_bytes-Some : 1 ≤ payload_bytes k r
  unfolding adaptation_length
  payload_bytes-Some = let small = wanted-Small k in ground arith

  pub length-adaptation_field : length (adaptation_field k r) ≡ adaptation_length k r
  unfolding adaptation_field adaptation_length stuffing
  length-adaptation_field =
      let size = length-append (clock_field k) (fill (stuffing k r)) in
      let filled = length-fill (stuffing k r) in
      let small = wanted-Small k in
      elim (wanted-Holds k) [
        | inl (e, e') ↦ rw (e, e') (ground (arith, length-fill (184 - r - 2)))
        | inr e ↦ ground (arith, size, filled)
      ]

adaptation_field-head :
    (k : Marks) (r : ℕ) → byte_at (adaptation_field k r) 0 ≡ adaptation_length k r - 1
unfolding adaptation_field
adaptation_field-head k r = ground arith

-- The field tells its own length, and the control bits tell whether there is one.
packet_payload-parts :
    (b0 b1 b2 b3 : ℕ) (field body : List ℕ)
    → b3 / 2 ^ 4 % 4 ≡ (if ltb 0 (length field) then 3 else 1)
    → byte_at field 0 ≡ length field - 1
    → 1 ≤ length body
    → packet_payload (b0 ∷ b1 ∷ b2 ∷ b3 ∷ (field ++ body)) ≡ body
unfolding packet_payload
packet_payload-parts b0 b1 b2 b3 [] [] control head some = absurd (omega arith)
packet_payload-parts b0 b1 b2 b3 [] (b ∷ body) control head some =
    let inside : leb (length (b0 ∷ b1 ∷ b2 ∷ b3 ∷ b ∷ body)) 4 ≡ false = ground arith in
    rw (control, inside) refl
packet_payload-parts b0 b1 b2 b3 (n ∷ field) body control head some =
    let n_is : n ≡ length field = omega arith in
    let packet = b0 ∷ b1 ∷ b2 ∷ b3 ∷ ((n ∷ field) ++ body) in
    let there : b3 / 2 ^ 4 % 4 ≡ 3 = ground arith in
    let inside : leb (length packet) (5 + n) ≡ false = ground (arith, length-append field body) in
    let five : 5 + n ≡ suc (suc (suc (suc (suc (length field))))) = omega arith in
    rw (there, inside) (ap (λ i. drop i packet) five ∙ drop_length-append field body)

module _ (pid count : ℕ) (k : Marks) (rest : List ℕ) (some_left : 1 ≤ length rest) where
  payload : List ℕ
  payload = take (payload_bytes k (length rest)) rest

  length-payload : length payload ≡ payload_bytes k (length rest)
  unfolding payload
  length-payload =
      length-take (payload_bytes k (length rest)) rest
      ∙ ground (arith, payload_bytes-Fills k (length rest) some_left)

  filled : List ℕ
  filled =
      packet_header k.first pid (ltb 0 (adaptation_length k (length rest))) count
      ++ (adaptation_field k (length rest) ++ payload)

  length-filled : length filled ≡ packet_size
  unfolding filled
  length-filled =
      let r = length rest in
      omega (
        arith,
        length-append (adaptation_field k r) payload,
        length-adaptation_field k r some_left,
        length-payload,
        payload_bytes-Fills k r some_left,
      )

  -- The loop that pads a packet has nothing to do.
  pes_packet-filled : pes_packet pid count k rest ≡ filled
  unfolding pes_packet filled payload
  pes_packet-filled = ap (λ n. filled ++ fill (packet_size - n)) length-filled ∙ append-nil filled

  pub length-pes_packet : length (pes_packet pid count k rest) ≡ packet_size
  length-pes_packet = ap length pes_packet-filled ∙ length-filled

  pub pes_packet-sync : byte_at (pes_packet pid count k rest) 0 ≡ sync_byte
  unfolding filled
  pes_packet-sync = ap (λ p. byte_at p 0) pes_packet-filled

  pub pes_packet-pid :
      pid < 2 ^ 13
      → byte_at (pes_packet pid count k rest) 1 % 32 * 2 ^ 8
          + byte_at (pes_packet pid count k rest) 2
        ≡ pid
  unfolding filled
  pes_packet-pid small =
      ap (λ p. byte_at p 1 % 32 * 2 ^ 8 + byte_at p 2) pes_packet-filled ∙ ground arith

  pub pes_packet-count : count < 16 → byte_at (pes_packet pid count k rest) 3 % 16 ≡ count
  unfolding filled
  pes_packet-count small = ap (λ p. byte_at p 3 % 16) pes_packet-filled ∙ ground arith

  pub pes_packet-start :
      byte_at (pes_packet pid count k rest) 1 / 2 ^ 6 % 2 ≡ (if k.first then 1 else 0)
  unfolding filled
  pes_packet-start = ap (λ p. byte_at p 1 / 2 ^ 6 % 2) pes_packet-filled ∙ ground arith

  packet_payload-filled : packet_payload filled ≡ payload
  unfolding filled
  packet_payload-filled =
      let r = length rest in
      let size = length-adaptation_field k r some_left in
      packet_payload-parts sync_byte ((if k.first then 0x40 else 0) + pid / 2 ^ 8 % 32) (pid % 256)
        ((if ltb 0 (adaptation_length k r) then 0x30 else 0x10) + count % 16) (adaptation_field k r)
        payload (ground (arith, size)) (omega (arith, size, adaptation_field-head k r))
        (omega (arith, length-payload, payload_bytes-Some k r some_left))

  pub packet_payload-pes_packet :
      packet_payload (pes_packet pid count k rest) ≡ take (payload_bytes k (length rest)) rest
  unfolding payload
  packet_payload-pes_packet = ap packet_payload pes_packet-filled ∙ packet_payload-filled

-- The payloads of the packets, in order.
abbrev pub payloads : List (List ℕ) → List ℕ
payloads [] = []
payloads (p ∷ ps) = packet_payload p ++ payloads ps

-- A packet of 188 bytes that starts with the sync byte, on the stream, with the next count.
abbrev pub Packets : ℕ → ℕ → List (List ℕ) → Type 0
Packets pid count [] = Unit
Packets pid count (p ∷ ps) =
    (length p ≡ packet_size)
    × (byte_at p 0 ≡ sync_byte)
    × (byte_at p 1 % 32 * 2 ^ 8 + byte_at p 2 ≡ pid)
    × (byte_at p 3 % 16 ≡ count)
    × Packets pid (next_cc count) ps

pub payloads-pes_packets :
    (fuel pid count : ℕ) (k : Marks) (rest : List ℕ)
    → length rest ≤ fuel
    → payloads (pes_packets fuel pid count k rest).0 ≡ rest
unfolding pes_packets
payloads-pes_packets zero pid count k [] enough = refl
payloads-pes_packets zero pid count k (b ∷ bs) enough = absurd (omega arith)
payloads-pes_packets (suc fuel) pid count k [] enough = refl
payloads-pes_packets (suc fuel) pid count k (b ∷ bs) enough =
    let rest = b ∷ bs in
    let n = payload_bytes k (length rest) in
    let some_left : 1 ≤ length rest = omega arith in
    let smaller : length (drop n rest) ≤ fuel =
      omega (arith, enough, payload_bytes-Some k (length rest) some_left, length-drop n rest) in
    ap (λ xs. xs ++ payloads (pes_packets fuel pid (next_cc count) (later k) (drop n rest)).0)
      (packet_payload-pes_packet pid count k rest some_left)
    ∙ ap (◌++◌ (take n rest))
        (payloads-pes_packets fuel pid (next_cc count) (later k) (drop n rest) smaller)
    ∙ take-append-drop n rest

pub pes_packets-Packets :
    (fuel pid count : ℕ) (k : Marks) (rest : List ℕ)
    → pid < 2 ^ 13
    → count < 16
    → Packets pid count (pes_packets fuel pid count k rest).0
unfolding pes_packets
pes_packets-Packets zero pid count k rest small low = tt
pes_packets-Packets (suc fuel) pid count k [] small low = tt
pes_packets-Packets (suc fuel) pid count k (b ∷ bs) small low =
    let rest = b ∷ bs in
    let some_left : 1 ≤ length rest = omega arith in
    (
      length-pes_packet pid count k rest some_left,
      pes_packet-sync pid count k rest some_left,
      pes_packet-pid pid count k rest some_left small,
      pes_packet-count pid count k rest some_left low,
      pes_packets-Packets fuel pid (next_cc count) (later k)
          (drop (payload_bytes k (length rest)) rest) small (omega arith),
    )
