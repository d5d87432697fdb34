-- ===== src/Media/Ts/Stream.antt =====
-- What the demuxer gets back from the bytes of the muxer (src/media/ts/ts_muxer.cpp,
-- src/media/ts/ts_demuxer.cpp).
use rtmp_core.Base.{
  ℕ, zero, suc, ◌+◌, ◌%◌, ◌^◌, ◌≤◌, ◌<◌, ◌≡◌, refl, sym, ap, ◌∙◌, Bool, true, false, List, [], ◌∷◌,
  ◌++◌, arith, length, length-append, take, drop, take_length-append, drop_length-append, ltb, ◌==◌,
}
use rtmp_core.Core.ByteOrder.{byte_at}
use rtmp_core.Media.Ts.Demux.{feed_packets}
use rtmp_core.Media.Ts.Packets.{payloads, Packets, payloads-pes_packets, pes_packets-Packets}
use rtmp_core.Media.Ts.{
  packet_size, sync_byte, Marks, joined, next_cc, later, payload_bytes, pes_packets,
  write_pes_packets,
}

feed_packets-one :
    (fuel : ℕ) (p rest : List ℕ)
    → length p ≡ packet_size
    → byte_at p 0 ≡ sync_byte
    → feed_packets (suc fuel) (p ++ rest) ≡ p ∷ feed_packets fuel rest
unfolding feed_packets
feed_packets-one fuel [] rest size sync = absurd (omega arith)
feed_packets-one fuel (b ∷ bs) rest size sync =
    let bytes = (b ∷ bs) ++ rest in
    let enough : ltb (length bytes) packet_size ≡ false =
      ground (arith, length-append (b ∷ bs) rest) in
    let here : take packet_size bytes ≡ b ∷ bs =
      ap (λ n. take n bytes) (sym size) ∙ take_length-append (b ∷ bs) rest in
    let behind : drop packet_size bytes ≡ rest =
      ap (λ n. drop n bytes) (sym size) ∙ drop_length-append (b ∷ bs) rest in
    let aligned : (b == sync_byte) ≡ true = ground arith in rw (aligned, enough, here, behind) refl

pub feed_packets-joined :
    (ps : List (List ℕ)) (fuel pid count : ℕ)
    → Packets pid count ps
    → length (joined ps) ≤ fuel
    → feed_packets fuel (joined ps) ≡ ps
unfolding feed_packets
feed_packets-joined [] zero pid count all enough = refl
feed_packets-joined [] (suc fuel) pid count all enough = refl
feed_packets-joined (p ∷ ps) zero pid count (size, sync, on_pid, counted, all) enough =
    absurd (omega (arith, length-append p (joined ps)))
feed_packets-joined (p ∷ ps) (suc fuel) pid count (size, sync, on_pid, counted, all) enough =
    feed_packets-one fuel p (joined ps) size sync
    ∙ ap (◌∷◌ p) (
        feed_packets-joined ps fuel pid (next_cc count) all
          (omega (arith, enough, length-append p (joined ps))))

pes_packets-count :
    (fuel pid count : ℕ) (k : Marks) (rest : List ℕ)
    → count < 16
    → (pes_packets fuel pid count k rest).1
      ≡ (count + length (pes_packets fuel pid count k rest).0) % 16
unfolding pes_packets
pes_packets-count zero pid count k rest low = omega arith
pes_packets-count (suc fuel) pid count k [] low = omega arith
pes_packets-count (suc fuel) pid count k (b ∷ bs) low =
    let left = drop (payload_bytes k (length (b ∷ bs))) (b ∷ bs) in
    let behind = pes_packets-count fuel pid (next_cc count) (later k) left (omega arith) in
    omega arith

-- The demuxer cuts what write_pes_packets appends into packets of 188 bytes, each with the sync
-- byte, the packet identifier and the next continuity counter, and their payloads in order are the
-- payload that was written. The counter that is kept is the one after the last packet. The packet
-- identifier has 13 bits, and the counter 4.
pub feed_packets-write_pes_packets :
    (pid count pcr_90k : ℕ) (payload : List ℕ) (with_pcr random_access : Bool)
    → pid < 2 ^ 13
    → count < 16
    → let out = write_pes_packets pid count payload with_pcr pcr_90k random_access in
      let packets = feed_packets (length out.0) out.0 in
      (payloads packets ≡ payload)
      × Packets pid count packets
      × (out.1 ≡ (count + length packets) % 16)
unfolding write_pes_packets
feed_packets-write_pes_packets pid count pcr_90k payload with_pcr random_access small low =
    let k : Marks = record {
      first = true;
      with_pcr = with_pcr;
      pcr_90k = pcr_90k;
      random_access = random_access;
    } in
    let n = length payload in
    let out = pes_packets n pid count k payload in
    let all = pes_packets-Packets n pid count k payload small low in
    let cut : feed_packets (length (joined out.0)) (joined out.0) ≡ out.0 =
      feed_packets-joined out.0 (length (joined out.0)) pid count all (omega arith) in
    rw cut (
      payloads-pes_packets n pid count k payload (omega arith),
      all,
      pes_packets-count n pid count k payload low,
    )
