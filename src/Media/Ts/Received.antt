-- ===== src/Media/Ts/Received.antt =====
-- The access units that go through the muxer and the demuxer (src/media/ts/ts_muxer.cpp,
-- src/media/ts/ts_demuxer.cpp, process_packet to finish_pes).
use rtmp_core.Base.{
  ℕ, zero, suc, ◌+◌, ◌-◌, ◌*◌, ◌/◌, ◌%◌, ◌^◌, ◌≤◌, ◌<◌, ◌≡◌, refl, ap, ◌∙◌, Bool, true, false, List,
  [], ◌∷◌, ◌++◌, append_assoc, append-nil, arith, length, length-append, length-drop, take, drop,
  take-append-drop, ltb, ◌==◌, min, length-take,
}
use rtmp_core.Core.Result.{ok}
use rtmp_core.Core.ByteOrder.{byte_at}
use rtmp_core.Media.Ts.Demux.{
  feed_packets, PesAssembly, Access, Reassembly, begin_pes, finish_pes, process_packet, process_all,
  Opens, video_pes-Opens, audio_pes-Opens, packet_payload,
}
use rtmp_core.Media.Ts.Packets.{
  packet_payload-pes_packet, pes_packet-pid, pes_packet-start, payload_bytes-Some,
  pes_packets-Packets,
}
use rtmp_core.Media.Ts.Stream.{feed_packets-joined}
use rtmp_core.Media.Ts.{
  TsMuxer, Marks, joined, next_cc, later, payload_bytes, adaptation_length, wanted, pes_packet,
  pes_packets, write_pes_packets, video_pes, audio_pes, write_video, write_audio,
}

take_past : (n m : ℕ) (xs ys : List ℕ) → n ≡ length xs + m → take n (xs ++ ys) ≡ xs ++ take m ys
take_past n m [] ys e = ap (λ k. take k ys) (omega (arith, e))
take_past zero m (x ∷ xs) ys e = absurd (omega arith)
take_past (suc n) m (x ∷ xs) ys e = ap (◌∷◌ x) (take_past n m xs ys (omega (arith, e)))

drop_past : (n m : ℕ) (xs ys : List ℕ) → n ≡ length xs + m → drop n (xs ++ ys) ≡ drop m ys
drop_past n m [] ys e = ap (λ k. drop k ys) (omega (arith, e))
drop_past zero m (x ∷ xs) ys e = absurd (omega arith)
drop_past (suc n) m (x ∷ xs) ys e = drop_past n m xs ys (omega (arith, e))

payload_bytes-Enough : (k : Marks) (h r : ℕ) → h ≤ 19 → h ≤ r → h ≤ payload_bytes k r
unfolding adaptation_length wanted
payload_bytes-Enough k h r short enough = ground arith

abbrev holding : List ℕ → ℕ → ℕ → PesAssembly
holding es pts dts = record { «data» = es; pts_90k = pts; dts_90k = dts; has_data = true }

module _ (pid count : ℕ) (k : Marks) (rest : List ℕ) (some_left : 1 ≤ length rest)
    (small : pid < 2 ^ 13) where
  on_stream :
      (byte_at (pes_packet pid count k rest) 1 % 2 ^ 5 * 2 ^ 8
          + byte_at (pes_packet pid count k rest) 2
        == pid)
      ≡ true
  on_stream = let e = pes_packet-pid pid count k rest some_left small in rw e (ground arith)

  some_payload : (length (packet_payload (pes_packet pid count k rest)) == 0) ≡ false
  some_payload =
      let r = length rest in
      let size = length-take (payload_bytes k r) rest in
      let some = payload_bytes-Some k r some_left in
      let there : (min (payload_bytes k r) r == 0) ≡ false = ground arith in
      rw (packet_payload-pes_packet pid count k rest some_left, size, there) refl

  process_packet-start :
      (state : PesAssembly) (given : List Access)
      → k.first ≡ true
      → process_packet pid (pes_packet pid count k rest) (state, given) ≡ (
        begin_pes (finish_pes state).0 (take (payload_bytes k (length rest)) rest),
        given ++ (finish_pes state).1,
      )
  unfolding process_packet
  process_packet-start state given first =
      let starts : (byte_at (pes_packet pid count k rest) 1 / 2 ^ 6 % 2 == 1) ≡ true =
        rw (pes_packet-start pid count k rest some_left, first) refl in
      rw (some_payload, on_stream, starts, packet_payload-pes_packet pid count k rest some_left)
        refl

  process_packet-more :
      (es : List ℕ) (pts dts : ℕ) (given : List Access)
      → k.first ≡ false
      → process_packet pid (pes_packet pid count k rest) (holding es pts dts, given)
        ≡ (holding (es ++ take (payload_bytes k (length rest)) rest) pts dts, given)
  unfolding process_packet
  process_packet-more es pts dts given first =
      let starts : (byte_at (pes_packet pid count k rest) 1 / 2 ^ 6 % 2 == 1) ≡ false =
        rw (pes_packet-start pid count k rest some_left, first) refl in
      rw (some_payload, on_stream, starts, packet_payload-pes_packet pid count k rest some_left)
        refl

-- The packets behind the first only add to the unit.
process_all-more :
    (fuel pid count : ℕ) (k : Marks) (rest es : List ℕ) (pts dts : ℕ) (given : List Access)
    → length rest ≤ fuel
    → pid < 2 ^ 13
    → process_all pid (pes_packets fuel pid count (later k) rest).0 (holding es pts dts, given)
      ≡ (holding (es ++ rest) pts dts, given)
unfolding pes_packets
process_all-more zero pid count k [] es pts dts given enough small = rw (append-nil es) refl
process_all-more zero pid count k (b ∷ bs) es pts dts given enough small = absurd (omega arith)
process_all-more (suc fuel) pid count k [] es pts dts given enough small = rw (append-nil es) refl
process_all-more (suc fuel) pid count k (b ∷ bs) es pts dts given enough small =
    let rest = b ∷ bs in
    let n = payload_bytes (later k) (length rest) in
    let some_left : 1 ≤ length rest = omega arith in
    let smaller : length (drop n rest) ≤ fuel =
      omega
        (arith, enough, payload_bytes-Some (later k) (length rest) some_left, length-drop n rest) in
    ap (process_all pid (pes_packets fuel pid (next_cc count) (later k) (drop n rest)).0)
      (process_packet-more pid count (later k) rest some_left small es pts dts given refl)
    ∙ process_all-more fuel pid (next_cc count) k (drop n rest) (es ++ take n rest) pts dts given
        smaller small
    ∙ ap (λ bs'. (holding bs' pts dts, given))
        (append_assoc es (take n rest) (drop n rest) ∙ ap (◌++◌ es) (take-append-drop n rest))

-- A PES packet is taken in whole.
module _ (pid count pcr_90k : ℕ) (with_pcr random_access : Bool) (small : pid < 2 ^ 13) where
  abbrev marks : Marks
  marks = record {
    first = true;
    with_pcr = with_pcr;
    pcr_90k = pcr_90k;
    random_access = random_access;
  }

  abbrev whole : ℕ → List ℕ → List (List ℕ)
  whole fuel pes = (pes_packets fuel pid count marks pes).0

  process_all-first :
      (fuel : ℕ) (pes : List ℕ) (s : Reassembly)
      → 1 ≤ length pes
      → process_all pid (whole (suc fuel) pes) s
        ≡ process_all pid
            (pes_packets fuel pid
              (next_cc count)
              (later marks)
              (drop (payload_bytes marks (length pes)) pes)).0
            (process_packet pid (pes_packet pid count marks pes) s)
  unfolding pes_packets
  process_all-first fuel [] s some = absurd (omega arith)
  process_all-first fuel (b ∷ bs) s some = refl

  process_all-pes :
      (fuel : ℕ) (head es : List ℕ) (pts dts : ℕ) (state : PesAssembly) (given : List Access)
      → length head ≤ 19
      → 1 ≤ length es
      → length (head ++ es) ≤ suc fuel
      → ((state : PesAssembly) (part : List ℕ)
          → begin_pes state (head ++ part) ≡ holding part pts dts)
      → process_all pid (whole (suc fuel) (head ++ es)) (state, given)
        ≡ (holding es pts dts, given ++ (finish_pes state).1)
  process_all-pes fuel head es pts dts state given short some enough reads =
      let pes = head ++ es in
      let r = length pes in
      let n = payload_bytes marks r in
      let m = n - length head in
      let size = length-append head es in
      let some_left : 1 ≤ r = omega arith in
      let past : n ≡ length head + m =
        omega (arith, payload_bytes-Enough marks (length head) r short (omega arith)) in
      let given' = given ++ (finish_pes state).1 in
      let left = drop n pes in
      let smaller : length left ≤ fuel =
        omega (arith, payload_bytes-Some marks r some_left, length-drop n pes) in
      let later_packets = (pes_packets fuel pid (next_cc count) (later marks) left).0 in
      let first_part : begin_pes (finish_pes state).0 (take n pes) ≡ holding (take m es) pts dts =
        ap (begin_pes (finish_pes state).0) (take_past n m head es past)
        ∙ reads (finish_pes state).0 (take m es) in
      process_all-first fuel pes (state, given) some_left
      ∙ ap (process_all pid later_packets) (
          process_packet-start pid count marks pes some_left small state given refl
          ∙ ap (λ a. (a, given')) first_part)
      ∙ process_all-more fuel pid (next_cc count) marks left (take m es) pts dts given' smaller
          small
      ∙ ap (λ bs. (holding bs pts dts, given'))
          (ap (◌++◌ (take m es)) (drop_past n m head es past) ∙ take-append-drop m es)

  process_all-write_pes_packets :
      (pes es : List ℕ) (pts dts : ℕ) (state : PesAssembly) (given : List Access)
      → count < 16
      → 1 ≤ length es
      → Opens pes es pts dts
      → let bytes = (write_pes_packets pid count pes with_pcr pcr_90k random_access).0 in
        process_all pid (feed_packets (length bytes) bytes) (state, given)
        ≡ (holding es pts dts, given ++ (finish_pes state).1)
  unfolding write_pes_packets
  process_all-write_pes_packets pes es pts dts state given low some opens =
      let n = length pes in
      let packets = whole n pes in
      let cut : feed_packets (length (joined packets)) (joined packets) ≡ packets =
        feed_packets-joined packets (length (joined packets)) pid count
          (pes_packets-Packets n pid count marks pes small low) (omega arith) in
      let size = length-append opens.head es in
      let same = ap length opens.split in
      let fuel : n ≡ suc (n - 1) = omega arith in
      rw cut (
        ap (λ i. process_all pid (whole i pes) (state, given)) fuel
        ∙ ap (λ xs. process_all pid (whole (suc (n - 1)) xs) (state, given)) opens.split
        ∙ process_all-pes (n - 1) opens.head es pts dts state given opens.short some (omega arith)
            opens.reads)

finish_pes-holding :
    (es : List ℕ) (pts dts : ℕ)
    → 1 ≤ length es
    → (finish_pes (holding es pts dts)).1
      ≡ record { «data» = es; pts_90k = pts; dts_90k = dts } ∷ []
unfolding finish_pes
finish_pes-holding es pts dts some =
    let there : (length es == 0) ≡ false = ground arith in rw there refl

-- What the muxer wrote for a unit goes through the demuxer: after the packets, the handler was called
-- as before and with the unit that was open; the new unit is held in whole with its times; and the
-- handler gets exactly it when it is closed.
pub record Received (pid : ℕ) (bytes : List ℕ) (unit : Access) (state : PesAssembly)
    (given : List Access) : Type 0 where
  pub held :
      (process_all pid (feed_packets (length bytes) bytes) (state, given)).0
      ≡ holding unit.«data» unit.pts_90k unit.dts_90k
  pub handled :
      (process_all pid (feed_packets (length bytes) bytes) (state, given)).1
      ≡ given ++ (finish_pes state).1
  pub closed :
      (finish_pes (process_all pid (feed_packets (length bytes) bytes) (state, given)).0).1
      ≡ unit ∷ []

received :
    (pid : ℕ) (bytes : List ℕ) (unit : Access) (state : PesAssembly) (given : List Access)
    → 1 ≤ length unit.«data»
    → process_all pid (feed_packets (length bytes) bytes) (state, given)
      ≡ (holding unit.«data» unit.pts_90k unit.dts_90k, given ++ (finish_pes state).1)
    → Received pid bytes unit state given
received pid bytes unit state given some e = record {
  held = ap (λ s. s.0) e;
  handled = ap (λ s. s.1) e;
  closed =
      ap (λ s. (finish_pes s.0).1) e
      ∙ finish_pes-holding unit.«data» unit.pts_90k unit.dts_90k some;
}

-- A video access unit that is not empty is written. The demuxer, which knows the stream by its packet
-- identifier and holds anything for it, cuts the bytes into packets; the first of them closes the unit that was open, and its
-- handler gets that; after the last it holds the unit that was written with both of its times, and
-- the handler gets exactly that when the unit is closed. The times are below 2^30; the packet
-- identifier has 13 bits, and the counter 4.
pub process_all-write_video :
    (annexb : List ℕ) (pts_90k dts_90k : ℕ) (keyframe : Bool) (m : TsMuxer) (state : PesAssembly)
    (given : List Access)
    → 1 ≤ length annexb
    → pts_90k < 2 ^ 30
    → dts_90k < 2 ^ 30
    → m.config.video_pid < 2 ^ 13
    → m.video_cc < 16
    → let out = write_video annexb pts_90k dts_90k keyframe m in
      (out.0 ≡ ok tt)
      × Received m.config.video_pid out.1.0
          (record { «data» = annexb; pts_90k = pts_90k; dts_90k = dts_90k })
          state
          given
unfolding write_video
process_all-write_video annexb pts_90k dts_90k keyframe m state given some pts dts small low =
    let there : (length annexb == 0) ≡ false = ground arith in
    let pid = m.config.video_pid in
    let pes = video_pes annexb pts_90k dts_90k in
    rw there (
      refl,
      received pid (write_pes_packets pid m.video_cc pes keyframe dts_90k keyframe).0 _ state given
          some
          (process_all-write_pes_packets pid m.video_cc dts_90k keyframe keyframe small pes annexb
            pts_90k dts_90k state given low some (video_pes-Opens annexb pts_90k dts_90k pts dts)),
    )

-- An audio access unit that is not empty, and whose PES packet is no longer than 65535 bytes, is
-- written. The demuxer, which knows the stream by its packet identifier and holds anything for it, cuts the bytes into packets; the first
-- of them closes the unit that was open, and its handler gets that; after the last it holds the unit
-- that was written with its time, and the handler gets exactly that when the unit is closed. The time
-- is below 2^30; the packet identifier has 13 bits, and the counter 4.
pub process_all-write_audio :
    (adts : List ℕ) (pts_90k : ℕ) (m : TsMuxer) (state : PesAssembly) (given : List Access)
    → 1 ≤ length adts
    → length adts + 8 < 2 ^ 16
    → pts_90k < 2 ^ 30
    → m.config.audio_pid < 2 ^ 13
    → m.audio_cc < 16
    → let out = write_audio adts pts_90k m in
      (out.0 ≡ ok tt)
      × Received m.config.audio_pid out.1.0
          (record { «data» = adts; pts_90k = pts_90k; dts_90k = pts_90k })
          state
          given
unfolding write_audio
process_all-write_audio adts pts_90k m state given some fits pts small low =
    let there : (length adts == 0) ≡ false = ground arith in
    let short : ltb 0xFFFF (length adts + 3 + 5) ≡ false = ground arith in
    let pid = m.config.audio_pid in
    let pes = audio_pes adts pts_90k in
    rw (there, short)
      (
        refl,
        received pid (write_pes_packets pid m.audio_cc pes false 0 false).0 _ state given some (
            process_all-write_pes_packets pid m.audio_cc 0 false false small pes adts pts_90k
              pts_90k state given low some (audio_pes-Opens adts pts_90k pts)),
      )
