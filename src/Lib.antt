-- ===== src/Lib.antt =====
-- The protocol core of an RTMP server in C++, modelled and proved. Paths are from the repository's
-- root.
--
-- The program takes the bytes of a connection through three stages. A HandshakeSession answers the
-- client's version byte and first chunk, and waits for the second. What follows goes to a
-- ChunkDecoder, which puts the chunks of every chunk stream together into RtmpMessages, obeys the
-- protocol control messages itself, and
-- calls a handler with the others. Command messages are sequences of AMF0 values. A publisher's audio
-- and video go to a MediaIngest, which keeps the decoder configurations, and become
-- SharedMediaFrames, which a LiveFanout takes through a ViewerQueue for each viewer and into the
-- GopCache that a new viewer starts from.
--
-- Base holds the names that all files share: tests on the native numbers, lists and their lemmas.
--
-- Core
--   Core.Error, Core.Result and Core.ByteOrder are include/rtmp_server/core/error.hpp, result.hpp
--   and byte_order.hpp. A byte is a number below 256; the readers are total, with 0 past the end, and
--   the code that uses them tests the length first. Core.ByteReader is byte_reader.hpp.
--
-- Chunk: include/rtmp_server/protocol/chunk and src/protocol/chunk/chunk_decoder.cpp
--   Chunk.Decoder.Streams is streams_, the table of the chunk streams. Chunk.Decoder.Inspect is the
--   first part of decode_one, which reads the headers and commits nothing: its Verdict is what the
--   code then does (wait, make the entry and wait, fail, commit a Chunk). Chunk.Decoder is the rest:
--   the commit, the messages that are complete, the control messages, fail, and the loop of
--   on_bytes_received. `calls` records the calls of the two handlers in order. The counters are
--   64 bits wide and wrap, as in the source; the limits of the invariant exclude that they do.
--   Inspect.Append, Extend, Rounds, Fragments and Fragments.Cut compare a buffer with the same buffer
--   and more bytes; Invariant and its children keep the accounting of the buffered bytes.
--   Fuel: on_bytes_received runs one round more than there are bytes in the buffer. A round that goes
--   on takes at least one byte.
--
--   Chunk.Encoder is src/protocol/chunk/chunk_encoder.cpp; its functions return the bytes that they
--   append. write_rest runs one round for each byte of the payload at most, and every round takes
--   one, as the chunk size is not 0. Chunk.Decoder.RoundTrip joins the encoder and the decoder:
--   Headers, Commit and Pieces are about one chunk, Messages and Sequences about whole messages.
--
-- Handshake: src/protocol/handshake/handshake_session.cpp
--   The states, the buffer and the calls of the three handlers; `Env` is the clock and the random
--   bytes. Handshake.Invariant is about any sequence of bytes and timeouts, Handshake.Progress about
--   a client that sends the version byte and both chunks.
--
-- Amf0: src/protocol/amf0 and include/rtmp_server/protocol/amf0
--   A double is its 64 bits, a string its bytes. The decoders take the bytes that are left in place of
--   an offset into the span. Amf0.Decoder counts the levels of nesting that are left, 33 at the top,
--   where the source counts those taken; the property loop has the source's own limit of 1,000,000
--   rounds, decode_all one round for each byte.
--
-- Playback: include/rtmp_server/protocol/commands/viewer_queue.hpp and gop_cache.hpp
--   One viewer's backpressure and the cache of the latest group of pictures, with all their
--   operations.
--
-- Media: src/media/h264/avc.cpp, src/media/hevc/hevc.cpp, src/protocol/media/media_ingest.cpp
--   Media.Nals and Media.Annexb are the loops over NAL units that these files repeat, Media.Avc and
--   Media.Hevc the two codecs, Media.Ingest (with Tags and Configs) what a publisher's messages do to
--   the state of its stream. The offset into a buffer is the rest of the buffer from there on. A
--   conversion runs one step at most for each byte of the sample; a step takes the bytes of a length
--   field, one at least.
--
-- Media.Adts: src/media/aac/adts.cpp
--   The audio tag, the AudioSpecificConfig and the ADTS header, whose bytes are returned.
--
-- Media.Ts: src/media/ts/ts_muxer.cpp, and parts of src/media/ts/ts_demuxer.cpp
--   A function of the muxer returns the bytes that it appends. Media.Ts.Tables has the program tables
--   with their check sum. Media.Ts.Demux cuts bytes into packets (the loop of feed), takes the payload
--   of a packet, and puts the units of one stream together (process_packet, begin_pes, finish_pes); the
--   field `kind` of PesAssembly is never used there and is left out. The tables of the demuxer are not
--   modelled: a stream is given by its packet identifier, which is not the one of a table. A step of the
--   loops takes a byte at least, and one step for each byte is given.
--
-- LiveFanout: src/protocol/commands/live_fanout.cpp
--   LiveFanout.State has the tables, the metrics and the list of the calls of sinks and hooks;
--   Dispatch is dispatch_locked, Deliveries is run_deliveries, Classify the tests on a frame,
--   LiveFanout itself the public operations, Observe what is read off. `Sinks` is the parameter for
--   the sinks: the answer to a call, which may depend on all calls before it. An operation runs to
--   its end before the next one begins, and a sink does not call back while it answers. A table that
--   is an unordered_map in the source is a list of its entries (Base.Table).
--
-- StreamRegistry: include/rtmp_server/protocol/commands/stream_registry.hpp
--   Which connection publishes which stream key, and the gauge that counts them.
--
-- Retention: src/recording/retention.cpp
--   plan_retention, which recordings to delete.
--
-- BitReader: include/rtmp_server/media/bitstream/bit_reader.hpp
--   The reader of parameter sets; BitReader.Stream sees it as the list of the bits that are left. The
--   loop of ue has the source's own limit of 32 rounds.
--
-- The modules called Tests apply the theorems to concrete inputs.
--
-- Not modelled: capacities and sharing of buffers; the texts of errors; the
-- command sessions; media containers, HLS, DASH, the recorder, the
-- cluster and the control plane; sockets, io_uring, threads, files, SQLite and FFmpeg, which are
-- facilities outside the code.
pub mod Base
pub mod Core
pub mod Chunk
pub mod StreamRegistry
pub mod Retention
pub mod BitReader
pub mod Media
pub mod Playback
pub mod LiveFanout
pub mod Handshake
pub mod Amf0
