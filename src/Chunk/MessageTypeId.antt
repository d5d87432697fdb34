-- ===== src/Chunk/MessageTypeId.antt =====
-- enum class MessageTypeId of include/rtmp_server/protocol/chunk/chunk_types.hpp, by its numbers:
-- the sources cast any byte to it and switch.
use rtmp_core.Base.{ℕ}

abbrev pub set_chunk_size : ℕ
set_chunk_size = 1

abbrev pub abort_message : ℕ
abort_message = 2

abbrev pub acknowledgement : ℕ
acknowledgement = 3

abbrev pub user_control_message : ℕ
user_control_message = 4

abbrev pub window_acknowledgement_size : ℕ
window_acknowledgement_size = 5

abbrev pub set_peer_bandwidth : ℕ
set_peer_bandwidth = 6

abbrev pub audio : ℕ
audio = 8

abbrev pub video : ℕ
video = 9

abbrev pub amf0_data : ℕ
amf0_data = 18

abbrev pub amf0_command : ℕ
amf0_command = 20
