-- ===== src/Core/Error.antt =====
-- include/rtmp_server/core/error.hpp. The message text of an error is left out.
pub data ErrorCategory : Type 0 where
  protocol network configuration authentication storage internal : ErrorCategory

pub data ErrorCode : Type 0 where
  none_ unknown not_found conflict : ErrorCode
  connection_closed connection_reset connection_timed_out would_block : ErrorCode
  operation_canceled resource_exhausted : ErrorCode
  malformed_handshake malformed_chunk malformed_amf : ErrorCode
  message_too_large invalid_state_transition : ErrorCode
  invalid_configuration missing_configuration : ErrorCode
  invalid_stream_key expired_token unauthorized : ErrorCode
  storage_unavailable storage_write_failed : ErrorCode
  invalid_argument : ErrorCode

pub record Error : Type 0 where
  pub code : ErrorCode
  pub category : ErrorCategory
