-- ===== src/Protocol/Error.antt =====
-- The errors of internal/protocol/mqtt.go, one constructor for each message. A wrapped error (`%w`)
-- keeps the error inside.
use haigosmart.Base.{ℕ}

-- The part of a packet that `readString` was reading.
pub data Part : Type 0 where
  connect_protocol_name connect_client_id connect_will_topic connect_will_message : Part
  connect_username connect_password publish_topic subscribe_filter : Part

pub data Error : Type 0 where
  -- io.EOF and io.ErrUnexpectedEOF
  eof unexpected_eof : Error
  packet_too_large : ℕ → Error
  reading_body : ℕ → Error → Error
  reading_remaining_length : Error → Error
  malformed_remaining_length : Error
  truncated_string_length : Error
  string_exceeds_packet : ℕ → Error
  reading_part : Part → Error → Error
  connect_header_truncated : Error
  publish_packet_id_truncated : Error
  subscribe_packet_id_truncated subscribe_missing_requested_qos : Error
  connack_truncated suback_truncated : Error
