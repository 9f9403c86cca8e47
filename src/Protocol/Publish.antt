-- ===== src/Protocol/Publish.antt =====
-- internal/protocol/mqtt.go: PUBLISH and PUBACK.
pub mod RoundTrip
use Prim.Native.Nat.{bit_or}
use haigosmart.Base.{
  ℕ, ◌+◌, ◌%◌, List, [], ◌++◌, Bool, true, false, ltb, if◌then◌else◌, length, drop, Result, ok, err,
  ◌>>=◌, wrap_error,
}
use haigosmart.Base.Bytes.{put_u16}
use haigosmart.Base.Text.{Str}
use haigosmart.Protocol.Error.{Error, reading_part, publish_topic, publish_packet_id_truncated}
use haigosmart.Protocol.Wire.{read_string, append_string, encode, uint16, type_publish, type_puback}

pub record Publish : Type 0 where
  pub topic : Str
  pub packet_id : ℕ
  pub payload : List ℕ

unfoldable pub decode_publish : List ℕ → ℕ → Result Error Publish
decode_publish payload level = do
  (topic, i) ← wrap_error (reading_part publish_topic) (read_string payload 0)
  if ltb 0 level
      then (if ltb (length payload) (i + 2)
          then err publish_packet_id_truncated
          else ok (record {
            topic = topic;
            packet_id = uint16 (drop i payload);
            payload = drop (i + 2) payload;
          }))
      else ok (record { topic = topic; packet_id = 0; payload = drop i payload })

unfoldable pub encode_publish : Str → List ℕ → List ℕ
unfolding encode append_string
encode_publish topic payload = encode type_publish 0 (append_string [] topic ++ payload)

unfoldable pub encode_publish_qos1 : Str → List ℕ → ℕ → Bool → List ℕ
unfolding encode append_string
encode_publish_qos1 topic payload packet_id retain =
    encode type_publish (if retain then bit_or 2 1 else 2)
      ((append_string [] topic ++ put_u16 packet_id) ++ payload)

unfoldable pub encode_publish_retained : Str → List ℕ → List ℕ
unfolding encode append_string
encode_publish_retained topic payload = encode type_publish 1 (append_string [] topic ++ payload)

unfoldable pub encode_puback : ℕ → List ℕ
unfolding encode
encode_puback packet_id = encode type_puback 0 (put_u16 packet_id)
