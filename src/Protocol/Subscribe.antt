-- ===== src/Protocol/Subscribe.antt =====
-- internal/protocol/mqtt.go: SUBSCRIBE and SUBACK.
pub mod RoundTrip
use haigosmart.Base.{
  ℕ, zero, suc, ◌+◌, Bool, true, false, List, [], ◌∷◌, ◌++◌, ltb, leb, if◌then◌else◌, length, drop,
  replicate, Result, ok, err, ◌>>=◌, wrap_error, Option, none, some,
}
use haigosmart.Base.Bytes.{put_u16}
use haigosmart.Base.Text.{Str}
use haigosmart.Protocol.Error.{
  Error, reading_part, subscribe_filter, subscribe_packet_id_truncated,
  subscribe_missing_requested_qos, suback_truncated,
}
use haigosmart.Protocol.Wire.{
  read_string, append_string, encode, uint16, type_subscribe, type_suback,
}

-- The loop of `DecodeSubscribe`. `none` is no Go value: the fuel ran out.
unfoldable pub topics_loop : ℕ → List ℕ → ℕ → List Str → Option (Result Error (List Str))
topics_loop zero payload i topics = if leb (length payload) i then some (ok topics) else none
topics_loop (suc fuel) payload i topics =
    if leb (length payload) i then some (ok topics) else elim (read_string payload i) [
      | err e ↦ some (err (reading_part subscribe_filter e))
      | ok (topic, i') ↦ elim (leb (length payload) i') [
        | true ↦ some (err subscribe_missing_requested_qos)
        | false ↦ topics_loop fuel payload (i' + 1) (topics ++ topic ∷ [])
      ]
    ]

-- Each round goes at least three bytes on, so the length of the packet is fuel enough.
unfoldable pub decode_subscribe : List ℕ → Option (Result Error (ℕ × List Str))
unfolding topics_loop
decode_subscribe payload =
    if ltb (length payload) 2
    then some (err subscribe_packet_id_truncated)
    else elim (topics_loop (length payload) payload 2 []) [
      | none ↦ none
      | some (err e) ↦ some (err e)
      | some (ok topics) ↦ some (ok (uint16 payload, topics))
    ]

-- `for _, topic := range topics`
unfoldable pub append_filters : List ℕ → ℕ → List Str → List ℕ
unfolding append_string
append_filters body qos [] = body
append_filters body qos (topic ∷ topics) =
    append_filters (append_string body topic ++ qos ∷ []) qos topics

unfoldable pub encode_subscribe : ℕ → ℕ → List Str → List ℕ
unfolding encode append_filters
encode_subscribe packet_id qos topics =
    encode type_subscribe 2 (append_filters (put_u16 packet_id) qos topics)

unfoldable pub encode_suback : ℕ → ℕ → List ℕ
unfolding encode
encode_suback packet_id n = encode type_suback 0 (put_u16 packet_id ++ replicate n 0)

unfoldable pub decode_suback : List ℕ → Result Error (ℕ × List ℕ)
decode_suback payload =
    if ltb (length payload) 3 then err suback_truncated else ok (uint16 payload, drop 2 payload)
