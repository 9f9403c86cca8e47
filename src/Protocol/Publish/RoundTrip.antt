-- ===== src/Protocol/Publish/RoundTrip.antt =====
-- What the three encoders of PUBLISH write, `read_packet` and `decode_publish` read back.
use mathlib.Core.List.{append_assoc}
use haigosmart.Base.{
  ℕ, ◌+◌, ◌≤◌, ◌<◌, ◌≡◌, refl, List, [], ◌++◌, Bool, true, false, arith, if◌then◌else◌, length, ok,
}
use haigosmart.Base.Bytes.{put_u16, u16-put_u16}
use haigosmart.Base.Text.{Str}
use haigosmart.Protocol.Wire.{
  Packet, append_string, type_publish, max_packet_size, read_packet, qos, retained,
}
use haigosmart.Protocol.Wire.RoundTrip.{
  IsAt-start, IsAt-skip, read_string-append_string, read_packet-encode,
}
use haigosmart.Protocol.Publish.{
  decode_publish, encode_publish, encode_publish_qos1, encode_publish_retained,
}

module _ (topic : Str) (payload : List ℕ) (short : length topic < 65536) where
  decode_publish-qos0 :
      decode_publish (append_string [] topic ++ payload) 0
      ≡ ok (record { topic = topic; packet_id = 0; payload = payload })
  unfolding decode_publish
  decode_publish-qos0 =
      let b = append_string [] topic ++ payload in
      let (r, a) = read_string-append_string b 0 topic payload short (IsAt-start b) in
      rw (r, a.holds)

  decode_publish-qos1 :
      (id : ℕ)
      → id < 65536
      → decode_publish ((append_string [] topic ++ put_u16 id) ++ payload) 1
        ≡ ok (record { topic = topic; packet_id = id; payload = payload })
  unfolding decode_publish
  decode_publish-qos1 id h =
      let b = append_string [] topic ++ (put_u16 id ++ payload) in
      let (r, a) =
        read_string-append_string b 0 topic (put_u16 id ++ payload) short (IsAt-start b) in
      let a' = IsAt-skip b (0 + 2 + length topic) (put_u16 id) payload a in
      rw (append_assoc (append_string [] topic) (put_u16 id) payload)
        (rw (r, a.holds, a'.holds, u16-put_u16 id h) (ground (arith, a.within)))

  -- A QoS 0 PUBLISH, retained or not, is read back: the packet with what follows it left unread, its
  -- QoS and retain flag, and the topic and payload.
  pub decode_publish-encode_publish :
      (retain : Bool) (rest : List ℕ)
      → length (append_string [] topic ++ payload) ≤ max_packet_size
      → (p : Packet) × (read_packet (
            (if retain then encode_publish_retained topic payload else encode_publish topic payload)
            ++ rest)
          ≡ ok (p, rest))
        × (p.type ≡ type_publish)
        × (qos p ≡ 0)
        × (retained p ≡ retain)
        × (decode_publish p.payload (qos p)
            ≡ ok (record { topic = topic; packet_id = 0; payload = payload }))
  unfolding encode_publish encode_publish_retained qos retained
  decode_publish-encode_publish true rest small = (
    record { type = type_publish; flags = 1; payload = append_string [] topic ++ payload },
    read_packet-encode type_publish 1 _ rest (omega arith) (omega arith) small,
    refl,
    refl,
    refl,
    decode_publish-qos0,
  )
  decode_publish-encode_publish false rest small = (
    record { type = type_publish; flags = 0; payload = append_string [] topic ++ payload },
    read_packet-encode type_publish 0 _ rest (omega arith) (omega arith) small,
    refl,
    refl,
    refl,
    decode_publish-qos0,
  )

  -- A QoS 1 PUBLISH with a 16-bit packet id is read back: the packet, its QoS and retain flag, and the
  -- topic, the packet id to acknowledge and the payload.
  pub decode_publish-encode_publish_qos1 :
      (id : ℕ) (retain : Bool) (rest : List ℕ)
      → id < 65536
      → length ((append_string [] topic ++ put_u16 id) ++ payload) ≤ max_packet_size
      → (p : Packet) × (read_packet (encode_publish_qos1 topic payload id retain ++ rest)
          ≡ ok (p, rest))
        × (p.type ≡ type_publish)
        × (qos p ≡ 1)
        × (retained p ≡ retain)
        × (decode_publish p.payload (qos p)
            ≡ ok (record { topic = topic; packet_id = id; payload = payload }))
  unfolding encode_publish_qos1 qos retained
  decode_publish-encode_publish_qos1 id true rest h small = (
    record {
      type = type_publish;
      flags = 3;
      payload = (append_string [] topic ++ put_u16 id) ++ payload;
    },
    read_packet-encode type_publish 3 _ rest (omega arith) (omega arith) small,
    refl,
    refl,
    refl,
    decode_publish-qos1 id h,
  )
  decode_publish-encode_publish_qos1 id false rest h small = (
    record {
      type = type_publish;
      flags = 2;
      payload = (append_string [] topic ++ put_u16 id) ++ payload;
    },
    read_packet-encode type_publish 2 _ rest (omega arith) (omega arith) small,
    refl,
    refl,
    refl,
    decode_publish-qos1 id h,
  )
