-- ===== src/Mqtt.antt =====
-- internal/mqtt/client.go: the client of the household's broker. A connection is a number, the writes
-- on it that fail are an argument, and a handler is the number of the function that was registered.
pub mod Topic
pub mod Backoff
pub mod PacketId
pub mod Session
pub mod Loop
use haigosmart.Base.{
  ℕ, ◌+◌, ◌%◌, List, [], ◌∷◌, ◌++◌, Bool, true, false, not, Option, none, some, ◌==◌, Result, ok,
  err, if◌then◌else◌,
}
use haigosmart.Base.Int.{ℤ, pos, leb_ℤ}
use haigosmart.Base.Text.{Str, codes, is_empty}
use haigosmart.Base.Assoc
use haigosmart.Base.Assoc.{Map}
use haigosmart.Protocol.Error
use haigosmart.Protocol.Wire.{Packet, qos, encode, type_publish, type_pingreq}
use haigosmart.Protocol.Connect.{Reason}
use haigosmart.Protocol.Publish.{
  decode_publish, encode_publish, encode_publish_qos1, encode_publish_retained, encode_puback,
}
use haigosmart.Protocol.Subscribe.{encode_subscribe}
use haigosmart.Mqtt.Topic.{topic_matches}

-- A time.Duration, in nanoseconds.
abbrev pub second : ℕ
second = 1_000_000_000

pub record Options : Type 0 where
  pub broker : Str
  pub client_id : Str
  pub username : Str
  pub password : Str
  pub keep_alive : ℤ
  pub will_topic : Str
  pub will_payload : List ℕ
  pub will_retain : Bool

-- The errors of the client; `Protocol.Error` is inside those that wrap one.
pub data ClientError : Type 0 where
  not_connected write_failed sending_connect : ClientError
  reading_connack bad_connack : Error.Error → ClientError
  expected_connack : ℕ → ClientError
  refused : Reason → ClientError

-- `sent` is what was written on the connection that is up, the oldest first.
pub record Client : Type 0 where
  pub options : Options
  pub handlers : Map ℕ
  pub packet_id : ℕ
  pub connection : Option ℕ
  pub sent : List (List ℕ)

abbrev pub with_defaults : Options → Options
with_defaults o = record o {
  client_id = if is_empty o.client_id then codes "haigosmart" else o.client_id;
  keep_alive = if leb_ℤ o.keep_alive (pos 0) then pos 30_000_000_000 else o.keep_alive;
}

unfoldable pub new : Options → Client
unfolding is_empty
new o = record {
  options = with_defaults o;
  handlers = [];
  packet_id = 0;
  connection = none;
  sent = [];
}

-- A write of the packet on the connection, if there is one.
unfoldable pub write_raw : (List ℕ → Bool) → Client → List ℕ → Client × Option ClientError
write_raw fails c packet = elim c.connection [
  | none ↦ (c, some not_connected)
  | some conn ↦
      if fails packet
      then (c, some write_failed)
      else (record c { sent = c.sent ++ packet ∷ [] }, none)
]

-- `c.packetID++`, on 16 bits, with 0 left out.
unfoldable pub next_packet_id : ℕ → ℕ
next_packet_id id = let id' = (id + 1) % 65536 in if id' == 0 then 1 else id'

abbrev pub take_packet_id : Client → Client
take_packet_id c = record c { packet_id = next_packet_id c.packet_id }

unfoldable pub publish :
    (List ℕ → Bool) → Client → Str → List ℕ → Bool → Client × Option ClientError
unfolding write_raw
publish fails c topic payload retain =
    write_raw fails c
      (if retain then encode_publish_retained topic payload else encode_publish topic payload)

unfoldable pub publish_qos1 :
    (List ℕ → Bool) → Client → Str → List ℕ → Bool → Client × Option ClientError
unfolding write_raw next_packet_id
publish_qos1 fails c topic payload retain =
    let c' = take_packet_id c in
    write_raw fails c' (encode_publish_qos1 topic payload c'.packet_id retain)

unfoldable pub send_subscribe : (List ℕ → Bool) → Client → Str → Client × Option ClientError
unfolding write_raw next_packet_id
send_subscribe fails c topic =
    let c' = take_packet_id c in write_raw fails c' (encode_subscribe c'.packet_id 0 (topic ∷ []))

unfoldable pub subscribe : (List ℕ → Bool) → Client → Str → ℕ → Client × Option ClientError
unfolding send_subscribe Assoc.put
subscribe fails c topic handler =
    let c' = record c { handlers = Assoc.put c.handlers topic handler } in
    elim c.connection [ none ↦ (c', none) | some conn ↦ send_subscribe fails c' topic ]

-- One tick of the keep-alive of connection `conn`, and whether its loop goes on.
unfoldable pub keep_alive_tick : (List ℕ → Bool) → ℕ → Client → Client × Bool
unfolding write_raw
keep_alive_tick fails conn c = elim c.connection [
  | none ↦ (c, false)
  | some live ↦
      let (c', failure) = write_raw fails c (encode type_pingreq 0 []) in
      if not (live == conn)
      then (c, false)
      else elim failure [ none ↦ (c', true) | some e ↦ (c', false) ]
]

-- A call of a handler.
pub record Call : Type 0 where
  pub handler : ℕ
  pub topic : Str
  pub payload : List ℕ

-- The handler of the first filter that the topic matches.
unfoldable pub handler_for : Map ℕ → Str → Option ℕ
handler_for [] topic = none
handler_for ((filter, handler) ∷ m) topic =
    let rest = handler_for m topic in if topic_matches filter topic then some handler else rest

unfoldable pub dispatch : Map ℕ → Str → List ℕ → List Call
unfolding handler_for
dispatch handlers topic payload = elim (handler_for handlers topic) [
  | none ↦ []
  | some h ↦ record { handler = h; topic = topic; payload = payload } ∷ []
]

-- A round of `readLoop` with the packet that was read.
unfoldable pub receive : (List ℕ → Bool) → Client → Packet → Client × List Call
receive fails c p =
    if not (p.type == type_publish) then (c, []) else elim (decode_publish p.payload (qos p)) [
      | err e ↦ (c, [])
      | ok message ↦ (
        if qos p == 1 then (write_raw fails c (encode_puback message.packet_id)).0 else c,
        dispatch c.handlers message.topic message.payload,
      )
    ]
