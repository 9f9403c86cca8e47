-- ===== src/TestBroker/Serving.antt =====
-- internal/mqtt/mqtttest/broker.go: what the broker does with each packet, and what else reaches it.
use haigosmart.Base.{
  ℕ, ◌+◌, ◌*◌, List, [], ◌∷◌, ◌++◌, Bool, true, false, not, none, some, ◌==◌, if◌then◌else◌, length,
  ok, err,
}
use haigosmart.Base.Text.{Str}
use haigosmart.Protocol.Wire.{
  Packet, qos, retained, type_connect, type_connack, type_publish, type_subscribe, type_pingreq,
  type_disconnect,
}
use haigosmart.Protocol.Connect.{Connect, decode_connect, connack_accepted}
use haigosmart.Protocol.Publish.{decode_publish, encode_publish, encode_puback}
use haigosmart.Protocol.Subscribe.{decode_subscribe, encode_suback}
use haigosmart.TestBroker.{
  Broker, Message, any_matches, capture_will, kept_matching, record_message, remove, set_peer,
}

-- `fails` says of a session whether a write to its connection fails.
module _ (fails : ℕ → Bool) where
  unfoldable pub write : Broker → ℕ → List ℕ → Broker × Bool
  unfolding set_peer
  write b i p =
      if fails i
      then (b, false)
      else (set_peer b i (record (b.peers i) { written = (b.peers i).written ++ (p ∷ []) }), true)

  unfoldable pub send : Broker → ℕ → Message → Broker × Bool
  unfolding write encode_publish
  send b i m = write b i (encode_publish m.topic m.payload)

  -- One copy for a session, whichever of its filters match.
  unfoldable pub offer : List ℕ → Message → Broker → Broker
  unfolding any_matches send
  offer [] m b = b
  offer (i ∷ targets) m b =
      offer targets m (if any_matches (b.peers i).topics m.topic then (send b i m).0 else b)

  unfoldable pub deliver : Broker → Message → Broker
  unfolding record_message offer
  deliver b m = offer b.subscribers m (record_message b m)

  -- The replay to a new subscription, until a write fails.
  unfoldable pub send_each : Broker → ℕ → List Message → Broker × Bool
  unfolding send
  send_each b i [] = (b, true)
  send_each b i (m ∷ ms) =
      let out = send b i m in elim out.1 [ true ↦ send_each out.0 i ms | false ↦ (out.0, false) ]

  unfoldable pub replay : Broker → ℕ → List Str → Broker × Bool
  unfolding send_each kept_matching
  replay b i [] = (b, true)
  replay b i (filter ∷ filters) =
      let out = send_each b i (kept_matching b.kept filter) in
      elim out.1 [ true ↦ replay out.0 i filters | false ↦ (out.0, false) ]

  unfoldable pub publish_will : Broker → ℕ → Broker
  unfolding set_peer deliver
  publish_will b i = elim (b.peers i).will [
    | none ↦ b
    | some m ↦ deliver (set_peer b i (record (b.peers i) { will = none })) m
  ]

  unfoldable pub handle_publish : Broker → ℕ → Packet → Broker × Bool
  unfolding decode_publish encode_puback deliver write
  handle_publish b i p = elim (decode_publish p.payload (qos p)) [
    | err e ↦ (b, false)
    | ok message ↦
        let acked = if qos p == 1 then write b i (encode_puback message.packet_id) else (b, true) in
        let m : Message = record {
          topic = message.topic;
          payload = message.payload;
          retain = retained p;
        } in
        if acked.1 then (deliver acked.0 m, true) else (acked.0, false)
  ]

  unfoldable pub handle_subscribe : Broker → ℕ → Packet → Broker × Bool
  unfolding decode_subscribe encode_suback replay write set_peer
  handle_subscribe b i p = elim (decode_subscribe p.payload) [
    | none ↦ (b, false)
    | some (err e) ↦ (b, false)
    | some (ok (id, topics)) ↦
        let known = set_peer b i (record (b.peers i) { topics = (b.peers i).topics ++ topics }) in
        let acked = write known i (encode_suback id (length topics)) in
        if acked.1 then replay acked.0 i topics else (acked.0, false)
  ]

  -- Whether the goroutine goes on reading is the second part.
  unfoldable pub handle : Broker → ℕ → Packet → Broker × Bool
  unfolding handle_publish handle_subscribe write set_peer
  handle b i p =
      if p.type == type_pingreq
      then write b i (0xD0 ∷ 0x00 ∷ [])
      else if p.type == type_subscribe
      then handle_subscribe b i p
      else if p.type == type_publish
      then handle_publish b i p
      else if p.type == type_disconnect
      then (set_peer b i (record (b.peers i) { will = none }), false)
      else (b, true)

module _ (fails : ℕ → Bool) where
  -- `serve` up to its loop, for a CONNECT that was decoded. A code that refuses is used up.
  unfoldable pub welcome : Broker → ℕ → List ℕ → Connect → Broker
  unfolding write capture_will set_peer remove
  welcome b i payload c =
      let asked : Broker = record b { refuse_code = 0 } in
      if not (b.refuse_code == 0)
      then (write fails asked i ((type_connack * 16) ∷ 2 ∷ 0 ∷ b.refuse_code ∷ [])).0
      else let joined : Broker = record asked {
        connects = b.connects + 1;
        credentials = b.credentials ++ ((c.username, c.password) ∷ []);
        subscribers = b.subscribers ++ (i ∷ []);
      } in
        let answered = write fails joined i connack_accepted in
        if answered.1
        then set_peer answered.0 i
            (record (answered.0.peers i) { will = capture_will payload; live = true })
        else answered.0

  unfoldable pub connect : Broker → ℕ → Packet → Broker
  unfolding welcome decode_connect
  connect b i p =
      if not (p.type == type_connect)
      then b
      else elim (decode_connect p.payload) [ err e ↦ b | ok c ↦ welcome b i p.payload c ]

  -- The wills of the dropped sessions, in their order.
  unfoldable pub publish_wills : List ℕ → Broker → Broker
  unfolding publish_will
  publish_wills [] b = b
  publish_wills (i ∷ is) b = publish_wills is (publish_will fails b i)

-- The loop of `serve` behind a packet: an error of `handle` ends it.
unfoldable pub settle : ℕ → Broker × Bool → Broker
unfolding remove
settle i (b, true) = b
settle i (b, false) = remove b i

-- What reaches the broker: a first packet, a later one, the failure of a read; and the calls of a test.
pub data Input : Type 0 where
  opened : ℕ → Packet → Input
  received : ℕ → Packet → Input
  lost : ℕ → Input
  publish : Str → List ℕ → Input
  refuse_with : ℕ → Input
  drop_connections : Input
  close : Input

module _ (fails : ℕ → Bool) where
  -- A session whose goroutine has returned reads nothing more.
  unfoldable pub step : Broker → Input → Broker
  unfolding connect handle settle remove publish_will deliver publish_wills
  step b (opened i p) = connect fails b i p
  step b (received i p) = if (b.peers i).live then settle i (handle fails b i p) else b
  step b (lost i) = if (b.peers i).live then remove (publish_will fails b i) i else b
  step b (publish topic payload) =
      deliver fails b (record { topic = topic; payload = payload; retain = false })
  step b (refuse_with code) = record b { refuse_code = code }
  step b drop_connections = publish_wills fails b.subscribers (record b { subscribers = [] })
  step b close = if b.closed then b else record b { closed = true; subscribers = [] }

  unfoldable pub run : List Input → Broker → Broker
  unfolding step
  run [] b = b
  run (input ∷ inputs) b = run inputs (step b input)
