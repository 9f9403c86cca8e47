-- ===== src/TestBroker/Kept.antt =====
-- internal/mqtt/mqtttest/broker.go: what the broker keeps for later subscribers.
use haigosmart.Base.{
  ℕ, ◌≡◌, refl, ◌∙◌, inl, inr, List, [], ◌∷◌, ◌++◌, Bool, true, false, Option, none, some, ◌==◌,
  arith, if◌then◌else◌, Bool-cases, Option-cases, Result-cases, ok, err, length,
}
use haigosmart.Base.Text.{Str, is_empty, str_eq}
use haigosmart.Base.Assoc
use haigosmart.Base.Assoc.{Map, get-put, get-delete}
use haigosmart.Protocol.Wire.{
  Packet, qos, retained, type_connect, type_pingreq, type_subscribe, type_publish, type_disconnect,
}
use haigosmart.Protocol.Connect.{Connect, decode_connect}
use haigosmart.Protocol.Subscribe.{decode_subscribe, encode_suback}
use haigosmart.Protocol.Publish.{decode_publish, encode_publish, encode_puback}
use haigosmart.TestBroker.{
  any_matches, Message, Broker, set_peer, record_message, remove, kept_matching,
}
use haigosmart.TestBroker.Serving.{
  Input, write, send, offer, deliver, send_each, replay, publish_will, handle, handle_publish,
  handle_subscribe, welcome, connect, publish_wills, settle, step, run, opened, received, lost,
  publish, refuse_with, drop_connections, close,
}

-- What a message leaves on a topic where there was something before.
abbrev pub left_by : Str → Message → Option Message → Option Message
left_by topic m before =
    if m.retain
    then (if str_eq m.topic topic then (if is_empty m.payload then none else some m) else before)
    else before

-- What messages leave on a topic, one after the other.
unfoldable pub newest : Str → List Message → Option Message → Option Message
newest topic [] before = before
newest topic (m ∷ ms) before = newest topic ms (left_by topic m before)

pub newest-append :
    (topic : Str) (ms : List Message) (before : Option Message) (m : Message)
    → newest topic (ms ++ (m ∷ [])) before ≡ left_by topic m (newest topic ms before)
unfolding newest
newest-append topic [] before m = refl
newest-append topic (k ∷ ms) before m = newest-append topic ms (left_by topic k before) m

-- On every topic the broker keeps what the messages so far leave there.
abbrev pub Keeps : Broker → Type 0
Keeps b = (topic : Str) → Assoc.get b.kept topic ≡ newest topic b.messages none

record_message-Keeps : (b : Broker) (m : Message) → Keeps b → Keeps (record_message b m)
unfolding record_message
record_message-Keeps b m h topic = ground (
  arith,
  newest-append topic b.messages none m,
  h topic,
  get-delete b.kept m.topic topic,
  get-put b.kept m.topic topic m,
)

-- The same log and the same kept messages.
abbrev pub SameLog : Broker → Broker → Type 0
SameLog b c = (c.kept ≡ b.kept) × (c.messages ≡ b.messages)

SameLog-Keeps : (b c : Broker) → SameLog b c → Keeps b → Keeps c
SameLog-Keeps b c (kept, messages) h topic = rw (kept, messages) (h topic)

SameLog-trans : (b c d : Broker) → SameLog b c → SameLog c d → SameLog b d
SameLog-trans b c d (k, m) (k', m') = (k' ∙ k, m' ∙ m)

settle-Keeps : (i : ℕ) (out : Broker × Bool) → Keeps out.0 → Keeps (settle i out)
unfolding settle remove set_peer
settle-Keeps i (b, true) h = h
settle-Keeps i (b, false) h = h

module _ (fails : ℕ → Bool) where
  pub write-SameLog : (b : Broker) (i : ℕ) (p : List ℕ) → SameLog b (write fails b i p).0
  unfolding write set_peer
  write-SameLog b i p = ground arith

  pub offer-SameLog :
      (targets : List ℕ) (m : Message) (b : Broker) → SameLog b (offer fails targets m b)
  unfolding offer send
  offer-SameLog [] m b = (refl, refl)
  offer-SameLog (i ∷ targets) m b = elim (Bool-cases (any_matches (b.peers i).topics m.topic)) [
    | inl e ↦
        let sent = (send fails b i m).0 in
        rw (offer, e)
          (SameLog-trans b sent (offer fails targets m sent)
            (write-SameLog b i (encode_publish m.topic m.payload)) (offer-SameLog targets m sent))
    | inr e ↦ rw (offer, e) (offer-SameLog targets m b)
  ]

  deliver-Keeps : (b : Broker) (m : Message) → Keeps b → Keeps (deliver fails b m)
  unfolding deliver
  deliver-Keeps b m h =
      SameLog-Keeps (record_message b m) (deliver fails b m)
        (offer-SameLog b.subscribers m (record_message b m)) (record_message-Keeps b m h)

  send_each-SameLog :
      (b : Broker) (i : ℕ) (ms : List Message) → SameLog b (send_each fails b i ms).0
  unfolding send_each send
  send_each-SameLog b i [] = (refl, refl)
  send_each-SameLog b i (m ∷ ms) =
      let out = send fails b i m in
      let first = write-SameLog b i (encode_publish m.topic m.payload) in
      elim (Bool-cases out.1) [
        | inl e ↦
            rw (send_each, e)
              (SameLog-trans b out.0 (send_each fails out.0 i ms).0 first
                (send_each-SameLog out.0 i ms))
        | inr e ↦ rw (send_each, e) first
      ]

  replay-SameLog :
      (b : Broker) (i : ℕ) (filters : List Str) → SameLog b (replay fails b i filters).0
  unfolding replay
  replay-SameLog b i [] = (refl, refl)
  replay-SameLog b i (f ∷ fs) =
      let out = send_each fails b i (kept_matching b.kept f) in
      let first = send_each-SameLog b i (kept_matching b.kept f) in
      elim (Bool-cases out.1) [
        | inl e ↦
            rw (replay, e)
              (SameLog-trans b out.0 (replay fails out.0 i fs).0 first (replay-SameLog out.0 i fs))
        | inr e ↦ rw (replay, e) first
      ]

  publish_will-Keeps : (b : Broker) (i : ℕ) → Keeps b → Keeps (publish_will fails b i)
  unfolding publish_will set_peer
  publish_will-Keeps b i h = elim (Option-cases (b.peers i).will) [
    | inl e ↦ rw (publish_will, e) h
    | inr (m, e) ↦
        rw (publish_will, e) (deliver-Keeps (set_peer b i (record (b.peers i) { will = none })) m h)
  ]

  publish_wills-Keeps : (is : List ℕ) (b : Broker) → Keeps b → Keeps (publish_wills fails is b)
  unfolding publish_wills
  publish_wills-Keeps [] b h = h
  publish_wills-Keeps (i ∷ is) b h =
      publish_wills-Keeps is (publish_will fails b i) (publish_will-Keeps b i h)

  handle_publish-Keeps :
      (b : Broker) (i : ℕ) (p : Packet) → Keeps b → Keeps (handle_publish fails b i p).0
  unfolding handle_publish
  handle_publish-Keeps b i p h = elim (Result-cases (decode_publish p.payload (qos p))) [
    | inr (e, f) ↦ rw (handle_publish, f) h
    | inl (message, f) ↦
        let acked =
          if qos p == 1 then write fails b i (encode_puback message.packet_id) else (b, true) in
        let kept : Keeps acked.0 = elim (Bool-cases (qos p == 1)) [
          | inl g ↦ rw g (
              SameLog-Keeps b (write fails b i (encode_puback message.packet_id)).0
                (write-SameLog b i (encode_puback message.packet_id)) h)
          | inr g ↦ rw g h
        ] in
        elim (Bool-cases acked.1) [
          | inl g ↦
              rw (handle_publish, f, g)
                (deliver-Keeps acked.0
                  (record { topic = message.topic; payload = message.payload; retain = retained p })
                  kept)
          | inr g ↦ rw (handle_publish, f, g) kept
        ]
  ]

  handle_subscribe-SameLog :
      (b : Broker) (i : ℕ) (p : Packet) → SameLog b (handle_subscribe fails b i p).0
  unfolding handle_subscribe set_peer
  handle_subscribe-SameLog b i p = elim (Option-cases (decode_subscribe p.payload)) [
    | inl f ↦ rw (handle_subscribe, f) (refl, refl)
    | inr (err e, f) ↦ rw (handle_subscribe, f) (refl, refl)
    | inr (ok (id, topics), f) ↦
        let known = set_peer b i (record (b.peers i) { topics = (b.peers i).topics ++ topics }) in
        let acked = write fails known i (encode_suback id (length topics)) in
        let first = write-SameLog known i (encode_suback id (length topics)) in
        elim (Bool-cases acked.1) [
          | inl g ↦
              rw (handle_subscribe, f, g)
                (SameLog-trans known acked.0 (replay fails acked.0 i topics).0 first
                  (replay-SameLog acked.0 i topics))
          | inr g ↦ rw (handle_subscribe, f, g) first
        ]
  ]

  handle-Keeps : (b : Broker) (i : ℕ) (p : Packet) → Keeps b → Keeps (handle fails b i p).0
  unfolding handle set_peer
  handle-Keeps b i p h = elim (Bool-cases (p.type == type_pingreq)) [
    | inl e ↦
        rw (handle, e)
          (SameLog-Keeps b (write fails b i (0xD0 ∷ 0x00 ∷ [])).0
            (write-SameLog b i (0xD0 ∷ 0x00 ∷ [])) h)
    | inr e ↦ elim (Bool-cases (p.type == type_subscribe)) [
      | inl f ↦
          rw (handle, e, f)
            (SameLog-Keeps b (handle_subscribe fails b i p).0 (handle_subscribe-SameLog b i p) h)
      | inr f ↦ elim (Bool-cases (p.type == type_publish)) [
        | inl g ↦ rw (handle, e, f, g) (handle_publish-Keeps b i p h)
        | inr g ↦ elim (Bool-cases (p.type == type_disconnect)) [
          | inl k ↦ rw (handle, e, f, g, k) h
          | inr k ↦ rw (handle, e, f, g, k) h
        ]
      ]
    ]
  ]

  welcome-SameLog :
      (b : Broker) (i : ℕ) (payload : List ℕ) (c : Connect)
      → SameLog b (welcome fails b i payload c)
  unfolding welcome write set_peer
  welcome-SameLog b i payload c = ground arith

  connect-SameLog : (b : Broker) (i : ℕ) (p : Packet) → SameLog b (connect fails b i p)
  unfolding connect
  connect-SameLog b i p = elim (Bool-cases (p.type == type_connect)) [
    | inr e ↦ rw (connect, e) (refl, refl)
    | inl e ↦ elim (Result-cases (decode_connect p.payload)) [
      | inr (x, f) ↦ rw (connect, e, f) (refl, refl)
      | inl (c, f) ↦ rw (connect, e, f) (welcome-SameLog b i p.payload c)
    ]
  ]

  pub step-Keeps : (b : Broker) (input : Input) → Keeps b → Keeps (step fails b input)
  unfolding step remove set_peer
  step-Keeps b (opened i p) h = SameLog-Keeps b (connect fails b i p) (connect-SameLog b i p) h
  step-Keeps b (received i p) h =
      elim (b.peers i).live
        as (λ (l : Bool). Keeps (if l then settle i (handle fails b i p) else b)) [
          | true ↦ settle-Keeps i (handle fails b i p) (handle-Keeps b i p h)
          | false ↦ h
        ]
  step-Keeps b (lost i) h =
      elim (b.peers i).live
        as (λ (l : Bool). Keeps (if l then remove (publish_will fails b i) i else b)) [
          | true ↦ publish_will-Keeps b i h
          | false ↦ h
        ]
  step-Keeps b (publish topic payload) h =
      deliver-Keeps b (record { topic = topic; payload = payload; retain = false }) h
  step-Keeps b (refuse_with code) h = h
  step-Keeps b drop_connections h =
      publish_wills-Keeps b.subscribers (record b { subscribers = [] }) h
  step-Keeps b close h = elim (Bool-cases b.closed) [
    | inl e ↦ rw (step, e) h
    | inr e ↦ rw (step, e) h
  ]

  pub run-Keeps_from : (inputs : List Input) (b : Broker) → Keeps b → Keeps (run fails inputs b)
  unfolding run
  run-Keeps_from [] b h = h
  run-Keeps_from (input ∷ inputs) b h =
      run-Keeps_from inputs (step fails b input) (step-Keeps b input h)
