-- ===== src/TestBroker/Logged.antt =====
-- internal/mqtt/mqtttest/broker.go: what the broker logs of a publish, and keeps of it.
use haigosmart.Base.{
  ℕ, ◌≡◌, refl, sym, ap, ◌∙◌, inl, inr, List, [], ◌∷◌, ◌++◌, Bool, true, false, none, ◌==◌,
  Bool-cases, ok,
}
use haigosmart.Base.Text.{Str}
use haigosmart.Base.Assoc
use haigosmart.Base.Assoc.{Map, get-put, get-delete}
use haigosmart.Protocol.Wire.{Packet, qos, retained, type_pingreq, type_subscribe, type_publish}
use haigosmart.Protocol.Publish.{Publish, decode_publish, encode_puback}
use haigosmart.TestBroker.{Message, Broker, start, set_peer, record_message}
use haigosmart.TestBroker.Serving.{
  Input, write, deliver, handle, handle_publish, settle, step, run, received,
}
use haigosmart.TestBroker.Kept.{
  left_by, newest, newest-append, write-SameLog, offer-SameLog, step-Keeps, run-Keeps_from,
}

-- The message of a PUBLISH that was decoded.
abbrev pub carried : Packet → Publish → Message
carried p m = record { topic = m.topic; payload = m.payload; retain = retained p }

settled_messages :
    (i : ℕ) (out : Broker × Bool) → out.1 ≡ true → (settle i out).messages ≡ out.0.messages
unfolding settle
settled_messages i (b, true) h = refl
settled_messages i (b, false) h = cc

module _ (fails : ℕ → Bool) where
  -- A PUBLISH of a session that still reads, decoded and, at QoS 1, acknowledged.
  handle_publish-messages :
      (b : Broker) (i : ℕ) (p : Packet) (m : Publish)
      → decode_publish p.payload (qos p) ≡ ok m
      → fails i ≡ false
      → (handle_publish fails b i p).0.messages ≡ b.messages ++ (carried p m ∷ [])
        × ((handle_publish fails b i p).1 ≡ true)
  unfolding handle_publish write deliver record_message set_peer
  handle_publish-messages b i p m decoded works = elim (Bool-cases (qos p == 1)) [
    | inl ack ↦
        let acked = write fails b i (encode_puback m.packet_id) in
        let wrote : acked.1 ≡ true = rw (write, works) refl in
        rw (handle_publish, decoded, ack, wrote)
          (
            (offer-SameLog fails acked.0.subscribers (carried p m)
                  (record_message acked.0 (carried p m))).1
                ∙ ap (λ ms. ms ++ (carried p m ∷ []))
                    (write-SameLog fails b i (encode_puback m.packet_id)).1,
            refl,
          )
    | inr no_ack ↦
        rw (handle_publish, decoded, no_ack)
          (
            (offer-SameLog fails b.subscribers (carried p m) (record_message b (carried p m))).1,
            refl,
          )
  ]

  step-messages :
      (b : Broker) (i : ℕ) (p : Packet) (m : Publish)
      → (b.peers i).live ≡ true
      → p.type ≡ type_publish
      → decode_publish p.payload (qos p) ≡ ok m
      → fails i ≡ false
      → (step fails b (received i p)).messages ≡ b.messages ++ (carried p m ∷ [])
  unfolding step handle settle
  step-messages b i p m live typed decoded works =
      let (logged, more) = handle_publish-messages b i p m decoded works in
      let no_ping : (p.type == type_pingreq) ≡ false = rw typed refl in
      let no_subscribe : (p.type == type_subscribe) ≡ false = rw typed refl in
      let is_publish : (p.type == type_publish) ≡ true = rw typed refl in
      rw (step, live, handle, no_ping, no_subscribe, is_publish)
        (settled_messages i (handle_publish fails b i p) more ∙ logged)

  -- After anything that clients and tests did to a broker, what it keeps on a topic is what the newest
  -- retained message of its log left there: that message, or nothing if its payload was empty or there
  -- was none. A PUBLISH that then comes from a session that still reads, is decoded and can be answered
  -- is logged with its topic, its payload and its retain flag, and on every topic leaves what such a
  -- message leaves there.
  pub run-Keeps :
      (inputs : List Input) (i : ℕ) (p : Packet) (m : Publish) (topic : Str)
      → ((run fails inputs start).peers i).live ≡ true
      → p.type ≡ type_publish
      → decode_publish p.payload (qos p) ≡ ok m
      → fails i ≡ false
      → let b = run fails inputs start in
        let b' = step fails b (received i p) in
        (Assoc.get b.kept topic ≡ newest topic b.messages none)
        × (b'.messages ≡ b.messages ++ (carried p m ∷ []))
        × (Assoc.get b'.kept topic ≡ left_by topic (carried p m) (Assoc.get b.kept topic))
  unfolding start newest Assoc.get
  run-Keeps inputs i p m topic live typed decoded works =
      let b = run fails inputs start in
      let kept = run-Keeps_from fails inputs start (λ t. refl) in
      let logged = step-messages b i p m live typed decoded works in
      (
        kept topic,
        logged,
        step-Keeps fails b (received i p) kept topic
            ∙ (ap (λ ms. newest topic ms none) logged
                ∙ (newest-append topic b.messages none (carried p m)
                    ∙ ap (left_by topic (carried p m)) (sym (kept topic)))),
      )
