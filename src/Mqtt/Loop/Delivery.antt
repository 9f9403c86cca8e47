-- ===== src/Mqtt/Loop/Delivery.antt =====
-- What reaches the handlers of the messages that a broker sends.
use haigosmart.Base.{
  ℕ, ◌≤◌, ◌<◌, ◌≡◌, refl, ◌∙◌, ap, List, [], ◌∷◌, ◌++◌, Bool, false, some, arith, length, ◌==◌,
  if◌then◌else◌, ok, err, inl, inr, All, ◌⊎◌, Bool-cases,
}
use mathlib.Core.List.{append_assoc}
use haigosmart.Base.Text.{Str}
use haigosmart.Protocol.Error.{Error}
use haigosmart.Protocol.Wire.{
  Packet, read_packet, encode, append_string, max_packet_size, type_publish, qos,
}
use haigosmart.Protocol.Wire.RoundTrip.{read_packet-encode}
use haigosmart.Protocol.Publish.{decode_publish, encode_publish, encode_publish_retained}
use haigosmart.Protocol.Publish.RoundTrip.{decode_publish-encode_publish}
use haigosmart.Base.Assoc.{Map}
use haigosmart.Mqtt.Topic.{topic_matches}
use haigosmart.Mqtt.{Client, Call, receive, dispatch, handler_for}
use haigosmart.Mqtt.Loop.{read_all, Framed, stop, more, receive_all, outcome, Framed-read_all}

-- What a broker sends: a message by QoS 0, or a packet that is none or cannot be decoded.
pub data Inbound : Type 0 where
  message : Str → List ℕ → Bool → Inbound
  other : Packet → Inbound

abbrev pub bytes_of : Inbound → List ℕ
bytes_of (message topic payload retain) =
    if retain then encode_publish_retained topic payload else encode_publish topic payload
bytes_of (other p) = encode p.type p.flags p.payload

abbrev pub stream : List Inbound → List ℕ
stream [] = []
stream (m ∷ ms) = bytes_of m ++ stream ms

abbrev pub IsUnreadable : Packet → Type 0
IsUnreadable p =
    (p.type == type_publish ≡ false)
    ⊎ ((failure : Error) × (decode_publish p.payload (qos p) ≡ err failure))

-- It fits the protocol, and the packets that are no message are none.
abbrev pub IsFit : Inbound → Type 0
IsFit (message topic payload retain) =
    (length topic < 65536) × (length (append_string [] topic ++ payload) ≤ max_packet_size)
IsFit (other p) =
    (p.type < 16) × (p.flags < 16) × (length p.payload ≤ max_packet_size) × IsUnreadable p

-- The call of the handler of the first filter that the topic matches, if there is one.
abbrev pub first_call : Map ℕ → Str → List ℕ → List Call
first_call [] topic payload = []
first_call ((filter, h) ∷ handlers) topic payload =
    if topic_matches filter topic
    then record { handler = h; topic = topic; payload = payload } ∷ []
    else first_call handlers topic payload

dispatch-first_call :
    (handlers : Map ℕ) (topic : Str) (payload : List ℕ)
    → dispatch handlers topic payload ≡ first_call handlers topic payload
unfolding dispatch handler_for
dispatch-first_call [] topic payload = refl
dispatch-first_call ((filter, h) ∷ handlers) topic payload =
    elim (Bool-cases (topic_matches filter topic)) [
      | inl found ↦ rw (dispatch, handler_for, found) refl
      | inr missed ↦ rw (dispatch, handler_for, missed) (dispatch-first_call handlers topic payload)
    ]

-- The calls that the messages ask for, in the order in which they were sent.
abbrev pub calls_for : Client → List Inbound → List Call
calls_for c [] = []
calls_for c (message topic payload retain ∷ ms) =
    first_call c.handlers topic payload ++ calls_for c ms
calls_for c (other p ∷ ms) = calls_for c ms

receive-IsUnreadable :
    (fails : List ℕ → Bool) (c : Client) (p : Packet) → IsUnreadable p → receive fails c p ≡ (c, [])
unfolding receive
receive-IsUnreadable fails c p (inl no_publish) = rw no_publish refl
receive-IsUnreadable fails c p (inr (e, bad)) = rw bad (ground arith)

receive_message :
    (fails : List ℕ → Bool) (c : Client) (p : Packet) (topic : Str) (payload : List ℕ)
    → p.type ≡ type_publish
    → qos p ≡ 0
    → decode_publish p.payload (qos p)
      ≡ ok (record { topic = topic; packet_id = 0; payload = payload })
    → receive fails c p ≡ (c, dispatch c.handlers topic payload)
unfolding receive
receive_message fails c p topic payload t q d = rw (d, q, t) refl

stream-Framed :
    (fails : List ℕ → Bool) (c : Client) (ms : List Inbound) (tail : List ℕ) (e : Error)
    → All IsFit ms
    → read_packet tail ≡ err e
    → (ps : List Packet) × Framed (stream ms ++ tail) ps e
      × (receive_all fails c ps ≡ (c, calls_for c ms))
unfolding receive_all
stream-Framed fails c [] tail e h x = ([], stop tail e x, refl)
stream-Framed fails c (message topic payload retain ∷ ms) tail e ((short, small), h) x =
    let (ps, d, same) = stream-Framed fails c ms tail e h x in
    let (p, read, t, q, keep, decoded) =
      decode_publish-encode_publish topic payload short retain (stream ms ++ tail) small in
    (
      p ∷ ps,
      rw (append_assoc (bytes_of (message topic payload retain)) (stream ms) tail)
          (more _ (stream ms ++ tail) p ps e read d),
      rw (receive_message fails c p topic payload t q decoded, same)
          (ap (λ out. (c, out ++ calls_for c ms)) (dispatch-first_call c.handlers topic payload)),
    )
stream-Framed fails c (other p ∷ ms) tail e ((t, f, small, u), h) x =
    let (ps, d, same) = stream-Framed fails c ms tail e h x in
    (
      p ∷ ps,
      rw (append_assoc (encode p.type p.flags p.payload) (stream ms) tail) (
          more _ (stream ms ++ tail) p ps e
            (read_packet-encode p.type p.flags p.payload (stream ms ++ tail) t f small) d),
      rw (receive-IsUnreadable fails c p u, same) refl,
    )

-- Of the QoS 0 messages and other packets that a broker sends, each message reaches the handler of the
-- first filter that its topic matches, once and in the order of sending; packets that are no message
-- or cannot be decoded are skipped, the client is left as it was, and the loop ends only when the
-- bytes behind them cannot be read.
pub read_all-stream :
    (fails : List ℕ → Bool) (c : Client) (ms : List Inbound) (tail : List ℕ) (e : Error)
    → All IsFit ms
    → read_packet tail ≡ err e
    → read_all fails c (stream ms ++ tail) ≡ some (c, calls_for c ms, e)
read_all-stream fails c ms tail e h x =
    let (ps, d, same) = stream-Framed fails c ms tail e h x in
    Framed-read_all fails c d ∙ ap (λ out. outcome out [] e) same
