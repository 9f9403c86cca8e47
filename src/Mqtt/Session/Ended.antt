-- ===== src/Mqtt/Session/Ended.antt =====
-- Every session ends, and what it leaves to the next one.
use haigosmart.Base.{
  ℕ, ◌≡◌, refl, ◌∙◌, ap, List, [], ◌∷◌, Bool, none, some, arith, ◌==◌, Result, ok, err,
  Result-cases, Bool-cases, inl, inr,
}
use haigosmart.Protocol.Wire.{Packet, qos, type_publish}
use haigosmart.Protocol.Publish.{decode_publish, encode_puback}
use haigosmart.Mqtt.{Client, ClientError, Call, write_raw, receive}
use haigosmart.Mqtt.Loop.{receive_all, read_all_total}
use haigosmart.Mqtt.Session.{establish, session, End, not_up, lost, hung_up}
use haigosmart.Mqtt.Session.Established.{Ready, establish-Ready}

write_raw-handlers :
    (fails : List ℕ → Bool) (c : Client) (packet : List ℕ)
    → (write_raw fails c packet).0.handlers ≡ c.handlers
unfolding write_raw
write_raw-handlers fails c packet = ground arith

receive-handlers :
    (fails : List ℕ → Bool) (c : Client) (p : Packet) → (receive fails c p).0.handlers ≡ c.handlers
unfolding receive
receive-handlers fails c p = elim (Bool-cases (p.type == type_publish)) [
  | inr other ↦ rw other refl
  | inl message ↦ elim (Result-cases (decode_publish p.payload (qos p))) [
    | inr (e, bad) ↦ rw (message, bad) refl
    | inl (m, good) ↦ elim (Bool-cases (qos p == 1)) [
      | inl ack ↦ rw (message, good, ack) (write_raw-handlers fails c (encode_puback m.packet_id))
      | inr no_ack ↦ rw (message, good, no_ack) refl
    ]
  ]
]

receive_all-handlers :
    (fails : List ℕ → Bool) (c : Client) (ps : List Packet)
    → (receive_all fails c ps).0.handlers ≡ c.handlers
unfolding receive_all
receive_all-handlers fails c [] = refl
receive_all-handlers fails c (p ∷ ps) =
    receive_all-handlers fails (receive fails c p).0 ps ∙ receive-handlers fails c p

Ready-handlers :
    (c : Client) (conn : ℕ) (r : List ℕ) (out : Client × Result ClientError (List ℕ))
    → Ready c conn r out
    → out.0.handlers ≡ c.handlers
Ready-handlers c conn r (c', ok rest) (e, accepted) = ap Client.handlers e
Ready-handlers c conn r (c', err e) (down, same) = same

Ready-down :
    (c : Client) (conn : ℕ) (r : List ℕ) (e : ClientError)
    (out : Client × Result ClientError (List ℕ))
    → Ready c conn r out
    → out.1 ≡ err e
    → out.0.connection ≡ none
Ready-down c conn r e (c', ok rest) ready x = cc
Ready-down c conn r e (c', err f) (down, same) x = down

-- A session ends whatever the broker sends, on an error; then the client has no connection, and still
-- has the handlers that it had. A next session of this client that gets as far as its read loop has
-- sent one CONNECT and one SUBSCRIBE for each filter of those handlers, and the broker has accepted it;
-- one that ends before leaves no connection and the same handlers.
pub session_total :
    (fails : List ℕ → Bool) (c : Client) (conn : ℕ) (r : List ℕ) (again : ℕ) (later : List ℕ)
    → c.connection ≡ none
    → (c' : Client) × (calls : List Call) × (e : End) × (session fails c conn r
        ≡ some (c', calls, e))
      × (c'.connection ≡ none)
      × (c'.handlers ≡ c.handlers)
      × Ready c' again later (establish fails c' again later)
unfolding session
session_total fails c conn r again later down =
    let ready = establish-Ready fails c conn r down in
    let up = (establish fails c conn r).0 in
    let kept = Ready-handlers c conn r (establish fails c conn r) ready in
    elim (Result-cases (establish fails c conn r).1) [
      | inr (e, x) ↦
          let gone = Ready-down c conn r e (establish fails c conn r) ready x in
          (
            up,
            [],
            not_up e,
            rw (session, x) refl,
            gone,
            kept,
            establish-Ready fails up again later gone,
          )
      | inl (rest, x) ↦
          let (ps, e, d, same) = read_all_total fails up rest in
          let (last, calls) = receive_all fails up ps in
          (
            hung_up last,
            calls,
            lost e,
            rw (session, x, same) refl,
            refl,
            receive_all-handlers fails up ps ∙ kept,
            establish-Ready fails (hung_up last) again later refl,
          )
    ]
