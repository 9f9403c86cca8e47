-- ===== src/Mqtt/Session/Established.antt =====
-- What a connection that has come up has sent.
use haigosmart.Base.{
  ℕ, ◌≡◌, refl, ◌∙◌, List, [], ◌∷◌, ◌++◌, Bool, true, false, none, some, ◌==◌, ==_iff, Result, ok,
  err, Result-cases, Option-cases, Bool-cases, inl, inr, ◌⊎◌,
}
use mathlib.Core.List.{append_assoc, append-nil}
use haigosmart.Base.Text.{Str}
use haigosmart.Protocol.Wire.{Packet, read_packet, type_connack}
use haigosmart.Protocol.Connect.{
  encode_connect, decode_connack, connack_accepted_code, connack_reason,
}
use haigosmart.Protocol.Subscribe.{encode_subscribe}
use haigosmart.Mqtt.{
  Options, Client, ClientError, write_failed, sending_connect, reading_connack, expected_connack,
  bad_connack, refused, next_packet_id, take_packet_id, send_subscribe,
}
use haigosmart.Mqtt.Session.{connect_options, handshake, filters_of, resubscribe, establish}

-- One SUBSCRIBE for each filter, with the packet ids that follow id.
abbrev pub subscriptions : ℕ → List Str → List (List ℕ)
subscriptions id [] = []
subscriptions id (filter ∷ filters) =
    encode_subscribe (next_packet_id id) 0 (filter ∷ []) ∷ subscriptions (next_packet_id id) filters

abbrev pub last_id : ℕ → List Str → ℕ
last_id id [] = id
last_id id (filter ∷ filters) = last_id (next_packet_id id) filters

-- What a session that is up has done, and what one that ended has left.
abbrev pub Ready : Client → ℕ → List ℕ → Client × Result ClientError (List ℕ) → Type 0
Ready c conn r (c', ok rest) =
    (c' ≡ record c {
      connection = some conn;
      packet_id = last_id c.packet_id (filters_of c.handlers);
      sent =
          encode_connect (connect_options c.options)
          ∷ subscriptions c.packet_id (filters_of c.handlers);
    })
    × ((p : Packet) × (present : Bool) × (read_packet r ≡ ok (p, rest))
        × (p.type ≡ type_connack)
        × (decode_connack p.payload ≡ ok (present, connack_accepted_code)))
Ready c conn r (c', err e) = (c'.connection ≡ none) × (c'.handlers ≡ c.handlers)

-- The client after a subscription that was sent.
abbrev subscribed : Client → Str → Client
subscribed c filter = record c {
  packet_id = next_packet_id c.packet_id;
  sent = c.sent ++ encode_subscribe (next_packet_id c.packet_id) 0 (filter ∷ []) ∷ [];
}

send_subscribe_cases :
    (fails : List ℕ → Bool) (c : Client) (conn : ℕ) (filter : Str)
    → c.connection ≡ some conn
    → (((send_subscribe fails c filter).0 ≡ subscribed c filter)
        × ((send_subscribe fails c filter).1 ≡ none))
      ⊎ (((send_subscribe fails c filter).0 ≡ take_packet_id c)
          × ((send_subscribe fails c filter).1 ≡ some write_failed))
unfolding send_subscribe
send_subscribe_cases fails c conn filter up =
    elim (Bool-cases (fails (encode_subscribe (next_packet_id c.packet_id) 0 (filter ∷ [])))) [
      | inl bad ↦ inr (rw (up, bad) (refl, refl))
      | inr good ↦ inl (rw (up, good) (refl, refl))
    ]

resubscribe_lem :
    (fails : List ℕ → Bool) (filters : List Str) (c : Client) (conn : ℕ)
    → c.connection ≡ some conn
    → (resubscribe fails c filters).1 ≡ none
    → (resubscribe fails c filters).0 ≡ record c {
      packet_id = last_id c.packet_id filters;
      sent = c.sent ++ subscriptions c.packet_id filters;
    }
unfolding resubscribe
resubscribe_lem fails [] c conn up fine = rw append-nil refl
resubscribe_lem fails (filter ∷ filters) c conn up fine =
    elim (send_subscribe_cases fails c conn filter up) [
      | inr (after, bad) ↦
          let wrong : some write_failed ≡ none = rw (resubscribe, bad) at fine in cc
      | inl (after, good) ↦
          let rest = rw (resubscribe, good, after) at fine in
          rw (resubscribe, good, after)
            (resubscribe_lem fails filters (subscribed c filter) conn up rest
              ∙ rw append_assoc refl)
    ]

resubscribe-handlers :
    (fails : List ℕ → Bool) (filters : List Str) (c : Client) (conn : ℕ)
    → c.connection ≡ some conn
    → (resubscribe fails c filters).0.handlers ≡ c.handlers
unfolding resubscribe
resubscribe-handlers fails [] c conn up = refl
resubscribe-handlers fails (filter ∷ filters) c conn up =
    elim (send_subscribe_cases fails c conn filter up) [
      | inr (after, bad) ↦ rw (resubscribe, bad, after) refl
      | inl (after, good) ↦
          rw (resubscribe, good, after)
            (resubscribe-handlers fails filters (subscribed c filter) conn up)
    ]

-- What the handshake checks before it returns.
handshake-ok :
    (fails : List ℕ → Bool) (o : Options) (r rest : List ℕ)
    → handshake fails o r ≡ ok rest
    → (p : Packet) × (present : Bool) × (read_packet r ≡ ok (p, rest))
      × (p.type ≡ type_connack)
      × (decode_connack p.payload ≡ ok (present, connack_accepted_code))
unfolding handshake
handshake-ok fails o r rest h = elim (Bool-cases (fails (encode_connect (connect_options o)))) [
  | inl bad ↦ let wrong : err sending_connect ≡ ok rest = rw (handshake, bad) at h in cc
  | inr good ↦ elim (Result-cases (read_packet r)) [
    | inr (e, x) ↦
        let wrong : err (reading_connack e) ≡ ok rest = rw (handshake, good, x) at h in cc
    | inl ((p, rest'), x) ↦ accepted p rest' good x (Bool-cases (p.type == type_connack))
  ]
]
  where
    accepted :
        (p : Packet) (rest' : List ℕ)
        → fails (encode_connect (connect_options o)) ≡ false
        → read_packet r ≡ ok (p, rest')
        → ((p.type == type_connack) ≡ true) ⊎ ((p.type == type_connack) ≡ false)
        → (q : Packet) × (present : Bool) × (read_packet r ≡ ok (q, rest))
          × (q.type ≡ type_connack)
          × (decode_connack q.payload ≡ ok (present, connack_accepted_code))
    accepted p rest' good x (inr t) =
        let wrong : err (expected_connack p.type) ≡ ok rest = rw (handshake, good, x, t) at h in cc
    accepted p rest' good x (inl t) = elim (Result-cases (decode_connack p.payload)) [
      | inr (e, y) ↦
          let wrong : err (bad_connack e) ≡ ok rest = rw (handshake, good, x, t, y) at h in cc
      | inl ((present, code), y) ↦ elim (Bool-cases (code == connack_accepted_code)) [
        | inl z ↦
            let same : ok rest' ≡ ok rest = rw (handshake, good, x, t, y, z) at h in
            (
              p,
              present,
              rw x (cc same),
              (==_iff p.type type_connack).0 t,
              rw y (cc ((==_iff code connack_accepted_code).0 z)),
            )
        | inr z ↦
            let wrong : err (refused (connack_reason code)) ≡ ok rest =
              rw (handshake, good, x, t, y, z) at h in
            cc
      ]
    ]

-- A session that gets as far as its read loop has sent one CONNECT and then one SUBSCRIBE for each
-- registered filter, with consecutive packet ids, and the broker has accepted it; a session that ends
-- before has left no connection behind. Either way no handler is lost.
pub establish-Ready :
    (fails : List ℕ → Bool) (c : Client) (conn : ℕ) (r : List ℕ)
    → c.connection ≡ none
    → Ready c conn r (establish fails c conn r)
unfolding establish
establish-Ready fails c conn r down = elim (Result-cases (handshake fails c.options r)) [
  | inr (e, h) ↦ rw (establish, h) (down, refl)
  | inl (rest, h) ↦
      let up = record c {
        connection = some conn;
        sent = encode_connect (connect_options c.options) ∷ [];
      } in
      let filters = filters_of c.handlers in
      elim (Option-cases (resubscribe fails up filters).1) [
        | inr (e, bad) ↦
            rw (establish, h, bad) (refl, resubscribe-handlers fails filters up conn refl)
        | inl fine ↦
            rw (establish, h, fine)
              (
                resubscribe_lem fails filters up conn refl fine,
                handshake-ok fails c.options r rest h,
              )
      ]
]
