-- ===== src/Mqtt/Session.antt =====
-- internal/mqtt/client.go: how a connection comes up, handshake and session as far as the read loop.
-- The bytes that the broker sends are a list; dialling and deadlines are left out.
pub mod Established
pub mod Ended
use haigosmart.Base.{
  ℕ, zero, suc, ◌/◌, ◌%◌, List, [], ◌∷◌, Bool, true, false, not, Option, none, some, ◌==◌,
  if◌then◌else◌, Result, ok, err,
}
use haigosmart.Base.Int.{ℤ, pos, negsuc, pos_part}
use haigosmart.Base.Text.{Str}
use haigosmart.Base.Assoc.{Map}
use haigosmart.Protocol.Error.{Error}
use haigosmart.Protocol.Wire.{read_packet, type_connack}
use haigosmart.Protocol.Connect.{
  ConnectOptions, encode_connect, decode_connack, connack_reason, connack_accepted_code,
}
use haigosmart.Mqtt.{
  Options, Client, ClientError, sending_connect, reading_connack, bad_connack, expected_connack,
  refused, second, send_subscribe, Call,
}
use haigosmart.Mqtt.Loop.{read_all}

-- The options of the CONNECT packet; `KeepAlive` is positive, as New makes it.
abbrev pub connect_options : Options → ConnectOptions
connect_options o = record {
  client_id = o.client_id;
  keep_alive = pos_part o.keep_alive / second % 65536;
  username = o.username;
  password = o.password;
  will_topic = o.will_topic;
  will_payload = o.will_payload;
  will_retain = o.will_retain;
  will_qos = 0;
  clean_session = true;
}

-- What the broker sends behind its CONNACK is what is left to read.
unfoldable pub handshake : (List ℕ → Bool) → Options → List ℕ → Result ClientError (List ℕ)
handshake fails o r =
    if fails (encode_connect (connect_options o))
    then err sending_connect
    else elim (read_packet r) [
      | err e ↦ err (reading_connack e)
      | ok (p, rest) ↦
          if not (p.type == type_connack)
          then err (expected_connack p.type)
          else elim (decode_connack p.payload) [
            | err e ↦ err (bad_connack e)
            | ok (present, code) ↦
                if not (code == connack_accepted_code)
                then err (refused (connack_reason code))
                else ok rest
          ]
    ]

-- The filters of the registered handlers, in the order of the range.
abbrev pub filters_of : Map ℕ → List Str
filters_of [] = []
filters_of ((filter, handler) ∷ m) = filter ∷ filters_of m

-- The subscriptions of the previous connection, up to the first that fails.
unfoldable pub resubscribe : (List ℕ → Bool) → Client → List Str → Client × Option ClientError
resubscribe fails c [] = (c, none)
resubscribe fails c (filter ∷ filters) =
    let (c', failure) = send_subscribe fails c filter in
    elim failure [ some e ↦ (c', some e) | none ↦ resubscribe fails c' filters ]

-- The deferred reset at the end of a session.
abbrev pub hung_up : Client → Client
hung_up c = record c { connection = none }

-- A session up to its read loop, on connection `conn`: what is left to read, or why it ended.
unfoldable pub establish :
    (List ℕ → Bool) → Client → ℕ → List ℕ → Client × Result ClientError (List ℕ)
establish fails c conn r = elim (handshake fails c.options r) [
  | err e ↦ (c, err e)
  | ok rest ↦
      let up = record c {
        connection = some conn;
        sent = encode_connect (connect_options c.options) ∷ [];
      } in
      let (c', failure) = resubscribe fails up (filters_of c.handlers) in
      elim failure [ some e ↦ (hung_up c', err e) | none ↦ (c', ok rest) ]
]

-- Why a session ended.
pub data End : Type 0 where
  not_up : ClientError → End
  lost : Error → End

-- The whole session, with the calls of handlers. `none` is no Go value: the fuel of the loop ran out.
unfoldable pub session : (List ℕ → Bool) → Client → ℕ → List ℕ → Option (Client × List Call × End)
session fails c conn r =
    let (c', up) = establish fails c conn r in
    elim up [
      | err e ↦ some (c', [], not_up e)
      | ok rest ↦ elim (read_all fails c' rest) [
        | none ↦ none
        | some (c'', calls, e) ↦ some (hung_up c'', calls, lost e)
      ]
    ]
