-- ===== src/Examples/Packets.antt =====
-- Packets of a small client: a ping, a connection, a report and a subscription.
use haigosmart.Base.{ℕ, ◌≤◌, ◌≡◌, List, [], ◌∷◌, ◌++◌, true, ok, length, arith}
use haigosmart.Base.Text.{codes, is_empty}
use haigosmart.Protocol.Wire.{read_packet, encode, append_string, type_connect, max_packet_size}
use haigosmart.Protocol.Wire.RoundTrip.{read_packet-encode}
use haigosmart.Protocol.Connect.{
  ConnectOptions, connect_body, connect_flags, encode_connect, decode_connect,
}
use haigosmart.Protocol.Connect.RoundTrip.{decode_connect-encode_connect, connect_of, Fits}

abbrev hello : List ℕ
hello = 104 ∷ 105 ∷ []

read_packet-encode_example :
    read_packet (encode 3 1 hello ++ (7 ∷ []))
    ≡ ok (record { type = 3; flags = 1; payload = hello }, 7 ∷ [])
read_packet-encode_example =
    read_packet-encode 3 1 hello (7 ∷ []) (omega arith) (omega arith) (omega arith)

abbrev options : ConnectOptions
options = record {
  client_id = codes "ha";
  clean_session = true;
  username = codes "u";
  password = codes "p";
  will_topic = codes "status";
  will_payload = codes "offline";
  will_retain = true;
  will_qos = 1;
  keep_alive = 60;
}

options-Fits : Fits options
options-Fits = record {
  client_id = omega arith;
  username = omega arith;
  password = omega arith;
  will_topic = omega arith;
  will_payload = omega arith;
  keep_alive = omega arith;
  will_qos = omega arith;
}

options_small : length (connect_body options) ≤ max_packet_size
unfolding connect_body connect_flags append_string is_empty
options_small = omega arith

decode_connect-encode_connect_example :
    (read_packet (encode_connect options ++ [])
      ≡ ok (record { type = type_connect; flags = 0; payload = connect_body options }, []))
    × (decode_connect (connect_body options) ≡ ok (connect_of options))
decode_connect-encode_connect_example =
    decode_connect-encode_connect options [] options-Fits options_small
