-- ===== src/Examples/Broker.antt =====
-- A client of the broker with one subscription.
use haigosmart.Base.{
  ℕ, ◌-◌, ◌%◌, ◌+◌, ◌<◌, ◌≡◌, ◌≢◌, ◌↔◌, refl, List, [], ◌∷◌, ◌++◌, Bool, true, false, none, some,
  err, arith, inl,
}
use haigosmart.Base.Int.{pos}
use haigosmart.Base.Text.{codes}
use haigosmart.Protocol.Error.{eof}
use haigosmart.Protocol.Wire.{Packet, append_string, read_packet}
use haigosmart.Protocol.Connect.{connack_accepted}
use haigosmart.Mqtt.{Client, Call}
use haigosmart.Mqtt.Topic.{topic_matches}
use haigosmart.Mqtt.Topic.Matching.{Matches, join, topic_matches_iff}
use haigosmart.Mqtt.PacketId.{packet_id_after, packet_id_after_lem}
use haigosmart.Mqtt.Loop.{read_all}
use haigosmart.Mqtt.Loop.Delivery.{Inbound, message, other, stream, calls_for, read_all-stream}
use haigosmart.Mqtt.Session.{establish, session, End}
use haigosmart.Mqtt.Session.Established.{Ready, establish-Ready}
use haigosmart.Mqtt.Session.Ended.{session_total}

topic_matches_iff_example :
    (topic_matches (join (codes "a") (codes "+" ∷ [])) (join (codes "a") (codes "b" ∷ [])) ≡ true)
    ↔ Matches (codes "a" ∷ codes "+" ∷ []) (codes "a" ∷ codes "b" ∷ [])
topic_matches_iff_example =
    topic_matches_iff (codes "a") (codes "a") (codes "+" ∷ []) (codes "b" ∷ []) (refl, tt)
      ((refl, tt), tt) (refl, tt) ((refl, tt), tt)

packet_id_after_lem_example :
    (packet_id_after 3 65534 ≡ (65534 - 1 + 3) % 65535 + 1)
    × (0 < packet_id_after 3 65534)
    × (packet_id_after 3 65534 < 65536)
    × (0 < 3 → 3 < 65535 → packet_id_after 3 65534 ≢ 65534)
packet_id_after_lem_example = packet_id_after_lem 3 65534 (omega arith) (omega arith)

abbrev client : Client
client = record {
  options = record {
    broker = codes "b";
    client_id = codes "c";
    username = [];
    password = [];
    keep_alive = pos 30_000_000_000;
    will_topic = [];
    will_payload = [];
    will_retain = false;
  };
  handlers = (codes "a/+", 5) ∷ [];
  packet_id = 0;
  connection = none;
  sent = [];
}

abbrev never : List ℕ → Bool
never packet = false

abbrev pong : Packet
pong = record { type = 13; flags = 0; payload = [] }

abbrev inbound : List Inbound
inbound = other pong ∷ message (codes "a/b") (1 ∷ []) true ∷ []

nothing_left : read_packet [] ≡ err eof
unfolding read_packet
nothing_left = refl

read_all-stream_example :
    read_all never client (stream inbound ++ []) ≡ some (client, calls_for client inbound, eof)
unfolding append_string
read_all-stream_example =
    read_all-stream never client inbound [] eof
      ((omega arith, omega arith, omega arith, inl refl), ((omega arith, omega arith), tt))
      nothing_left

establish-Ready_example :
    Ready client 1 connack_accepted (establish never client 1 connack_accepted)
establish-Ready_example = establish-Ready never client 1 connack_accepted refl

session_total_example :
    (c' : Client) × (calls : List Call) × (e : End) × (session never client 1 connack_accepted
      ≡ some (c', calls, e))
    × (c'.connection ≡ none)
    × (c'.handlers ≡ client.handlers)
    × Ready c' 2 connack_accepted (establish never c' 2 connack_accepted)
session_total_example = session_total never client 1 connack_accepted 2 connack_accepted refl
