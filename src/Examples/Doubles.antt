-- ===== src/Examples/Doubles.antt =====
-- The test broker with one subscriber.
use haigosmart.Base.{
  ℕ, ◌≡◌, ◌≢◌, ◌↔◌, refl, List, [], ◌∷◌, ◌++◌, true, false, ◌&&◌, none, arith, ◌==◌, if◌then◌else◌,
}
use haigosmart.Base.Text.{codes}
use haigosmart.Base.Assoc
use haigosmart.Base.Assoc.{Map}
use haigosmart.Mqtt.{handler_for}
use haigosmart.Protocol.Connect.{ConnectOptions, connect_body, connect_flags, decode_connect}
use haigosmart.Protocol.Connect.RoundTrip.{Fits}
use haigosmart.TestBroker.{Message, Broker, start, set_peer, new_peer, any_matches, capture_will}
use haigosmart.TestBroker.Serving.{
  Input, deliver, run, opened, received, step, connect, welcome, write,
}
use haigosmart.TestBroker.Topic.{keys, any_matches-handler_for}
use haigosmart.TestBroker.Will.{will_of, capture_will-connect_body}
use haigosmart.TestBroker.Kept.{left_by, newest}
use haigosmart.TestBroker.Logged.{carried, run-Keeps}
use haigosmart.Protocol.Wire.{Packet, qos, read_string, append_string, type_connect, type_publish}
use haigosmart.Protocol.Publish.{Publish, decode_publish}
use haigosmart.TestBroker.Delivery.{elem, takes, given, deliver_peers}

abbrev options : ConnectOptions
options = record {
  client_id = codes "c";
  username = [];
  password = [];
  keep_alive = 30;
  clean_session = true;
  will_topic = codes "s";
  will_payload = 7 ∷ [];
  will_qos = 1;
  will_retain = true;
}

-- A client that has connected, and its retained message of the topic "a" with the payload 7.
abbrev inputs : List Input
inputs = opened 0 (record { type = type_connect; flags = 0; payload = connect_body options }) ∷ []

abbrev sent : Packet
sent = record { type = type_publish; flags = 1; payload = 0 ∷ 1 ∷ b'a' ∷ 7 ∷ [] }

abbrev body : Publish
body = record { topic = codes "a"; packet_id = 0; payload = 7 ∷ [] }

run-Keeps_example :
    let b = run (λ i. false) inputs start in
    let b' = step (λ i. false) b (received 0 sent) in
    (Assoc.get b.kept (codes "a") ≡ newest (codes "a") b.messages none)
    × (b'.messages ≡ b.messages ++ (carried sent body ∷ []))
    × (Assoc.get b'.kept (codes "a")
        ≡ left_by (codes "a") (carried sent body) (Assoc.get b.kept (codes "a")))
unfolding decode_publish read_string qos run step connect welcome decode_connect connect_body
    connect_flags append_string write set_peer start
run-Keeps_example = run-Keeps (λ i. false) inputs 0 sent body (codes "a") refl refl refl refl

abbrev handlers : Map ℕ
handlers = (codes "a/+", 1) ∷ []

any_matches-handler_for_example :
    (any_matches (keys handlers) (codes "a/b") ≡ true) ↔ (handler_for handlers (codes "a/b") ≢ none)
any_matches-handler_for_example = any_matches-handler_for handlers (codes "a/b")

options_fit : Fits options
options_fit = record {
  client_id = omega arith;
  username = omega arith;
  password = omega arith;
  will_topic = omega arith;
  will_payload = omega arith;
  keep_alive = omega arith;
  will_qos = omega arith;
}

capture_will-connect_body_example : capture_will (connect_body options) ≡ will_of options
capture_will-connect_body_example = capture_will-connect_body options options_fit

abbrev two_subscribers : Broker
two_subscribers = record {
  messages = [];
  kept = [];
  subscribers = 0 ∷ 1 ∷ [];
  peers =
      λ i. if i == 0 then record new_peer { topics = codes "a/+" ∷ codes "#" ∷ [] } else new_peer;
  connects = 2;
  credentials = [];
  refuse_code = 0;
  closed = false;
}

abbrev news : Message
news = record { topic = codes "a/b"; payload = 7 ∷ []; retain = false }

deliver_peers_example :
    ((deliver (λ i. false) two_subscribers news).messages ≡ [] ++ (news ∷ []))
    × ((deliver (λ i. false) two_subscribers news).peers 0 ≡ (
        if elem 0 (0 ∷ 1 ∷ []) && takes (λ i. false) two_subscribers news 0
        then given (two_subscribers.peers 0) news
        else two_subscribers.peers 0))
deliver_peers_example = deliver_peers (λ i. false) two_subscribers news 0 (refl, (refl, tt))
