-- ===== src/TestBroker.antt =====
-- internal/mqtt/mqtttest/broker.go: the broker that the tests of the client run against. A goroutine's
-- work between two holds of the broker's mutex is a step; a history is a list of what reaches it.
pub mod Serving
pub mod Topic
pub mod Will
pub mod Kept
pub mod Logged
pub mod Delivery
use haigosmart.Base.{
  ℕ, zero, suc, ◌+◌, ◌*◌, ◌/◌, ◌%◌, List, [], ◌∷◌, ◌++◌, Bool, true, false, not, ◌&&◌, ◌||◌, Option,
  none, some, ltb, leb, ◌==◌, if◌then◌else◌, length, get_elem?, take, drop, Result, ok, err,
}
use haigosmart.Base.Text.{Str, codes, str_eq, split, is_empty}
use haigosmart.Base.Assoc
use haigosmart.Base.Assoc.{Map}
use haigosmart.Protocol.Wire.{
  byte_at, uint16, Packet, qos, retained, type_connect, type_connack, type_publish, type_subscribe,
  type_pingreq, type_disconnect,
}
use haigosmart.Protocol.Connect.{Connect, has_flag, decode_connect, connack_accepted}
use haigosmart.Protocol.Publish.{decode_publish, encode_publish, encode_puback}
use haigosmart.Protocol.Subscribe.{decode_subscribe, encode_suback}

pub record Message : Type 0 where
  pub topic : Str
  pub payload : List ℕ
  pub retain : Bool

-- A `session`: its subscriptions, its will, and all that was written to its connection. `live` says
-- that its goroutine still reads.
pub record Peer : Type 0 where
  pub topics : List Str
  pub will : Option Message
  pub written : List (List ℕ)
  pub live : Bool

abbrev pub new_peer : Peer
new_peer = record { topics = []; will = none; written = []; live = false }

-- A session's address is a number, and `peers` is what stands there.
pub record Broker : Type 0 where
  pub messages : List Message
  pub kept : Map Message
  pub subscribers : List ℕ
  pub peers : ℕ → Peer
  pub connects : ℕ
  pub credentials : List (Str × Str)
  pub refuse_code : ℕ
  pub closed : Bool

unfoldable pub start : Broker
start = record {
  messages = [];
  kept = [];
  subscribers = [];
  peers = λ i. new_peer;
  connects = 0;
  credentials = [];
  refuse_code = 0;
  closed = false;
}

unfoldable pub set_peer : Broker → ℕ → Peer → Broker
set_peer b i p = record b { peers = λ j. if j == i then p else b.peers j }

-- The loop over the filter's parts, at the index i; the length of the filter is i at its end.
unfoldable pub match_from : List Str → List Str → ℕ → Bool
unfolding str_eq
match_from [] t i = i == length t
match_from (part ∷ f) t i =
    let rest = match_from f t (i + 1) in
    if str_eq part (codes "#") then true else elim (get_elem? t i) [
      | none ↦ false
      | some x ↦ if not (str_eq part (codes "+")) && not (str_eq part x) then false else rest
    ]

unfoldable pub topic_matches : Str → Str → Bool
unfolding match_from split
topic_matches filter topic = match_from (split b'/' filter) (split b'/' topic) 0

unfoldable pub any_matches : List Str → Str → Bool
unfolding topic_matches
any_matches [] topic = false
any_matches (filter ∷ filters) topic =
    if topic_matches filter topic then true else any_matches filters topic

-- The log, and what is kept for later subscribers: an empty retained payload clears it.
unfoldable pub record_message : Broker → Message → Broker
unfolding is_empty Assoc.put Assoc.delete
record_message b m = record b {
  messages = b.messages ++ (m ∷ []);
  kept =
      if m.retain
      then (if is_empty m.payload then Assoc.delete b.kept m.topic else Assoc.put b.kept m.topic m)
      else b.kept;
}

unfoldable pub kept_matching : Map Message → Str → List Message
unfolding topic_matches
kept_matching [] filter = []
kept_matching ((topic, m) ∷ kept) filter =
    let rest = kept_matching kept filter in if topic_matches filter topic then m ∷ rest else rest

unfoldable pub without : List ℕ → ℕ → List ℕ
without [] i = []
without (j ∷ js) i = let rest = without js i in if j == i then js else j ∷ rest

-- `remove`, and the end of the goroutine.
unfoldable pub remove : Broker → ℕ → Broker
unfolding without set_peer
remove b i =
    set_peer (record b { subscribers = without b.subscribers i }) i
      (record (b.peers i) { live = false })

-- readStr of captureWill: a string behind its length, and the index behind it.
unfoldable pub read_str : List ℕ → ℕ → Option (Str × ℕ)
read_str payload i =
    if ltb (length payload) (i + 2)
    then none
    else if ltb (length payload) (i + 2 + uint16 (drop i payload))
    then none
    else some
        (take (uint16 (drop i payload)) (drop (i + 2) payload), i + 2 + uint16 (drop i payload))

unfoldable pub capture_will : List ℕ → Option Message
unfolding read_str
capture_will payload =
    if ltb (length payload) 10
    then none
    else if has_flag (byte_at payload 7) 4
    then elim (read_str payload 10) [
      | none ↦ none
      | some (client, i) ↦ elim (read_str payload i) [
        | none ↦ none
        | some (topic, j) ↦ elim (read_str payload j) [
          | none ↦ none
          | some (body, k) ↦
              some
                (record { topic = topic; payload = body; retain = has_flag (byte_at payload 7) 32 })
        ]
      ]
    ]
    else none
