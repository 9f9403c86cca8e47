-- ===== src/Examples/Connections.antt =====
-- Two connections of one bulb, its packets, and what the server remembers.
use haigosmart.Base.{ℕ, ◌+◌, ◌≡◌, refl, List, [], ◌∷◌, true, false, none, some, All, arith, leb}
use haigosmart.Base.Text.{codes, str_eq}
use haigosmart.Base.Assoc
use haigosmart.Protocol.Alink.{Property}
use haigosmart.Bulb.{Bulb, LightState, zero_state, zero_capabilities}
use haigosmart.Events.{Event, Kind, Subscription}
use haigosmart.Events.Queue.{offer_all, offer_all-newest, newest, excess}
use haigosmart.Protocol.Wire.{Packet, type_pingreq}
use haigosmart.Registry.{find, first_entry}
use haigosmart.Server.{note_takeover, note_rejection, rejection_window}
use haigosmart.Server.Takeovers.{note_takeover_warns, note_all, within_minute}
use haigosmart.Server.Refusals.{refusals, refusals_burst, IsSilent}
use haigosmart.Session.{
  Environment, World, Session, register, leave, report_disconnect, Pending, confirmed,
  rejected_with,
}
use haigosmart.Session.Packets.{handle}
use haigosmart.Session.Apply.{Reply, unconfirmed, apply}
use haigosmart.Session.Apply.Delivered.{Applied, apply-Applied}
use haigosmart.Session.History.{History, handle-History}
use haigosmart.Session.Answers.{register_takeover, deliver_all, deliver_all-first, answer_of}

abbrev environment : Environment
environment = record {
  post = λ p. none;
  service_reply = λ p. none;
  ota_version = λ p. [];
  ntp_response = λ t now. [];
  post_reply = λ id. [];
  accepts = λ p. true;
  suppressed = λ n since. [];
}

abbrev lamp : Bulb
lamp = first_entry (codes "B2") (codes "10.0.0.3") zero_capabilities 5

abbrev world : World
world = record {
  registry = record { bulbs = (codes "B2", lamp) ∷ []; saves = 1 };
  takeovers = [];
  rejects = [];
  published = [];
}

abbrev connection : ℕ → Session
connection i = record {
  self = i;
  identity = record { device_name = codes "A1"; product_key = codes "pk" };
  remote_addr = codes "10.0.0.2";
  keep_alive = 0;
  reported = false;
  waiting = [];
  pending = [];
  pending_seq = [];
}

abbrev ping : Packet
ping = record { type = type_pingreq; flags = 0; payload = [] }

lamp_found : find world.registry (codes "B2") ≡ some lamp
unfolding Assoc.get str_eq
lamp_found = refl

handle-History_example :
    History
      (codes "A1")
      world.registry
      (handle environment world (connection 1) ping 9).world.registry
handle-History_example = handle-History environment world (connection 1) ping 9

register_takeover_example :
    (report_disconnect (register world (connection 2) 9) (connection 1) 12 []
      ≡ register world (connection 2) 9)
    × (leave (register world (connection 2) 9) (connection 1) ≡ register world (connection 2) 9)
register_takeover_example =
    register_takeover world (connection 1) (connection 2) 9 12 [] refl (λ e. omega (arith, e))

abbrev answered : List Pending
answered = (record { ident = 4; answer = some confirmed }) ∷ []

deliver_all-first_example :
    answer_of (deliver_all answered ((4, rejected_with 500) ∷ [])) 4 ≡ some confirmed
unfolding answer_of
deliver_all-first_example =
    deliver_all-first ((4, rejected_with 500) ∷ []) answered 4 confirmed refl

abbrev news : ℕ → Event
news now = record {
  at = now;
  kind = Kind.connected;
  device_id = codes "A1";
  name = [];
  changed = [];
  detail = [];
}

abbrev screen : Subscription
screen = record { ident = 0; queue = []; depth = 2; dropped = 0 }

offer_all-newest_example :
    ((offer_all screen (news 1 ∷ news 2 ∷ news 3 ∷ [])).queue
      ≡ newest 2 (news 1 ∷ news 2 ∷ news 3 ∷ []))
    × ((offer_all screen (news 1 ∷ news 2 ∷ news 3 ∷ [])).dropped
        ≡ 0 + excess 2 (news 1 ∷ news 2 ∷ news 3 ∷ []))
offer_all-newest_example =
    offer_all-newest (news 1 ∷ news 2 ∷ news 3 ∷ []) screen (omega arith) (omega arith)

note_takeover_warns_example :
    (note_takeover (note_all [] (codes "A1") (7 ∷ 3 ∷ [])) (codes "A1") 9).1
    ≡ leb 3 (within_minute 9 (9 ∷ 7 ∷ 3 ∷ []))
unfolding Assoc.get
note_takeover_warns_example =
    note_takeover_warns [] (codes "A1") 9 (7 ∷ 3 ∷ []) refl (omega arith, (omega arith, tt))

refusals_burst_example :
    let burst = refusals (note_rejection [] (codes "A1") 5).0 (codes "A1") (8 ∷ 9 ∷ []) in
    ((note_rejection [] (codes "A1") 5).1.report ≡ true)
    × All IsSilent burst.1
    × ((note_rejection burst.0 (codes "A1") (6 + rejection_window)).1
        ≡ record { report = true; suppressed = 2; since = 8 })
unfolding Assoc.get
refusals_burst_example =
    refusals_burst [] (codes "A1") 5 (6 + rejection_window) (8 ∷ 9 ∷ []) refl
      (omega arith, (omega arith, tt)) (omega arith)

abbrev lit : LightState
lit = record zero_state { power = true; brightness = 40 }

abbrev silent : Property → Reply
silent p = unconfirmed

apply-Applied_example : Applied silent lamp lit (apply silent world.registry (codes "B2") lit)
apply-Applied_example = apply-Applied silent world.registry (codes "B2") lit lamp lamp_found
