-- ===== src/Session.antt =====
-- internal/server/session.go: one bulb's connection. A step is one packet, or one of the ends of the
-- connection; `written` is what goes out, and what a write returns is the environment's answer.
-- What a packet does stands in Packets.
pub mod Packets
pub mod History
pub mod Answers
pub mod Apply
pub mod Serve
pub mod Connection
use haigosmart.Base.{
  ℕ, ◌+◌, ◌*◌, ◌/◌, ◌≡◌, List, [], ◌∷◌, ◌++◌, Bool, true, false, not, ◌&&◌, ◌||◌, Option, none,
  some, ltb, ◌==◌, length, if◌then◌else◌, Result, ok, err,
}
use haigosmart.Base.Text.{Str, codes, is_empty, has_suffix, contains}
use haigosmart.Base.Assoc
use haigosmart.Base.Assoc.{Map}
use haigosmart.Bulb.{Bulb, FieldChange}
use haigosmart.Events
use haigosmart.Events.{Event, Kind}
use haigosmart.Protocol.Error.{Error as ProtocolError}
use haigosmart.Protocol.Wire.{
  Packet, qos, type_connect, type_pingreq, type_subscribe, type_disconnect, type_publish,
  read_packet,
}
use haigosmart.Protocol.Connect.{
  Connect, decode_connect, connack_accepted, connack_refused_not_authorized,
}
use haigosmart.Protocol.Publish.{Publish, decode_publish, encode_publish, encode_puback}
use haigosmart.Protocol.Subscribe.{decode_subscribe, encode_suback}
use haigosmart.Protocol.Alink.{
  Identity, identity_from_connect, PropertyPost, AlinkValue, decode_property_post, apply_post,
  refine_from_report, capabilities_from_version,
}
use haigosmart.Registry
use haigosmart.Registry.{Registry}
use haigosmart.Server.{Rejection, note_takeover, note_rejection}

-- What encoding/json makes of payloads, and the replies it makes; whether a write succeeds; and what
-- fmt and time make of " (%d attempts since %s)", for a number and a time.
pub record Environment : Type 0 where
  pub post : Str → Option (Str × List (Str × AlinkValue))
  pub service_reply : Str → Option (Str × ℕ)
  pub ota_version : Str → Str
  pub ntp_response : Str → ℕ → Str
  pub post_reply : Str → Str
  pub accepts : List ℕ → Bool
  pub suppressed : ℕ → ℕ → Str

-- The server's shared state.
pub record World : Type 0 where
  pub registry : Registry
  pub takeovers : Map (List ℕ)
  pub rejects : Map Rejection
  pub published : List Event

-- What a pending command has been answered: nil, or the code that it was rejected with.
pub data Answer : Type 0 where
  confirmed : Answer
  rejected_with : ℕ → Answer

-- The channel `done` of a pending command holds at most one answer.
pub record Pending : Type 0 where
  pub ident : ℕ
  pub answer : Option Answer

-- `self` is the session's address, by which the registry knows it as a driver. The two maps of the
-- source point into `waiting` by the pending command's address.
pub record Session : Type 0 where
  pub self : ℕ
  pub identity : Identity
  pub remote_addr : Str
  pub keep_alive : ℕ
  pub reported : Bool
  pub waiting : List Pending
  pub pending : Map ℕ
  pub pending_seq : Map ℕ

pub data Error : Type 0 where
  protocol : ProtocolError → Error
  not_connect : ℕ → Error
  no_identity not_configured write_failed bad_report bad_reply unregistered closed_by_bulb : Error

-- What a step leaves; `error` is `none` for nil.
pub record Outcome : Type 0 where
  pub world : World
  pub session : Session
  pub written : List (List ℕ)
  pub error : Option Error

abbrev pub device_id : Session → Str
device_id s = s.identity.device_name

abbrev pub publish : World → Event → World
publish w e = record w { published = w.published ++ (e ∷ []) }

abbrev pub with_registry : World → Registry → World
with_registry w r = record w { registry = r }

-- s.write(p), as the last thing a step does.
abbrev pub write : Environment → World → Session → List ℕ → Outcome
write env w s p = record {
  world = w;
  session = s;
  written = p ∷ [];
  error = if env.accepts p then none else some write_failed;
}

abbrev pub stop : World → Session → Option Error → Outcome
stop w s e = record { world = w; session = s; written = []; error = e }

-- An event of this session's bulb, under the name it has in the registry.
unfoldable pub event : World → Session → ℕ → Kind → Str → Event
unfolding Assoc.get
event w s now kind detail = record {
  at = now;
  kind = kind;
  device_id = device_id s;
  name = elim (Registry.view w.registry (device_id s)) [ none ↦ [] | some b ↦ b.name ];
  changed = [];
  detail = detail;
}

-- A first CONNECT packet, and what is written; `admit` is the server's Admit, which is true of all
-- where that is nil. The session keeps the identity that it learned from a refused bulb.
unfoldable pub handshake :
    (Str → Bool)
    → Environment
    → Session
    → Result ProtocolError Packet
    → Session × Option Error × List (List ℕ)
unfolding decode_connect identity_from_connect
handshake admit env s (err e) = (s, some (protocol e), [])
handshake admit env s (ok pkt) =
    if not (pkt.type == type_connect)
    then (s, some (not_connect pkt.type), [])
    else elim (decode_connect pkt.payload) [
      | err e ↦ (s, some (protocol e), [])
      | ok c ↦ elim (identity_from_connect c) [
        | none ↦ (s, some no_identity, [])
        | some identity ↦
            let keep_alive =
              if ltb 0 c.keep_alive then c.keep_alive * 1000000000 else s.keep_alive in
            let known : Session = record s { identity = identity; keep_alive = keep_alive } in
            if not (admit identity.device_name)
            then (known, some not_configured, connack_refused_not_authorized ∷ [])
            else (
              known,
              if env.accepts connack_accepted then none else some write_failed,
              connack_accepted ∷ [],
            )
      ]
    ]

abbrev differs : Option ℕ → ℕ → Bool
differs none d = false
differs (some e) d = not (e == d)

unfoldable pub register : World → Session → ℕ → World
unfolding capabilities_from_version Registry.upsert Registry.set_driver note_takeover event
register w s now =
    let (r1, b, is_new) =
      Registry.upsert w.registry (device_id s) s.remote_addr (capabilities_from_version []) now in
    let (r2, prev) = Registry.set_driver r1 (device_id s) s.self in
    let (taken, often) = note_takeover w.takeovers (device_id s) now in
    let w2 = with_registry w r2 in
    let w3 : World =
      if differs prev s.self
      then (let w' : World = record w2 { takeovers = taken } in
          if often then publish w' (event w' s now Kind.duplicate_id s.remote_addr) else w')
      else w2 in
    publish w3 (event w3 s now (if is_new then Kind.discovered else Kind.connected) [])

-- The detail of a rejection names the suppressed attempts, if there were any.
unfoldable pub report_rejection : Environment → World → Session → ℕ → World
unfolding note_rejection
report_rejection env w s now =
    let (rejects, report) = note_rejection w.rejects (device_id s) now in
    let w2 : World = record w { rejects = rejects } in
    if report.report
    then publish w2 (record {
      at = now;
      kind = Kind.rejected;
      device_id = device_id s;
      name = [];
      changed = [];
      detail =
          if ltb 0 report.suppressed
          then s.remote_addr ++ env.suppressed report.suppressed report.since
          else s.remote_addr;
    })
    else w2

-- A session that no longer owns the driver says nothing.
unfoldable pub report_disconnect : World → Session → ℕ → Str → World
unfolding Registry.driver event
report_disconnect w s now detail = elim (Registry.driver w.registry (device_id s)) [
  | none ↦ w
  | some d ↦ if d == s.self then publish w (event w s now Kind.disconnected detail) else w
]

-- The deferred end of `serve`.
unfoldable pub leave : World → Session → World
unfolding Registry.disconnect
leave w s = with_registry w (Registry.disconnect w.registry (device_id s) (some s.self))

-- 1.5 times the keep-alive, which is 120 seconds where the bulb gave none.
unfoldable pub idle_timeout : Session → ℕ
idle_timeout s =
    let ka = if s.keep_alive == 0 then 120 * 1000000000 else s.keep_alive in ka + ka / 2

-- The first answer to a pending command is kept, any later one dropped.
unfoldable pub deliver : List Pending → ℕ → Answer → List Pending
deliver [] i a = []
deliver (p ∷ ps) i a =
    let rest = deliver ps i a in
    if p.ident == i
    then (record p { answer = elim p.answer [ none ↦ some a | some b ↦ some b ] }) ∷ ps
    else p ∷ rest

unfoldable pub complete_command : Session → Str → ℕ → Session
unfolding Assoc.get deliver
complete_command s id code = elim (Assoc.get s.pending id) [
  | none ↦ s
  | some i ↦ record s {
    waiting = deliver s.waiting i (if code == 200 then confirmed else rejected_with code);
  }
]

unfoldable pub complete_by_seq : Session → Str → Session
unfolding is_empty Assoc.get deliver
complete_by_seq s seq = if is_empty seq then s else elim (Assoc.get s.pending_seq seq) [
  | none ↦ s
  | some i ↦ record s { waiting = deliver s.waiting i confirmed }
]
