-- ===== src/Session/Connection.antt =====
-- internal/server/session.go: serve as a whole, over all that the bulb sends.
pub mod Handshake
pub mod Outcome
use mathlib.Core.Path.{subst}
use haigosmart.Base.{
  ℕ, ◌*◌, ltb, zero, suc, ◌<◌, ◌≡◌, ◌≢◌, refl, sym, ap, ◌∙◌, ◌⊎◌, List, [], ◌∷◌, ◌++◌, Bool, true,
  false, not, Option, none, some, ◌==◌, arith, Result, ok, err, Result-cases, Option-cases,
  Bool-cases, inl, inr, if◌then◌else◌,
}
use haigosmart.Base.Text.{Str}
use haigosmart.Events.{Event, Kind, protocol_error}
use haigosmart.Protocol.Error as ProtocolError
use haigosmart.Protocol.Wire.{Packet, read_packet, type_connect}
use haigosmart.Protocol.Connect.{
  Connect, decode_connect, connack_accepted, connack_refused_not_authorized,
}
use haigosmart.Protocol.Alink.{Identity, identity_from_connect}
use haigosmart.Registry.{driver}
use haigosmart.Server.{Report}
use haigosmart.Session.{
  Environment, World, Session, Error, protocol, not_connect, no_identity, not_configured,
  write_failed, device_id, publish, handshake, report_rejection,
}
use haigosmart.Session.Serve.{serve_registered, serve_registered_total}

-- The event of a failed handshake; the address stands for its text.
unfoldable pub handshake_failed : World → Session → ℕ → World
handshake_failed w s now = publish w (record {
  at = now;
  kind = protocol_error;
  device_id = [];
  name = [];
  changed = [];
  detail = s.remote_addr;
})

-- What is left to read behind the first packet.
unfoldable pub behind : Result ProtocolError.Error (Packet × List ℕ) → List ℕ
behind (err e) = []
behind (ok (p, rest)) = rest

unfoldable pub first :
    Result ProtocolError.Error (Packet × List ℕ) → Result ProtocolError.Error Packet
first (err e) = err e
first (ok (p, rest)) = ok p

-- After the handshake: the session, its error and what it wrote.
unfoldable pub serve_from :
    Environment
    → (List ℕ → World → World)
    → (List ℕ → ℕ)
    → World
    → List ℕ
    → ℕ
    → Session × Option Error × List (List ℕ)
    → Option (World × List (List ℕ))
unfolding report_rejection handshake_failed serve_registered
serve_from env meanwhile clock w rest now (s, none, written) =
    elim (serve_registered env meanwhile clock w s rest) [
      | none ↦ none
      | some (w', more) ↦ some (w', written ++ more)
    ]
serve_from env meanwhile clock w rest now (s, some not_configured, written) =
    some (report_rejection env w s now, written)
serve_from env meanwhile clock w rest now (s, some e, written) =
    some (handshake_failed w s now, written)

unfoldable pub serve :
    (Str → Bool)
    → Environment
    → (List ℕ → World → World)
    → (List ℕ → ℕ)
    → World
    → Session
    → List ℕ
    → Option (World × List (List ℕ))
unfolding read_packet handshake serve_from behind first
serve admit env meanwhile clock w s r =
    serve_from env meanwhile clock (meanwhile r w) (behind (read_packet r)) (clock r)
      (handshake admit env s (first (read_packet r)))

-- The identity that a first packet introduces, and its CONNECT.
unfoldable pub introduced : Result ProtocolError.Error Packet → Option (Identity × Connect)
introduced (err e) = none
introduced (ok p) = if not (p.type == type_connect) then none else elim (decode_connect p.payload) [
  | err e ↦ none
  | ok c ↦ elim (identity_from_connect c) [ none ↦ none | some i ↦ some (i, c) ]
]

-- The session that has learned an identity.
abbrev pub knowing : Session → Identity × Connect → Session
knowing s (i, c) = record s {
  identity = i;
  keep_alive = if ltb 0 c.keep_alive then c.keep_alive * 1000000000 else s.keep_alive;
}

-- The event of a refusal, its detail the address and what was suppressed since the last report.
abbrev pub refusal_of : Environment → Session → ℕ → Report → Event
refusal_of env s now report = record {
  at = now;
  kind = Kind.rejected;
  device_id = device_id s;
  name = [];
  changed = [];
  detail =
      if ltb 0 report.suppressed
      then s.remote_addr ++ env.suppressed report.suppressed report.since
      else s.remote_addr;
}

-- What the end of a connection leaves, for the identity that got through the handshake.
abbrev pub Ends : Option Identity → Session → World → World → Type 0
Ends (some i) s before after = driver after.registry i.device_name ≢ some s.self
Ends none s before after = (after.registry ≡ before.registry) × (after.takeovers ≡ before.takeovers)

module _ (admit : Str → Bool) (env : Environment) where
  -- The identity for which a stream of bytes gets through the handshake.
  unfoldable pub admitted : List ℕ → Option Identity
  unfolding introduced first
  admitted r = elim (introduced (first (read_packet r))) [
    | none ↦ none
    | some who ↦
        if admit (who.0).device_name
        then (if env.accepts connack_accepted then some who.0 else none)
        else none
  ]
