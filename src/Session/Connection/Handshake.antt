-- ===== src/Session/Connection/Handshake.antt =====
-- internal/server/session.go: the branches of handshake, and what a refusal leaves.
use haigosmart.Base.{
  ℕ, ◌≡◌, ◌≢◌, refl, ◌⊎◌, [], ◌∷◌, ◌++◌, Bool, not, none, some, ◌==◌, arith, Result, ok, err,
  Result-cases, Option-cases, Bool-cases, inl, inr, if◌then◌else◌,
}
use haigosmart.Base.Text.{Str}
use haigosmart.Protocol.Error as ProtocolError
use haigosmart.Protocol.Wire.{Packet, type_connect}
use haigosmart.Protocol.Connect.{
  Connect, decode_connect, connack_accepted, connack_refused_not_authorized,
}
use haigosmart.Protocol.Alink.{Identity, identity_from_connect}
use haigosmart.Server.{note_rejection}
use haigosmart.Session.{
  device_id, Environment, World, Session, Error, protocol, not_connect, no_identity, not_configured,
  write_failed, handshake, report_rejection,
}
use haigosmart.Session.Connection.{introduced, knowing, refusal_of}

module _ (admit : Str → Bool) (env : Environment) where
  pub handshake_unknown :
      (s : Session) (first : Result ProtocolError.Error Packet)
      → introduced first ≡ none
      → (e : Error) × (handshake admit env s first ≡ (s, some e, [])) × (e ≢ not_configured)
  unfolding handshake introduced
  handshake_unknown s (err e) none_known = (protocol e, refl, λ same. cc)
  handshake_unknown s (ok p) none_known = elim (Bool-cases (p.type == type_connect)) [
    | inr other ↦ (not_connect p.type, rw other refl, λ same. cc)
    | inl connect ↦ elim (Result-cases (decode_connect p.payload)) [
      | inr (e, bad) ↦ (protocol e, rw (connect, bad) refl, λ same. cc)
      | inl (c, good) ↦ elim (Option-cases (identity_from_connect c)) [
        | inl nobody ↦ (no_identity, rw (connect, good, nobody) refl, λ same. cc)
        | inr (i, known) ↦
            let wrong : some (i, c) ≡ none = rw (connect, good, known) at none_known in absurd (cc)
      ]
    ]
  ]

  pub handshake_known :
      (s : Session) (first : Result ProtocolError.Error Packet) (who : Identity × Connect)
      → introduced first ≡ some who
      → handshake admit env s first ≡ (
          if not (admit (who.0).device_name)
          then (knowing s who, some not_configured, connack_refused_not_authorized ∷ [])
          else (
            knowing s who,
            if env.accepts connack_accepted then none else some write_failed,
            connack_accepted ∷ [],
          ))
  unfolding handshake introduced
  handshake_known s (err e) who same = absurd (cc)
  handshake_known s (ok p) who same = elim (Bool-cases (p.type == type_connect)) [
    | inr other ↦ let wrong : none ≡ some who = rw other at same in absurd (cc)
    | inl connect ↦ elim (Result-cases (decode_connect p.payload)) [
      | inr (e, bad) ↦ let wrong : none ≡ some who = rw (connect, bad) at same in absurd (cc)
      | inl (c, good) ↦ elim (Option-cases (identity_from_connect c)) [
        | inl nobody ↦
            let wrong : none ≡ some who = rw (connect, good, nobody) at same in absurd (cc)
        | inr (i, known) ↦
            let right : some (i, c) ≡ some who = rw (connect, good, known) at same in
            let eq : (i, c) ≡ who = cc in rw (connect, good, known, ← eq) refl
      ]
    ]
  ]

pub report_rejection_keeps :
    (env : Environment) (w : World) (s : Session) (now : ℕ)
    → ((report_rejection env w s now).registry ≡ w.registry)
      × ((report_rejection env w s now).takeovers ≡ w.takeovers)
      × (((report_rejection env w s now).published ≡ w.published)
          ⊎ ((report_rejection env w s now).published
              ≡ w.published
                ++ (refusal_of env s now (note_rejection w.rejects (device_id s) now).1 ∷ [])))
unfolding report_rejection
report_rejection_keeps env w s now = ground arith
