-- ===== src/Session/Connection/Outcome.antt =====
-- internal/server/session.go: how a connection ends.
use mathlib.Core.Path.{subst}
use haigosmart.Base.{
  ℕ, ◌≡◌, refl, sym, ap, ◌∙◌, ◌⊎◌, List, [], ◌∷◌, ◌++◌, Bool, false, Option, none, some,
  Option-cases, Bool-cases, inl, inr,
}
use haigosmart.Base.Text.{Str}
use haigosmart.Protocol.Wire.{read_packet}
use haigosmart.Protocol.Connect.{Connect, connack_accepted, connack_refused_not_authorized}
use haigosmart.Protocol.Alink.{Identity}
use haigosmart.Server.{note_rejection}
use haigosmart.Session.{
  Environment, World, Session, Error, not_configured, write_failed, handshake, report_rejection,
}
use haigosmart.Session.Serve.{serve_registered, serve_registered_total}
use haigosmart.Session.Connection.{
  handshake_failed, behind, first, serve_from, serve, introduced, knowing, refusal_of, Ends,
  admitted,
}
use haigosmart.Session.Connection.Handshake.{
  handshake_unknown, handshake_known, report_rejection_keeps,
}

module _ (admit : Str → Bool) (env : Environment) where
  module _ (meanwhile : List ℕ → World → World) (clock : List ℕ → ℕ) where
    serve_from_failed :
        (w : World) (rest : List ℕ) (now : ℕ) (s : Session) (e : Error) (written : List (List ℕ))
        → (w' : World) × (serve_from env meanwhile clock w rest now (s, some e, written)
            ≡ some (w', written))
          × (w'.registry ≡ w.registry)
          × (w'.takeovers ≡ w.takeovers)
    unfolding serve_from handshake_failed
    serve_from_failed w rest now s not_configured written =
        let (r, t, p) = report_rejection_keeps env w s now in
        (report_rejection env w s now, refl, r, t)
    serve_from_failed w rest now s e written = (handshake_failed w s now, refl, refl, refl)

    serve_step :
        (w : World) (s : Session) (r : List ℕ) (out : Session × Option Error × List (List ℕ))
        → handshake admit env s (first (read_packet r)) ≡ out
        → serve admit env meanwhile clock w s r
          ≡ serve_from env meanwhile clock (meanwhile r w) (behind (read_packet r)) (clock r) out
    unfolding serve
    serve_step w s r out shaken =
        ap (serve_from env meanwhile clock (meanwhile r w) (behind (read_packet r)) (clock r))
          shaken

    failed :
        (w : World) (s : Session) (r : List ℕ) (s' : Session) (e : Error) (sent : List (List ℕ))
        → handshake admit env s (first (read_packet r)) ≡ (s', some e, sent)
        → admitted admit env r ≡ none
        → (w' : World) × (written : List (List ℕ)) × (serve admit env meanwhile clock w s r
            ≡ some (w', written))
          × Ends (admitted admit env r) s (meanwhile r w) w'
    failed w s r s' e sent shaken nobody =
        let (w', done, same, taken) =
          serve_from_failed (meanwhile r w) (behind (read_packet r)) (clock r) s' e sent in
        (
          w',
          sent,
          serve_step w s r (s', some e, sent) shaken ∙ done,
          subst (λ (o : Option Identity). Ends o s (meanwhile r w) w') (sym nobody) (same, taken),
        )

    serve_through :
        (w : World) (s : Session) (r : List ℕ) (s' : Session) (sent : List (List ℕ))
        → handshake admit env s (first (read_packet r)) ≡ (s', none, sent)
        → serve admit env meanwhile clock w s r
          ≡ (elim (serve_registered env meanwhile clock
              (meanwhile r w)
              s'
              (behind (read_packet r))) [ none ↦ none | some (w', more) ↦ some (w', sent ++ more) ])
    unfolding serve_from
    serve_through w s r s' sent shaken = serve_step w s r (s', none, sent) shaken

    -- Serving a connection ends, whatever it sends. Where its first packet is the CONNECT of a bulb
    -- that the server admits and the answer goes out, the connection is not the bulb's driver in the
    -- end; otherwise what is registered, and what is remembered of takeovers, is left as it was.
    pub serve_total :
        (w : World) (s : Session) (r : List ℕ)
        → (w' : World) × (written : List (List ℕ)) × (serve admit env meanwhile clock w s r
            ≡ some (w', written))
          × Ends (admitted admit env r) s (meanwhile r w) w'
    unfolding admitted
    serve_total w s r = elim (Option-cases (introduced (first (read_packet r)))) [
      | inl nobody ↦
          let (e, shaken, differs) = handshake_unknown admit env s (first (read_packet r)) nobody in
          failed w s r s e [] shaken (rw (admitted, nobody) refl)
      | inr (who, known) ↦ elim (Bool-cases (admit (who.0).device_name)) [
        | inr refused ↦
            failed w s r (knowing s who) not_configured (connack_refused_not_authorized ∷ [])
              (handshake_known admit env s (first (read_packet r)) who known ∙ rw refused refl)
              (rw (admitted, known, refused) refl)
        | inl welcome ↦ elim (Bool-cases (env.accepts connack_accepted)) [
          | inr broken ↦
              failed w s r (knowing s who) write_failed (connack_accepted ∷ [])
                (handshake_known admit env s (first (read_packet r)) who known
                  ∙ rw (welcome, broken) refl)
                (rw (admitted, known, welcome, broken) refl)
          | inl sent ↦
              let (w', more, done, gone) =
                serve_registered_total env meanwhile clock (meanwhile r w) (knowing s who)
                  (behind (read_packet r)) in
              let shaken =
                handshake_known admit env s (first (read_packet r)) who known
                ∙ rw (welcome, sent) refl in
              let through : admitted admit env r ≡ some who.0 =
                rw (admitted, known, welcome, sent) refl in
              (
                w',
                (connack_accepted ∷ []) ++ more,
                serve_through w s r (knowing s who) (connack_accepted ∷ []) shaken ∙ rw done refl,
                subst (λ (o : Option Identity). Ends o s (meanwhile r w) w') (sym through) gone,
              )
        ]
      ]
    ]

    -- A bulb that the server does not admit is told so and nothing else, is not registered, and is
    -- reported once at most, with what was suppressed since the last report.
    pub serve-Refused :
        (w : World) (s : Session) (r : List ℕ) (who : Identity × Connect)
        → introduced (first (read_packet r)) ≡ some who
        → admit (who.0).device_name ≡ false
        → (w' : World) × (serve admit env meanwhile clock w s r
            ≡ some (w', connack_refused_not_authorized ∷ []))
          × (w'.registry ≡ (meanwhile r w).registry)
          × (w'.takeovers ≡ (meanwhile r w).takeovers)
          × ((w'.published ≡ (meanwhile r w).published)
              ⊎ (w'.published
                  ≡ (meanwhile r w).published
                    ++ (refusal_of env
                          (knowing s who)
                          (clock r)
                          (note_rejection (meanwhile r w).rejects (who.0).device_name (clock r)).1
                        ∷ [])))
    unfolding serve_from
    serve-Refused w s r who known refused =
        let shaken =
          handshake_known admit env s (first (read_packet r)) who known ∙ rw refused refl in
        let (same, taken, told) =
          report_rejection_keeps env (meanwhile r w) (knowing s who) (clock r) in
        (
          report_rejection env (meanwhile r w) (knowing s who) (clock r),
          serve_step w s r (knowing s who, some not_configured, connack_refused_not_authorized ∷ [])
              shaken,
          same,
          taken,
          told,
        )
