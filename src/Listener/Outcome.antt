-- ===== src/Listener/Outcome.antt =====
-- internal/server/server.go: how an accepted connection ends.
use haigosmart.Base.{
  ℕ, ◌≡◌, ◌⊎◌, ◌==◌, ==_iff, ap, true, false, Bool-cases, refl, inl, inr, List, [], ◌∷◌, Bool, none,
  some, if◌then◌else◌, Result, ok, err, Option-cases, Result-cases,
}
use haigosmart.Base.Text.{Str}
use haigosmart.Session.{Environment, World, Session}
use haigosmart.Session.Connection.{Ends, admitted}
use haigosmart.Session.Connection.Outcome.{serve_total}
use haigosmart.Listener.{
  Tls, ClientHello, accepting, SniffError, nothing_sent, no_deadline, tls_failed, log_client_hello,
  tls_server, sniff, greeted, connection, accept_loop, protocol_event, offers_psk,
  tls_record_handshake,
}
use haigosmart.Listener.Certificates.{Crypto, CertSource, certificate_for}

-- What reading the first bytes may publish: that a client of TLS offers a PSK suite.
abbrev pub Reported : {Key Der : Type 0} → Tls Key Der → Str → ℕ → List ℕ → World → World → Type 0
Reported tls remote now r before after =
    (hello : ClientHello) × (tls.client_hello r ≡ some hello)
    × (offers_psk tls.cipher_suite_name hello.cipher_suites ≡ true)
    × (after ≡ protocol_event before remote now)

-- It published nothing, as there is no such client.
abbrev pub Unreported : {Key Der : Type 0} → Tls Key Der → List ℕ → World → World → Type 0
Unreported tls r before after =
    ((hello : ClientHello)
      → tls.client_hello r ≡ some hello
      → offers_psk tls.cipher_suite_name hello.cipher_suites ≡ false)
    × (after ≡ before)

-- What a peer sent begins as TLS does.
abbrev pub IsSecure : List ℕ → Type 0
IsSecure r = (rest : List ℕ) × (r ≡ tls_record_handshake ∷ rest)

-- It begins in another way.
abbrev pub IsClear : List ℕ → Type 0
IsClear r = (b : ℕ) × (rest : List ℕ) × (r ≡ b ∷ rest) × (b == tls_record_handshake ≡ false)

-- The world behind the sniffing: nothing has changed where nothing could be read, nor where the stream is
-- served as it came; where TLS was tried, that report has been published if it is due.
abbrev pub Sniffed :
    {Key Der : Type 0}
    → Tls Key Der
    → Str
    → ℕ
    → List ℕ
    → Result SniffError (List ℕ)
    → World
    → World
    → Type 0
Sniffed tls remote now r (err nothing_sent) before after = (r ≡ []) × (after ≡ before)
Sniffed tls remote now r (err no_deadline) before after = after ≡ before
Sniffed tls remote now r (err tls_failed) before after =
    IsSecure r × (Unreported tls r before after ⊎ Reported tls remote now r before after)
Sniffed tls remote now r (ok stream) before after =
    (IsClear r × (stream ≡ r) × (after ≡ before))
    ⊎ (IsSecure r × (Unreported tls r before after ⊎ Reported tls remote now r before after))

-- What a connection leaves, by what its first bytes turned out to be.
abbrev pub Leaves :
    (Str → Bool)
    → Environment
    → (List ℕ → World → World)
    → Session
    → ℕ
    → Result SniffError (List ℕ)
    → World
    → World
    → Type 0
Leaves admit env meanwhile s now (err nothing_sent) before after = after ≡ before
Leaves admit env meanwhile s now (err no_deadline) before after =
    after ≡ protocol_event before s.remote_addr now
Leaves admit env meanwhile s now (err tls_failed) before after =
    after ≡ protocol_event before s.remote_addr now
Leaves admit env meanwhile s now (ok stream) before after =
    Ends (admitted admit env stream) s (meanwhile stream before) after

module _ {Key Der : Type 0} (crypto : Crypto Key Der) (tls : Tls Key Der) where
  same_hello :
      {r : List ℕ} (hello hello' : ClientHello)
      → tls.client_hello r ≡ some hello
      → tls.client_hello r ≡ some hello'
      → offers_psk tls.cipher_suite_name hello.cipher_suites ≡ false
      → offers_psk tls.cipher_suite_name hello'.cipher_suites ≡ false
  same_hello hello hello' e e' other = cc

  no_hello :
      {r : List ℕ} (hello : ClientHello)
      → tls.client_hello r ≡ none
      → tls.client_hello r ≡ some hello
      → ⊥
  no_hello hello e e' = cc

  log_client_hello-Reported :
      (w : World) (remote : Str) (r : List ℕ) (hello : ClientHello) (now : ℕ)
      → tls.client_hello r ≡ some hello
      → let after = log_client_hello crypto tls w remote hello now in
        Unreported tls r w after ⊎ Reported tls remote now r w after
  unfolding log_client_hello
  log_client_hello-Reported w remote r hello now e =
      elim (Bool-cases (offers_psk tls.cipher_suite_name hello.cipher_suites)) [
        | inl psk ↦ inr (hello, e, psk, rw (log_client_hello, psk) refl)
        | inr other ↦
            inl (λ hello' e'. same_hello hello hello' e e' other, rw (log_client_hello, other) refl)
      ]

  tls_server-Sniffed :
      (writable : Bool) (remote : Str) (now : ℕ) (r : List ℕ) (w : World) (c : CertSource Key Der)
      → IsSecure r
      → let out = tls_server crypto tls writable remote now r (w, c) in
        Sniffed tls remote now r out.1 w out.0.0
  unfolding tls_server
  tls_server-Sniffed writable remote now r w c secure = elim (Option-cases (tls.client_hello r)) [
    | inl e ↦ rw (tls_server, e) (secure, inl (λ hello e'. absurd (no_hello hello e e'), refl))
    | inr (hello, e) ↦
        let told = log_client_hello-Reported w remote r hello now e in
        elim (Result-cases (certificate_for crypto writable hello.server_name now c).1) [
          | inr (failure, f) ↦ rw (tls_server, e, f) (secure, told)
          | inl (cert, f) ↦ elim (Option-cases (tls.finish r cert)) [
            | inl g ↦ rw (tls_server, e, f, g) (secure, told)
            | inr (inside, g) ↦ rw (tls_server, e, f, g) (inr (secure, told))
          ]
        ]
  ]

  sniff-Sniffed :
      (deadline writable : Bool) (remote : Str) (now : ℕ) (r : List ℕ) (w : World)
      (c : CertSource Key Der)
      → let out = sniff crypto tls deadline writable remote now r (w, c) in
        Sniffed tls remote now r out.1 w out.0.0
  unfolding sniff
  sniff-Sniffed true writable remote now [] w c = (refl, refl)
  sniff-Sniffed false writable remote now [] w c = refl
  sniff-Sniffed false writable remote now (b ∷ r) w c = refl
  sniff-Sniffed true writable remote now (b ∷ r) w c =
      elim (Bool-cases (b == tls_record_handshake)) [
        | inl secure ↦ rw secure (
            tls_server-Sniffed writable remote now (b ∷ r) w c
              (r, ap (λ (k : ℕ). k ∷ r) ((==_iff b tls_record_handshake).0 secure)))
        | inr clear ↦ rw clear (inl ((b, r, refl, clear), refl, refl))
      ]

  module _ (admit : Str → Bool) (env : Environment) (meanwhile : List ℕ → World → World)
      (clock : List ℕ → ℕ) where
    greeted_total :
        (s : Session) (now : ℕ) (w : World) (c : CertSource Key Der)
        (sniffed : Result SniffError (List ℕ))
        → (w' : World) × (written : List (List ℕ)) × (greeted crypto tls admit env meanwhile clock s
              now
              (w, c)
              sniffed
            ≡ some (w', c, written))
          × Leaves admit env meanwhile s now sniffed w w'
    unfolding greeted
    greeted_total s now w c (err nothing_sent) = (w, [], refl, refl)
    greeted_total s now w c (err no_deadline) = (protocol_event w s.remote_addr now, [], refl, refl)
    greeted_total s now w c (err tls_failed) = (protocol_event w s.remote_addr now, [], refl, refl)
    greeted_total s now w c (ok stream) =
        let (w', written, done, ends) = serve_total admit env meanwhile clock w s stream in
        (w', written, rw (greeted, done) refl, ends)

    pub connection_total :
        (deadline writable : Bool) (s : Session) (r : List ℕ) (w : World) (c : CertSource Key Der)
        → (w' : World) × (c' : CertSource Key Der) × (written : List (List ℕ)) × (connection crypto
              tls admit env meanwhile clock deadline writable s r
              (w, c)
            ≡ some (w', c', written))
          × Sniffed tls s.remote_addr
              (clock r)
              r
              (sniff crypto tls deadline writable s.remote_addr (clock r) r (w, c)).1
              w
              (sniff crypto tls deadline writable s.remote_addr (clock r) r (w, c)).0.0
          × Leaves admit env meanwhile s
              (clock r)
              (sniff crypto tls deadline writable s.remote_addr (clock r) r (w, c)).1
              (sniff crypto tls deadline writable s.remote_addr (clock r) r (w, c)).0.0
              w'
    unfolding connection
    connection_total deadline writable s r w c =
        let sniffed = sniff crypto tls deadline writable s.remote_addr (clock r) r (w, c) in
        let (w', written, done, leaves) =
          greeted_total s (clock r) sniffed.0.0 sniffed.0.1 sniffed.1 in
        (
          w',
          sniffed.0.1,
          written,
          done,
          sniff-Sniffed deadline writable s.remote_addr (clock r) r w c,
          leaves,
        )

    -- The accept loop serves every connection it has accepted and then returns; it reports an error
    -- exactly when the listener failed without the context being cancelled.
    pub accept_loop_total :
        (cancelled deadline writable : Bool) (peers : List (Session × List ℕ)) (w : World)
        (c : CertSource Key Der)
        → (w' : World) × (c' : CertSource Key Der) × (accept_loop crypto tls admit env meanwhile
              clock cancelled deadline writable peers
              (w, c)
            ≡ some ((w', c'), if cancelled then none else some accepting))
    unfolding accept_loop
    accept_loop_total cancelled deadline writable [] w c = (w, c, refl)
    accept_loop_total cancelled deadline writable ((s, r) ∷ rest) w c =
        let (w1, c1, written, done, same, leaves) = connection_total deadline writable s r w c in
        let (w', c', finish) = accept_loop_total cancelled deadline writable rest w1 c1 in
        (w', c', rw (accept_loop, done) finish)
