-- ===== src/Listener.antt =====
-- internal/server/server.go and tls.go: what becomes of a connection that the listener accepts. The
-- TLS protocol itself, of package crypto/tls, is a parameter.
pub mod Certificates
pub mod Outcome
use haigosmart.Base.{
  ℕ, ◌+◌, ◌-◌, ◌*◌, ◌/◌, ◌%◌, ◌^◌, List, [], ◌∷◌, ◌++◌, Bool, true, false, not, ◌&&◌, ◌||◌, Option,
  none, some, ltb, ◌==◌, if◌then◌else◌, Result, ok, err,
}
use haigosmart.Base.Text.{Str, codes, contains, str_eq}
use haigosmart.Events.{protocol_error}
use haigosmart.Server.{is_psk_suite}
use haigosmart.Session.{Environment, World, Session, publish}
use haigosmart.Session.Connection.{serve}
use haigosmart.Listener.Certificates.{Crypto, Certificate, CertSource, certificate_for}

abbrev pub tls_record_handshake : ℕ
tls_record_handshake = 0x16

-- What is read of a tls.ClientHelloInfo.
pub record ClientHello : Type 0 where
  pub server_name : Str
  pub cipher_suites : List ℕ

-- The ClientHello that a stream opens with, where it is one; and what the handshake with a certificate
-- makes of the stream: the bytes that the client sends inside, or a failure.
pub record Tls (Key Der : Type 0) : Type 0 where
  pub client_hello : List ℕ → Option ClientHello
  pub finish : List ℕ → Certificate Key Der → Option (List ℕ)
  pub cipher_suite_name : ℕ → Str

-- fmt.Sprintf("%X"), one digit
unfoldable pub hex_digit : ℕ → ℕ
hex_digit d = if ltb d 10 then b'0' + d else b'A' + (d - 10)

-- fmt.Sprintf("0x%04X", id) of a 16-bit number
unfoldable pub suite_number : ℕ → Str
unfolding hex_digit
suite_number id =
    codes "0x"
    ++ (hex_digit (id / 4096 % 16)
        ∷ hex_digit (id / 256 % 16)
        ∷ hex_digit (id / 16 % 16)
        ∷ hex_digit (id % 16)
        ∷ [])

unfoldable pub is_psk : (ℕ → Str) → ℕ → Bool
unfolding contains str_eq suite_number is_psk_suite
is_psk name_of id =
    contains (codes "PSK") (name_of id)
    || (str_eq (name_of id) (suite_number id) && is_psk_suite id)

unfoldable pub offers_psk : (ℕ → Str) → List ℕ → Bool
unfolding is_psk
offers_psk name_of [] = false
offers_psk name_of (id ∷ ids) = is_psk name_of id || offers_psk name_of ids

-- An event that names no device; the address stands for its text.
unfoldable pub protocol_event : World → Str → ℕ → World
protocol_event w remote now = publish w (record {
  at = now;
  kind = protocol_error;
  device_id = [];
  name = [];
  changed = [];
  detail = remote;
})

pub data SniffError : Type 0 where
  no_deadline nothing_sent tls_failed : SniffError

pub data ServeError : Type 0 where
  accepting : ServeError

module _ {Key Der : Type 0} (crypto : Crypto Key Der) (tls : Tls Key Der) where
  unfoldable pub log_client_hello : World → Str → ClientHello → ℕ → World
  unfolding offers_psk protocol_event
  log_client_hello w remote hello now =
      if offers_psk tls.cipher_suite_name hello.cipher_suites
      then protocol_event w remote now
      else w

  -- GetCertificate and the rest of the handshake.
  unfoldable pub tls_server :
      Bool
      → Str
      → ℕ
      → List ℕ
      → World × CertSource Key Der
      → (World × CertSource Key Der) × Result SniffError (List ℕ)
  unfolding log_client_hello certificate_for
  tls_server writable remote now r (w, c) = elim (tls.client_hello r) [
    | none ↦ ((w, c), err tls_failed)
    | some hello ↦
        let w1 = log_client_hello w remote hello now in
        let (c1, issued) = certificate_for crypto writable hello.server_name now c in
        elim issued [
          | err e ↦ ((w1, c1), err tls_failed)
          | ok cert ↦ elim (tls.finish r cert) [
            | none ↦ ((w1, c1), err tls_failed)
            | some inside ↦ ((w1, c1), ok inside)
          ]
        ]
  ]

  -- `r` is all that the peer sends before it closes; whether the read deadline can be set is an
  -- argument. A cleartext stream is left whole.
  unfoldable pub sniff :
      Bool
      → Bool
      → Str
      → ℕ
      → List ℕ
      → World × CertSource Key Der
      → (World × CertSource Key Der) × Result SniffError (List ℕ)
  unfolding tls_server
  sniff deadline writable remote now [] s =
      (s, err (if deadline then nothing_sent else no_deadline))
  sniff deadline writable remote now (b ∷ r) s =
      if not deadline
      then (s, err no_deadline)
      else if not (b == tls_record_handshake)
      then (s, ok (b ∷ r))
      else tls_server writable remote now (b ∷ r) s

  module _ (admit : Str → Bool) (env : Environment) (meanwhile : List ℕ → World → World)
      (clock : List ℕ → ℕ) where
    -- After the sniffing. A peer that said nothing is no event.
    unfoldable pub greeted :
        Session
        → ℕ
        → World × CertSource Key Der
        → Result SniffError (List ℕ)
        → Option (World × CertSource Key Der × List (List ℕ))
    unfolding protocol_event serve
    greeted s now (w, c) (err nothing_sent) = some (w, c, [])
    greeted s now (w, c) (err e) = some (protocol_event w s.remote_addr now, c, [])
    greeted s now (w, c) (ok stream) = elim (serve admit env meanwhile clock w s stream) [
      | none ↦ none
      | some (w', written) ↦ some (w', c, written)
    ]

    -- The goroutine of one connection.
    unfoldable pub connection :
        Bool
        → Bool
        → Session
        → List ℕ
        → World × CertSource Key Der
        → Option (World × CertSource Key Der × List (List ℕ))
    unfolding sniff greeted
    connection deadline writable s r shared =
        let (shared1, sniffed) = sniff deadline writable s.remote_addr (clock r) r shared in
        greeted s (clock r) shared1 sniffed

    -- The accept loop, until the listener fails: then it waits for the connections, and reports the
    -- failure unless the context was cancelled. The connections are here served one after another.
    unfoldable pub accept_loop :
        Bool
        → Bool
        → Bool
        → List (Session × List ℕ)
        → World × CertSource Key Der
        → Option ((World × CertSource Key Der) × Option ServeError)
    unfolding connection
    accept_loop cancelled deadline writable [] shared =
        some (shared, if cancelled then none else some accepting)
    accept_loop cancelled deadline writable ((s, r) ∷ rest) shared =
        elim (connection deadline writable s r shared) [
          | none ↦ none
          | some (w, c, written) ↦ accept_loop cancelled deadline writable rest (w, c)
        ]
