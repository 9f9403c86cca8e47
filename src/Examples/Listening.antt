-- ===== src/Examples/Listening.antt =====
-- Connections that reach the listener, and the certificates that it hands out.
use haigosmart.Base.{ℕ, ◌+◌, ◌≡◌, ◌⊎◌, refl, List, [], ◌∷◌, ◌++◌, true, false, none, some, ok}
use haigosmart.Base.Text.{codes, str_eq}
use haigosmart.Protocol.Wire.{read_packet, read_string}
use haigosmart.Protocol.Connect.{Connect, decode_connect, connack_refused_not_authorized}
use haigosmart.Protocol.Alink.{Identity, identity_from_connect}
use haigosmart.Server.{note_rejection}
use haigosmart.Session.{Environment, World, Session}
use haigosmart.Session.Connection.{serve, first, introduced, knowing, refusal_of}
use haigosmart.Session.Connection.Outcome.{serve-Refused}
use haigosmart.Listener.{Tls}
use haigosmart.Listener.Certificates.{
  Crypto, Certificate, CertSource, new_cert_source, load_key, certificate_for, requests,
}
use haigosmart.Listener.Certificates.Key.{load_key-restart}
use haigosmart.Listener.Certificates.Requests.{certificate_for-requests}

-- A key is a number, and its file holds that number alone.
abbrev toy : Crypto ℕ ℕ
toy = record {
  parse_pkcs1 = λ raw. elim raw [ [] ↦ none | k ∷ rest ↦ some k ];
  parse_pkcs8_rsa = λ raw. none;
  marshal_pkcs1 = λ k. k ∷ [];
  generate_key = λ n. some (n + 40);
  random_serial = λ n. some n;
  create_certificate = λ n template k. some (n + k);
  is_ip = λ name. false;
  ten_years_after = λ now. now + 10;
}

load_key-restart_example :
    (load_key toy true (
      new_cert_source {Key = ℕ} {Der = ℕ}
        (codes "tls.key")
        (load_key toy true (new_cert_source {Key = ℕ} {Der = ℕ} (codes "tls.key") none)).0.file)).1
    ≡ ok 40
unfolding load_key new_cert_source
load_key-restart_example = load_key-restart toy (codes "tls.key") none 40 refl (λ key. refl) refl

abbrev source : CertSource ℕ ℕ
source = new_cert_source (codes "tls.key") none

abbrev made : Certificate ℕ ℕ
made = record { der = 42; private_key = 40 }

certificate_for-requests_example :
    certificate_for toy true
      (codes "h")
      9
      (requests toy ((true, codes "g", 7) ∷ []) (certificate_for toy true (codes "h") 5 source).0)
    ≡ (
      requests toy ((true, codes "g", 7) ∷ []) (certificate_for toy true (codes "h") 5 source).0,
      ok made,
    )
unfolding certificate_for new_cert_source
certificate_for-requests_example =
    certificate_for-requests toy true (codes "h") 5 source made refl ((true, codes "g", 7) ∷ [])
      true 9

abbrev environment : Environment
environment = record {
  post = λ p. none;
  service_reply = λ p. none;
  ota_version = λ p. [];
  ntp_response = λ t now. [];
  post_reply = λ id. [];
  accepts = λ p. true;
  suppressed = λ n since. [];
}

abbrev world : World
world = record {
  registry = record { bulbs = []; saves = 0 };
  takeovers = [];
  rejects = [];
  published = [];
}

abbrev arrival : Session
arrival = record {
  self = 1;
  identity = record { device_name = []; product_key = [] };
  remote_addr = codes "10.0.0.2";
  keep_alive = 0;
  reported = false;
  waiting = [];
  pending = [];
  pending_seq = [];
}

-- No TLS handshake ever succeeds here.
abbrev no_tls : Tls ℕ ℕ
no_tls = record { client_hello = λ r. none; finish = λ r cert. none; cipher_suite_name = λ id. [] }

-- CONNECT of the bulb B2 with the product key pk.
abbrev hello : List ℕ
hello = 0x10 ∷ 17 ∷ 0 ∷ 4 ∷ b'M' ∷ b'Q' ∷ b'T' ∷ b'T' ∷ 4 ∷ 2 ∷ 0 ∷ 0 ∷ 0 ∷ 5 ∷ codes "pk.B2"

abbrev who : Identity × Connect
who = (
  record { device_name = codes "B2"; product_key = codes "pk" },
  record {
    protocol_name = codes "MQTT";
    protocol_level = 4;
    keep_alive = 0;
    client_id = codes "pk.B2";
    username = [];
    password = [];
  },
)

hello-introduced : introduced (first (read_packet hello)) ≡ some who
unfolding introduced first read_packet decode_connect identity_from_connect read_string
hello-introduced = refl

serve-Refused_example :
    (w' : World) × (serve
        (λ id. str_eq id (codes "A1"))
        environment
        (λ r w. w)
        (λ r. 9)
        world
        arrival
        hello
      ≡ some (w', connack_refused_not_authorized ∷ []))
    × (w'.registry ≡ world.registry)
    × (w'.takeovers ≡ world.takeovers)
    × ((w'.published ≡ world.published)
        ⊎ (w'.published
            ≡ world.published
              ++ (refusal_of environment
                    (knowing arrival who)
                    9
                    (note_rejection world.rejects (codes "B2") 9).1
                  ∷ [])))
unfolding str_eq
serve-Refused_example =
    serve-Refused (λ id. str_eq id (codes "A1")) environment (λ r w. w) (λ r. 9) world arrival hello
      who hello-introduced refl
