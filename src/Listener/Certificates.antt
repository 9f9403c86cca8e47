-- ===== src/Listener/Certificates.antt =====
-- internal/server/tls.go: the server's key and the certificates that it makes with it. What the
-- packages crypto/rsa, crypto/x509 and net make of their arguments is a parameter.
pub mod Key
pub mod Requests
use haigosmart.Base.{
  ℕ, ◌+◌, ◌-◌, ◌*◌, List, [], ◌∷◌, Bool, true, false, not, Option, none, some, if◌then◌else◌,
  Result, ok, err,
}
use haigosmart.Base.Text.{Str, codes, is_empty}
use haigosmart.Base.Assoc
use haigosmart.Base.Assoc.{Map}

-- The fields of x509.Certificate that vary; the rest of the template is fixed.
pub record Template : Type 0 where
  pub serial : ℕ
  pub common_name : Str
  pub not_before : ℕ
  pub not_after : ℕ
  pub ip_addresses : List Str
  pub dns_names : List Str

-- The n-th call that draws from rand.Reader is given n; where it fails, so does the call.
pub record Crypto (Key Der : Type 0) : Type 0 where
  pub parse_pkcs1 : List ℕ → Option Key
  pub parse_pkcs8_rsa : List ℕ → Option Key
  pub marshal_pkcs1 : Key → List ℕ
  pub generate_key : ℕ → Option Key
  pub random_serial : ℕ → Option ℕ
  pub create_certificate : ℕ → Template → Key → Option Der
  pub is_ip : Str → Bool
  pub ten_years_after : ℕ → ℕ

pub record Certificate (Key Der : Type 0) : Type 0 where
  pub der : Der
  pub private_key : Key

-- `file` is what stands on the disk at the path; `draws` how often the random source was used; and
-- `warnings` how many keys were found unusable.
pub record CertSource (Key Der : Type 0) : Type 0 where
  pub key_path : Str
  pub key : Option Key
  pub certs : Map (Certificate Key Der)
  pub file : Option (List ℕ)
  pub draws : ℕ
  pub warnings : ℕ

pub data CertError : Type 0 where
  generating_key : CertError
  generating_serial : CertError
  creating_certificate : Str → CertError

unfoldable pub new_cert_source : {Key Der : Type 0} → Str → Option (List ℕ) → CertSource Key Der
new_cert_source key_path file = record {
  key_path = key_path;
  key = none;
  certs = [];
  file = file;
  draws = 0;
  warnings = 0;
}

module _ {Key Der : Type 0} (crypto : Crypto Key Der) where
  -- The key on the disk, and whether there is one that cannot be used.
  unfoldable pub read_key : CertSource Key Der → Option Key × Bool
  unfolding is_empty
  read_key c = if is_empty c.key_path then (none, false) else elim c.file [
    | none ↦ (none, false)
    | some raw ↦ elim (crypto.parse_pkcs1 raw) [
      | some k ↦ (some k, false)
      | none ↦ elim (crypto.parse_pkcs8_rsa raw) [ some k ↦ (some k, false) | none ↦ (none, true) ]
    ]
  ]

  -- Whether MkdirAll and WriteFile succeed is an argument.
  unfoldable pub generate : Bool → CertSource Key Der → CertSource Key Der × Result CertError Key
  unfolding is_empty
  generate writable c =
      let drawn : CertSource Key Der = record c { draws = c.draws + 1 } in
      elim (crypto.generate_key c.draws) [
        | none ↦ (drawn, err generating_key)
        | some k ↦ (
          record drawn {
            key = some k;
            file =
                if is_empty c.key_path
                then c.file
                else if writable
                then some (crypto.marshal_pkcs1 k)
                else c.file;
          },
          ok k,
        )
      ]

  unfoldable pub load_key : Bool → CertSource Key Der → CertSource Key Der × Result CertError Key
  unfolding read_key generate
  load_key writable c = elim c.key [
    | some k ↦ (c, ok k)
    | none ↦
        let (found, unusable) = read_key c in
        let warned : CertSource Key Der = record c {
          warnings = if unusable then c.warnings + 1 else c.warnings;
        } in
        elim found [
          | some k ↦ (record warned { key = some k }, ok k)
          | none ↦ generate writable warned
        ]
  ]

  unfoldable pub template_for : Str → ℕ → ℕ → Template
  unfolding is_empty
  template_for name serial now = record {
    serial = serial;
    common_name = if is_empty name then codes "haigosmart" else name;
    not_before = now - 24 * 60 * 60 * 1000000000;
    not_after = crypto.ten_years_after now;
    ip_addresses = if crypto.is_ip name then name ∷ [] else [];
    dns_names = if crypto.is_ip name then [] else if is_empty name then [] else name ∷ [];
  }

  -- A new certificate, once there is a key.
  unfoldable pub issue :
      Str
      → ℕ
      → Key
      → CertSource Key Der
      → CertSource Key Der × Result CertError (Certificate Key Der)
  unfolding template_for Assoc.put
  issue name now k c =
      let drawn : CertSource Key Der = record c { draws = c.draws + 1 } in
      elim (crypto.random_serial c.draws) [
        | none ↦ (drawn, err generating_serial)
        | some serial ↦
            let signed : CertSource Key Der = record drawn { draws = drawn.draws + 1 } in
            elim (crypto.create_certificate drawn.draws (template_for name serial now) k) [
              | none ↦ (signed, err (creating_certificate name))
              | some der ↦
                  let cert : Certificate Key Der = record { der = der; private_key = k } in
                  (record signed { certs = Assoc.put c.certs name cert }, ok cert)
            ]
      ]

  unfoldable pub certificate_for :
      Bool
      → Str
      → ℕ
      → CertSource Key Der
      → CertSource Key Der × Result CertError (Certificate Key Der)
  unfolding load_key issue Assoc.get
  certificate_for writable name now c = elim (Assoc.get c.certs name) [
    | some cert ↦ (c, ok cert)
    | none ↦
        let (loaded, key) = load_key writable c in
        elim key [ err e ↦ (loaded, err e) | ok k ↦ issue name now k loaded ]
  ]

  -- Handshakes one after another, under the mutex: a name, the time, and whether the disk takes a key.
  unfoldable pub requests : List (Bool × Str × ℕ) → CertSource Key Der → CertSource Key Der
  unfolding certificate_for
  requests [] c = c
  requests ((writable, name, now) ∷ rest) c = requests rest (certificate_for writable name now c).0
