-- ===== src/Listener/Certificates/Key.antt =====
-- internal/server/tls.go: the key stays the same, in one run and over a restart.
use haigosmart.Base.{ℕ, ◌≡◌, List, true, false, Option, some, arith, ok}
use haigosmart.Base.Text.{Str, is_empty}
use haigosmart.Listener.Certificates.{Crypto, new_cert_source, load_key}

module _ {Key Der : Type 0} (crypto : Crypto Key Der) where
  -- Where a key file can be written, the key of a first run is that of every later run.
  pub load_key-restart :
      (path : Str) (file : Option (List ℕ)) (k : Key)
      → is_empty path ≡ false
      → ((key : Key) → crypto.parse_pkcs1 (crypto.marshal_pkcs1 key) ≡ some key)
      → (load_key crypto true (new_cert_source {Key = Key} {Der = Der} path file)).1 ≡ ok k
      → (load_key crypto true (
          new_cert_source {Key = Key} {Der = Der} path
            (load_key crypto true (new_cert_source {Key = Key} {Der = Der} path file)).0.file)).1
        ≡ ok k
  unfolding load_key new_cert_source
  load_key-restart path file k named reads first = ground (arith, reads k)
