-- ===== src/TestBulb/Identified.antt =====
-- internal/bulb/fakebulb/fakebulb.go and internal/protocol/alink.go: who the server takes the bulb for.
use haigosmart.Base.{ℕ, ◌≡◌, ◌≤◌, refl, List, [], ◌∷◌, ◌++◌, true, false, some, ◌==◌, ok, length}
use haigosmart.Base.Text.{Str, cut, is_empty}
use haigosmart.Protocol.Wire.{read_packet, max_packet_size, type_connect}
use haigosmart.Protocol.Connect.{connect_body, encode_connect, decode_connect}
use haigosmart.Protocol.Connect.RoundTrip.{Fits, connect_of, decode_connect-encode_connect}
use haigosmart.Protocol.Alink.{identity_from_connect}
use haigosmart.TestBulb.{Options, connect_options}

-- The byte does not stand in the text.
abbrev pub IsFree : ℕ → Str → Type 0
IsFree sep [] = Unit
IsFree sep (c ∷ s) = ((c == sep) ≡ false) × IsFree sep s

cut_free :
    (sep : ℕ) (before after : Str)
    → (sep == sep) ≡ true
    → IsFree sep before
    → cut sep (before ++ sep ∷ after) ≡ some (before, after)
unfolding cut
cut_free sep [] after same free = rw same refl
cut_free sep (c ∷ s) after same (differs, free) = rw (differs, cut_free sep s after same free) refl

identity :
    (o : Options)
    → IsFree b'&' o.device_name
    → is_empty o.device_name ≡ false
    → is_empty o.product_key ≡ false
    → identity_from_connect (connect_of (connect_options o))
      ≡ some (record { device_name = o.device_name; product_key = o.product_key })
unfolding identity_from_connect connect_options
identity o free named keyed =
    rw
      (
        identity_from_connect,
        connect_options,
        cut_free b'&' o.device_name o.product_key refl free,
        named,
        keyed,
      )
      refl

-- From the CONNECT of a bulb whose name has no ampersand, the server reads the name and the product
-- key that the bulb was started with, whatever follows.
pub identified :
    (o : Options) (rest : List ℕ)
    → IsFree b'&' o.device_name
    → is_empty o.device_name ≡ false
    → is_empty o.product_key ≡ false
    → Fits (connect_options o)
    → length (connect_body (connect_options o)) ≤ max_packet_size
    → (read_packet (encode_connect (connect_options o) ++ rest)
        ≡ ok (
          record { type = type_connect; flags = 0; payload = connect_body (connect_options o) },
          rest,
        ))
      × (decode_connect (connect_body (connect_options o)) ≡ ok (connect_of (connect_options o)))
      × (identity_from_connect (connect_of (connect_options o))
          ≡ some (record { device_name = o.device_name; product_key = o.product_key }))
identified o rest free named keyed fits small =
    let (read, decoded) = decode_connect-encode_connect (connect_options o) rest fits small in
    (read, decoded, identity o free named keyed)
