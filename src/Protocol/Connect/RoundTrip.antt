-- ===== src/Protocol/Connect/RoundTrip.antt =====
-- A CONNECT that `encode_connect` writes is read back by `decode_connect`.
use mathlib.Core.List.{append_assoc, append-nil}
use haigosmart.Base.{
  ℕ, suc, ◌+◌, ◌≤◌, ◌<◌, ◌≡◌, refl, ap, ◌∙◌, List, [], ◌∷◌, ◌++◌, Bool, false, not, arith, ltb,
  if◌then◌else◌, length, drop, ok,
}
use haigosmart.Base.Text.{Str, codes, is_empty}
use haigosmart.Protocol.Error.{
  Part, connect_username, connect_password, connect_protocol_name, connect_client_id,
  connect_will_topic, connect_will_message,
}
use haigosmart.Protocol.Wire.{
  append_string, byte_at, uint16, type_connect, max_packet_size, read_packet,
}
use haigosmart.Protocol.Wire.RoundTrip.{
  IsAt, IsAt-skip, read_string-append_string, read_packet-encode,
}
use haigosmart.Protocol.Connect.{
  Connect, ConnectOptions, read_part, has_flag, skip_will, read_optional, decode_connect,
  connect_flags, connect_body, encode_connect,
}
use haigosmart.Protocol.Connect.Layout.{
  flags_lem, optional_part, laid_out, connect_body_lem, after_client, after_header, header,
  IsAt-name,
}

-- Every string and the payload of the will are shorter than 2 ^ 16, the length prefix's range.
pub record Fits (o : ConnectOptions) : Type 0 where
  pub client_id : length o.client_id < 65536
  pub username : length o.username < 65536
  pub password : length o.password < 65536
  pub will_topic : length o.will_topic < 65536
  pub will_payload : length o.will_payload < 65536
  pub keep_alive : o.keep_alive < 65536
  pub will_qos : o.will_qos < 256

pub read_part_lem :
    (part : Part) (b : List ℕ) (i : ℕ) (s rest : List ℕ)
    → length s < 65536
    → IsAt b i (append_string [] s ++ rest)
    → (read_part part b i ≡ ok (s, i + 2 + length s)) × IsAt b (i + 2 + length s) rest
read_part_lem part b i s rest h a =
    let (r, a') = read_string-append_string b i s rest h a in (rw r, a')

read_optional_lem :
    (flag : Bool) (part : Part) (b : List ℕ) (i : ℕ) (s rest : List ℕ)
    → flag ≡ not (is_empty s)
    → length s < 65536
    → IsAt b i (optional_part s ++ rest)
    → (j : ℕ) × (read_optional flag part b i ≡ ok (s, j)) × IsAt b j rest
unfolding read_optional is_empty
read_optional_lem flag part b i [] rest e h a = (i, rw e, a)
read_optional_lem flag part b i (c ∷ s) rest e h a =
    let (r, a') = read_part_lem part b i (c ∷ s) rest h a in (i + 2 + length (c ∷ s), rw e r, a')

skip_will_lem :
    (flag : Bool) (b : List ℕ) (i : ℕ) (t p rest : List ℕ)
    → flag ≡ not (is_empty t)
    → length t < 65536
    → length p < 65536
    → IsAt b i ((if is_empty t then [] else append_string [] t ++ append_string [] p) ++ rest)
    → (j : ℕ) × (skip_will flag b i ≡ ok j) × IsAt b j rest
unfolding skip_will is_empty
skip_will_lem flag b i [] p rest e ht hp a = (i, rw e, a)
skip_will_lem flag b i (c ∷ t) p rest e ht hp a =
    let (r, a₁) =
      read_part_lem connect_will_topic b i (c ∷ t) (append_string [] p ++ rest) ht
        (rw append_assoc at a) in
    let (q, a₂) = read_part_lem connect_will_message b _ p rest hp a₁ in
    (i + 2 + length (c ∷ t) + 2 + length p, rw (e, r, q), a₂)

-- What `decode_connect` makes of a CONNECT written from the options.
abbrev pub connect_of : ConnectOptions → Connect
connect_of o = record {
  protocol_name = codes "MQTT";
  protocol_level = 4;
  keep_alive = o.keep_alive;
  client_id = o.client_id;
  username = o.username;
  password = o.password;
}

-- `decode_connect` where each of its reads succeeds.
module _ (b : List ℕ) where
  abbrev flags_at : ℕ → ℕ → Bool
  flags_at i mask = has_flag (byte_at b (i + 1)) mask

  decode_connect_steps :
      (name client user pass : Str) (i i₁ i₂ i₃ i₄ : ℕ)
      → read_part connect_protocol_name b 0 ≡ ok (name, i)
      → ltb (length b) (i + 4) ≡ false
      → read_part connect_client_id b (i + 4) ≡ ok (client, i₁)
      → skip_will (flags_at i 4) b i₁ ≡ ok i₂
      → read_optional (flags_at i 128) connect_username b i₂ ≡ ok (user, i₃)
      → read_optional (flags_at i 64) connect_password b i₃ ≡ ok (pass, i₄)
      → decode_connect b
        ≡ ok (record {
          protocol_name = name;
          protocol_level = byte_at b i;
          keep_alive = uint16 (drop (i + 2) b);
          client_id = client;
          username = user;
          password = pass;
        })
  unfolding decode_connect
  decode_connect_steps name client user pass i i₁ i₂ i₃ i₄ e₀ room e₁ e₂ e₃ e₄ =
      rw e₀ (rw room (rw e₁ (rw e₂ (rw e₃ (rw e₄ refl)))))

enough : (n m : ℕ) → n ≡ 6 + suc (suc (suc (suc m))) → ltb n 10 ≡ false
enough n m h = ground arith

decode_connect-laid_out :
    (o : ConnectOptions) → Fits o → decode_connect (laid_out o) ≡ ok (connect_of o)
decode_connect-laid_out o f =
    let b = laid_out o in
    let (will, keep, user, pass) = flags_lem o f.will_qos in
    let (r₀, a₀) =
      read_part_lem connect_protocol_name b 0 (codes "MQTT") (header o ++ after_header o)
        (omega arith) (IsAt-name o) in
    let (r₁, a₁) =
      read_part_lem connect_client_id b 10 o.client_id (after_client o) f.client_id
        (IsAt-skip b 6 (header o) (after_header o) a₀) in
    let (i₂, r₂, a₂) =
      skip_will_lem (has_flag (connect_flags o) 4) b _ o.will_topic o.will_payload
        (optional_part o.username ++ optional_part o.password) will f.will_topic f.will_payload
        a₁ in
    let (i₃, r₃, a₃) =
      read_optional_lem (has_flag (connect_flags o) 128) connect_username b i₂ o.username
        (optional_part o.password) user f.username a₂ in
    let (i₄, r₄, a₄) =
      read_optional_lem (has_flag (connect_flags o) 64) connect_password b i₃ o.password [] pass
        f.password (rw append-nil a₃) in
    let alive : uint16 (drop 8 b) ≡ o.keep_alive = omega (arith, f.keep_alive) in
    decode_connect_steps b (codes "MQTT") o.client_id o.username o.password 6 _ i₂ i₃ i₄ r₀
      (enough (length b) (length (after_header o)) a₀.within) r₁ r₂ r₃ r₄
    ∙ ap (λ (k : ℕ). ok (record (connect_of o) { keep_alive = k })) alive

-- A CONNECT built from options whose strings fit their length prefixes is read back: the packet by
-- `read_packet`, whatever follows it, and from its body the client id, keep-alive, username and
-- password that the options hold (empty where they are left out), with the will skipped.
pub decode_connect-encode_connect :
    (o : ConnectOptions) (rest : List ℕ)
    → Fits o
    → length (connect_body o) ≤ max_packet_size
    → (read_packet (encode_connect o ++ rest)
        ≡ ok (record { type = type_connect; flags = 0; payload = connect_body o }, rest))
      × (decode_connect (connect_body o) ≡ ok (connect_of o))
unfolding encode_connect
decode_connect-encode_connect o rest f small = (
  read_packet-encode type_connect 0 (connect_body o) rest (omega arith) (omega arith) small,
  rw (connect_body_lem o) (decode_connect-laid_out o f),
)
