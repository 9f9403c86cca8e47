-- ===== src/Protocol/Connect.antt =====
-- internal/protocol/mqtt.go: CONNECT and CONNACK, read by the server and written by the broker
-- client.
pub mod Layout
pub mod RoundTrip
use Prim.Native.Nat.{bit_and, bit_or}
use haigosmart.Base.{
  ℕ, ◌+◌, ◌*◌, ◌%◌, List, [], ◌∷◌, ◌++◌, Bool, true, false, not, ltb, ◌==◌, if◌then◌else◌, length,
  drop, Result, ok, err, ◌>>=◌, wrap_error,
}
use haigosmart.Base.Bytes.{put_u16}
use haigosmart.Base.Text.{Str, codes, is_empty}
use haigosmart.Protocol.Error.{
  Error, Part, reading_part, connect_protocol_name, connect_client_id, connect_will_topic,
  connect_will_message, connect_username, connect_password, connect_header_truncated,
  connack_truncated,
}
use haigosmart.Protocol.Wire.{
  read_string, append_string, encode, byte_at, uint16, type_connect, type_connack,
}

pub record Connect : Type 0 where
  pub protocol_name : Str
  pub protocol_level : ℕ
  pub keep_alive : ℕ
  pub client_id : Str
  pub username : Str
  pub password : Str

-- flags&mask != 0
abbrev pub has_flag : ℕ → ℕ → Bool
has_flag flags mask = not (bit_and flags mask == 0)

abbrev pub read_part : Part → List ℕ → ℕ → Result Error (Str × ℕ)
read_part part b i = wrap_error (reading_part part) (read_string b i)

-- The will's topic and message are read and dropped.
unfoldable pub skip_will : Bool → List ℕ → ℕ → Result Error ℕ
skip_will false b i = ok i
skip_will true b i = do
  (topic, i₁) ← read_part connect_will_topic b i
  (message, i₂) ← read_part connect_will_message b i₁
  ok i₂

-- A string that is there only if its flag is set; without it the field stays empty.
unfoldable pub read_optional : Bool → Part → List ℕ → ℕ → Result Error (Str × ℕ)
read_optional false part b i = ok ([], i)
read_optional true part b i = read_part part b i

unfoldable pub decode_connect : List ℕ → Result Error Connect
unfolding skip_will read_optional
decode_connect payload = do
  (name, i) ← read_part connect_protocol_name payload 0
  if ltb (length payload) (i + 4) then err connect_header_truncated else do
    let flags = byte_at payload (i + 1)
    (client, i₁) ← read_part connect_client_id payload (i + 4)
    i₂ ← skip_will (has_flag flags 4) payload i₁
    (user, i₃) ← read_optional (has_flag flags 128) connect_username payload i₂
    (pass, i₄) ← read_optional (has_flag flags 64) connect_password payload i₃
    ok (record {
      protocol_name = name;
      protocol_level = byte_at payload i;
      keep_alive = uint16 (drop (i + 2) payload);
      client_id = client;
      username = user;
      password = pass;
    })

pub record ConnectOptions : Type 0 where
  pub client_id : Str
  pub keep_alive : ℕ
  pub username : Str
  pub password : Str
  pub will_topic : Str
  pub will_payload : List ℕ
  pub will_retain : Bool
  pub will_qos : ℕ
  pub clean_session : Bool

-- `flags |= mask` under a condition.
abbrev pub set_flag : Bool → ℕ → ℕ → ℕ
set_flag on mask flags = if on then bit_or flags mask else flags

unfoldable pub connect_flags : ConnectOptions → ℕ
connect_flags o =
    let clean = set_flag o.clean_session 2 0 in
    let will =
      if is_empty o.will_topic
      then clean
      else set_flag o.will_retain 32 (bit_or clean (bit_or 4 (bit_and o.will_qos 3 * 8))) in
    let pass = set_flag (not (is_empty o.password)) 64 will in
    set_flag (not (is_empty o.username)) 128 pass

-- The body that `EncodeConnect` hands to `Encode`.
unfoldable pub connect_body : ConnectOptions → List ℕ
unfolding connect_flags append_string
connect_body o =
    let head = 0 ∷ 4 ∷ b'M' ∷ b'Q' ∷ b'T' ∷ b'T' ∷ 4 ∷ connect_flags o ∷ [] in
    let client = append_string (head ++ put_u16 (o.keep_alive % 65536)) o.client_id in
    let will =
      if is_empty o.will_topic
      then client
      else append_string client o.will_topic
        ++ put_u16 (length o.will_payload % 65536)
        ++ o.will_payload in
    let user = if is_empty o.username then will else append_string will o.username in
    if is_empty o.password then user else append_string user o.password

unfoldable pub encode_connect : ConnectOptions → List ℕ
unfolding connect_body encode
encode_connect o = encode type_connect 0 (connect_body o)

abbrev pub connack_accepted_code : ℕ
connack_accepted_code = 0

abbrev pub connack_not_authorized : ℕ
connack_not_authorized = 5

-- ConnackAccepted and ConnackRefusedNotAuthorized
abbrev pub connack_accepted : List ℕ
connack_accepted = (type_connack * 16) ∷ 2 ∷ 0 ∷ 0 ∷ []

abbrev pub connack_refused_not_authorized : List ℕ
connack_refused_not_authorized = (type_connack * 16) ∷ 2 ∷ 0 ∷ connack_not_authorized ∷ []

-- The session-present flag and the return code.
unfoldable pub decode_connack : List ℕ → Result Error (Bool × ℕ)
decode_connack payload =
    if ltb (length payload) 2
    then err connack_truncated
    else ok (has_flag (byte_at payload 0) 1, byte_at payload 1)

-- What ConnackReason says, one constructor for each text; `with_code` is its default case.
pub data Reason : Type 0 where
  accepted protocol_refused client_id_rejected broker_unavailable : Reason
  bad_credentials not_authorised : Reason
  with_code : ℕ → Reason

unfoldable pub connack_reason : ℕ → Reason
connack_reason code =
    if code == 0
    then accepted
    else if code == 1
    then protocol_refused
    else if code == 2
    then client_id_rejected
    else if code == 3
    then broker_unavailable
    else if code == 4
    then bad_credentials
    else if code == 5
    then not_authorised
    else with_code code
