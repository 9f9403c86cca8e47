-- ===== src/TestBulb.antt =====
-- internal/bulb/fakebulb/fakebulb.go: how the bulb that tests start opens a connection. The texts that
-- encoding/json makes are arguments.
pub mod Identified
use haigosmart.Base.{
  ℕ, ◌+◌, List, [], ◌∷◌, ◌++◌, Bool, true, false, not, Option, none, some, ◌==◌, if◌then◌else◌,
  Result, ok, err,
}
use haigosmart.Base.Text.{Str, codes, is_empty}
use haigosmart.Protocol.Error.{Error as ProtocolError}
use haigosmart.Protocol.Wire.{read_packet, type_connack}
use haigosmart.Protocol.Connect.{
  ConnectOptions, encode_connect, decode_connack, connack_accepted_code, Reason, connack_reason,
}
use haigosmart.Protocol.Publish.{encode_publish}
use haigosmart.Protocol.Subscribe.{encode_subscribe}

-- The options that matter before the bulb reads its first command.
pub record Options : Type 0 where
  pub product_key : Str
  pub device_name : Str
  pub version : Str
  pub keep_alive : ℕ
  pub malformed : Bool

-- `stopped` says that it was closed.
pub record TestBulb : Type 0 where
  pub options : Options
  pub power : Bool
  pub bright : ℕ
  pub temp : ℕ
  pub post_id : ℕ
  pub stopped : Bool

-- The payloads: the version's, and that of a full report with its number.
pub record Payloads : Type 0 where
  pub inform : Str → List ℕ
  pub full_state : ℕ → Bool → ℕ → ℕ → List ℕ

unfoldable pub with_defaults : Options → Options
unfolding is_empty
with_defaults o = record o {
  product_key = if is_empty o.product_key then codes "a1GGnyln558" else o.product_key;
  device_name = if is_empty o.device_name then codes "703e975dc388" else o.device_name;
  keep_alive = if o.keep_alive == 0 then 120 else o.keep_alive;
}

-- The bulb that Dial makes.
unfoldable pub dialled : Options → TestBulb
unfolding with_defaults
dialled o = record {
  options = with_defaults o;
  power = true;
  bright = 30;
  temp = 2;
  post_id = 0;
  stopped = false;
}

unfoldable pub topic : Options → Str → Str
topic o suffix =
    codes "/sys/" ++ (o.product_key ++ (codes "/" ++ (o.device_name ++ (codes "/" ++ suffix))))

-- The argument of EncodeConnect.
unfoldable pub connect_options : Options → ConnectOptions
connect_options o = record {
  client_id =
      o.product_key
      ++ (codes "."
          ++ (o.device_name
              ++ codes "|securemode=2,tokenType=0,_v=sdk-c-2.3.0,authtype=custom-ilop|"));
  keep_alive = o.keep_alive;
  username = o.device_name ++ (codes "&" ++ o.product_key);
  password = codes "fakebulbpassword";
  will_topic = [];
  will_payload = [];
  will_retain = false;
  will_qos = 0;
  clean_session = false;
}

unfoldable pub subscription : Options → List ℕ
unfolding topic encode_subscribe
subscription o = encode_subscribe 1 0 (topic o (codes "thing/event/+/post_reply") ∷ [])

unfoldable pub inform_version : Payloads → Options → List ℕ
unfolding encode_publish
inform_version texts o =
    encode_publish (codes "/ota/device/inform/" ++ (o.product_key ++ (codes "/" ++ o.device_name)))
      (texts.inform o.version)

-- A remaining length that never ends.
abbrev pub garbage : List ℕ
garbage = 0x30 ∷ 0xFF ∷ 0xFF ∷ 0xFF ∷ 0xFF ∷ 0xFF ∷ []

pub data DialError : Type 0 where
  sending_connect not_sent : DialError
  reading_connack decoding_connack : ProtocolError → DialError
  unexpected : ℕ → DialError
  refused : Reason → DialError

-- `accepts` says of what is written whether the write succeeds.
module _ (texts : Payloads) (accepts : List ℕ → Bool) where
  -- What was written, if anything, and whether it was.
  unfoldable pub send : TestBulb → List ℕ → List (List ℕ) × Bool
  send b p = if b.stopped then ([], false) else if accepts p then (p ∷ [], true) else ([], false)

  -- PostFullState: the number of the report is used up whether it is sent or not.
  unfoldable pub post_full_state : TestBulb → TestBulb × (List (List ℕ) × Bool)
  unfolding send topic encode_publish
  post_full_state b = (
    record b { post_id = b.post_id + 1 },
    send b (
        encode_publish (topic b.options (codes "thing/event/property/post"))
          (texts.full_state (b.post_id + 1) b.power b.bright b.temp)),
  )

  -- What comes before the report, where the bulb is not a malformed one.
  unfoldable pub introduce : TestBulb → List (List ℕ) × Bool
  unfolding send subscription inform_version is_empty
  introduce b =
      let (asked, subscribed) = send b (subscription b.options) in
      let (told, informed) = send b (inform_version texts b.options) in
      if not subscribed
      then (asked, false)
      else if is_empty b.options.version
      then (asked, true)
      else (asked ++ told, informed)

  -- What follows on an accepting CONNACK.
  unfoldable pub begin : TestBulb → TestBulb × (List (List ℕ) × Bool)
  unfolding send introduce post_full_state
  begin b =
      let (introduced, willing) = introduce b in
      let (b', (posted, sent)) = post_full_state b in
      if b.options.malformed
      then (b, send b garbage)
      else if willing
      then (b', (introduced ++ posted, sent))
      else (b, (introduced, false))

  -- The code of the first packet that the server sends.
  unfoldable pub welcome : List ℕ → Result DialError ℕ
  unfolding read_packet decode_connack
  welcome r = elim (read_packet r) [
    | err e ↦ err (reading_connack e)
    | ok (p, rest) ↦
        if not (p.type == type_connack)
        then err (unexpected p.type)
        else elim (decode_connack p.payload) [
          | err e ↦ err (decoding_connack e)
          | ok (present, code) ↦ ok code
        ]
  ]

  -- `r` is what the server sends. The bulb, all that it wrote, and the error.
  unfoldable pub handshake : TestBulb → List ℕ → TestBulb × (List (List ℕ) × Option DialError)
  unfolding send encode_connect connect_options welcome begin connack_reason
  handshake b r =
      let (connect, sent) = send b (encode_connect (connect_options b.options)) in
      let (b', (opening, opened)) = begin b in
      if not sent then (b, (connect, some sending_connect)) else elim (welcome r) [
        | err e ↦ (b, (connect, some e))
        | ok code ↦
            if not (code == connack_accepted_code)
            then (b, (connect, some (refused (connack_reason code))))
            else (b', (connect ++ opening, if opened then none else some not_sent))
      ]
