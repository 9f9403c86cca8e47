-- ===== src/Protocol/Connect/Layout.antt =====
-- The flags and the parts of a CONNECT that `encode_connect` writes.
use Prim.Native.Nat.{bit_and}
use mathlib.Core.List.{append_assoc, append-nil}
use haigosmart.Base.{
  ℕ, ◌*◌, ◌%◌, ◌<◌, ◌≡◌, refl, sym, ap, ◌∙◌, List, [], ◌∷◌, ◌++◌, Bool, true, false, not, ◌&&◌,
  arith, bool_ne, if◌then◌else◌, length,
}
use haigosmart.Base.Bytes.{put_u16, all_below, all_below_sound, low_two}
use haigosmart.Base.Text.{Str, codes, is_empty}
use haigosmart.Protocol.Wire.{append_string}
use haigosmart.Protocol.Wire.RoundTrip.{IsAt, IsAt-start}
use haigosmart.Protocol.Connect.{ConnectOptions, has_flag, set_flag, connect_flags, connect_body}

-- The flags as a function of what they depend on, `level` being the will's QoS.
abbrev flags_of : Bool → Bool → Bool → Bool → Bool → ℕ → ℕ
flags_of clean no_will retain no_pass no_user level =
    let c = set_flag clean 2 0 in
    let w =
      if no_will
      then c
      else set_flag retain 32 (Prim.Native.Nat.bit_or c (Prim.Native.Nat.bit_or 4 (level * 8))) in
    set_flag (not no_user) 128 (set_flag (not no_pass) 64 w)

abbrev agree : Bool → Bool → Bool
agree a b = not (bool_ne a b)

-- The four flags that the readers test say what the writer put in.
abbrev flags_read : Bool → Bool → Bool → Bool → Bool → ℕ → Bool
flags_read c w r p u level =
    let f = flags_of c w r p u level in
    agree (has_flag f 4) (not w)
    && (agree (has_flag f 32) (not w && r)
        && (agree (has_flag f 128) (not u) && agree (has_flag f 64) (not p)))

abbrev both : (Bool → Bool) → Bool
both p = p false && p true

both_sound : (p : Bool → Bool) → both p ≡ true → (b : Bool) → p b ≡ true
both_sound p h false = ground arith
both_sound p h true = ground arith

abbrev for_user : Bool → Bool → Bool → Bool → Bool → Bool
for_user c w r p u = all_below 4 (flags_read c w r p u)

abbrev for_pass : Bool → Bool → Bool → Bool → Bool
for_pass c w r p = both (for_user c w r p)

abbrev for_retain : Bool → Bool → Bool → Bool
for_retain c w r = both (for_pass c w r)

abbrev for_will : Bool → Bool → Bool
for_will c w = both (for_retain c w)

flags_table : both (λ c. both (for_will c)) ≡ true
unfolding all_below
flags_table = refl

flags_tabulated : (c w r p u : Bool) → all_below 4 (flags_read c w r p u) ≡ true
flags_tabulated c w r p u =
    let hc = both_sound (λ b. both (for_will b)) flags_table c in
    let hw = both_sound (for_will c) hc w in
    let hr = both_sound (for_retain c w) hw r in
    let hp = both_sound (for_pass c w r) hr p in both_sound (for_user c w r p) hp u

agree→eq : (a b : Bool) → agree a b ≡ true → a ≡ b
agree→eq a b h = ground arith

and-split :
    (a b c d : Bool)
    → (a && (b && (c && d))) ≡ true
    → (a ≡ true) × (b ≡ true) × (c ≡ true) × (d ≡ true)
and-split a b c d h = ground arith

pub flags_lem :
    (o : ConnectOptions)
    → o.will_qos < 256
    → (has_flag (connect_flags o) 4 ≡ not (is_empty o.will_topic))
      × (has_flag (connect_flags o) 32 ≡ (not (is_empty o.will_topic) && o.will_retain))
      × (has_flag (connect_flags o) 128 ≡ not (is_empty o.username))
      × (has_flag (connect_flags o) 64 ≡ not (is_empty o.password))
unfolding connect_flags
flags_lem o h =
    let read =
      all_below_sound 4
        (flags_read o.clean_session (is_empty o.will_topic) o.will_retain (is_empty o.password)
          (is_empty o.username))
        (bit_and o.will_qos 3)
        (flags_tabulated o.clean_session (is_empty o.will_topic) o.will_retain (is_empty o.password)
          (is_empty o.username))
        (rw (low_two o.will_qos h) (omega arith)) in
    let (w, r, u, p) = and-split _ _ _ _ read in
    (agree→eq _ _ w, agree→eq _ _ r, agree→eq _ _ u, agree→eq _ _ p)

append_string-nil : (dst s : Str) → append_string dst s ≡ dst ++ append_string [] s
unfolding append_string
append_string-nil dst s = append_assoc dst (put_u16 (length s % 65536)) s

-- What an optional string adds to the body.
abbrev pub optional_part : Str → List ℕ
optional_part s = if is_empty s then [] else append_string [] s

abbrev pub will_part : ConnectOptions → List ℕ
will_part o =
    if is_empty o.will_topic
    then []
    else append_string [] o.will_topic ++ append_string [] o.will_payload

-- The body with its parts one after the other.
abbrev pub laid_out : ConnectOptions → List ℕ
laid_out o =
    0
    ∷ 4
    ∷ b'M'
    ∷ b'Q'
    ∷ b'T'
    ∷ b'T'
    ∷ 4
    ∷ connect_flags o
    ∷ (put_u16 (o.keep_alive % 65536)
        ++ (append_string [] o.client_id
            ++ (will_part o ++ (optional_part o.username ++ optional_part o.password))))

append_optional :
    (b : Bool) (dst s : Str)
    → (if b then dst else append_string dst s) ≡ dst ++ (if b then [] else append_string [] s)
append_optional true dst s = sym (append-nil dst)
append_optional false dst s = append_string-nil dst s

append_will :
    (b : Bool) (dst t p : Str)
    → (if b then dst else append_string dst t ++ put_u16 (length p % 65536) ++ p)
      ≡ dst ++ (if b then [] else append_string [] t ++ append_string [] p)
append_will true dst t p = sym (append-nil dst)
append_will false dst t p = unfold append_string in simp append_assoc

pub connect_body_lem : (o : ConnectOptions) → connect_body o ≡ laid_out o
unfolding connect_body
connect_body_lem o =
    append_optional (is_empty o.password) _ o.password
    ∙ ap (λ t. t ++ pass)
        (append_optional (is_empty o.username) _ o.username
          ∙ ap (λ t. t ++ user)
              (append_will (is_empty o.will_topic) _ o.will_topic o.will_payload
                ∙ ap (λ t. t ++ will_part o)
                    (append_string-nil (head ++ put_u16 (o.keep_alive % 65536)) o.client_id)))
    ∙ simp append_assoc
  where
    head : List ℕ
    head = 0 ∷ 4 ∷ b'M' ∷ b'Q' ∷ b'T' ∷ b'T' ∷ 4 ∷ connect_flags o ∷ []

    pass : List ℕ
    pass = optional_part o.password

    user : List ℕ
    user = optional_part o.username

abbrev pub after_client : ConnectOptions → List ℕ
after_client o = will_part o ++ (optional_part o.username ++ optional_part o.password)

abbrev pub after_header : ConnectOptions → List ℕ
after_header o = append_string [] o.client_id ++ after_client o

abbrev pub header : ConnectOptions → List ℕ
header o = 4 ∷ connect_flags o ∷ put_u16 (o.keep_alive % 65536)

pub IsAt-name :
    (o : ConnectOptions)
    → IsAt (laid_out o) 0 (append_string [] (codes "MQTT") ++ (header o ++ after_header o))
unfolding append_string
IsAt-name o = IsAt-start (laid_out o)
