-- ===== src/TestBroker/Will.antt =====
-- internal/mqtt/mqtttest/broker.go: the will that the broker takes out of a CONNECT.
use haigosmart.Base.{
  ℕ, ◌+◌, ◌≡◌, refl, ◌∙◌, List, [], ◌++◌, true, false, Option, none, some, arith, ok, ltb,
  if◌then◌else◌, length, Bool-cases, inl, inr,
}
use mathlib.Core.Path.{subst}
use mathlib.Core.List.{append_assoc}
use haigosmart.Base.Text.{Str, codes, is_empty}
use haigosmart.Protocol.Wire.{read_string, append_string, byte_at}
use haigosmart.Protocol.Wire.RoundTrip.{IsAt, IsAt-skip, read_string-append_string}
use haigosmart.Protocol.Connect.{ConnectOptions, has_flag, connect_body}
use haigosmart.Protocol.Connect.Layout.{
  flags_lem, optional_part, laid_out, connect_body_lem, after_client, after_header, header,
  IsAt-name,
}
use haigosmart.Protocol.Connect.RoundTrip.{Fits}
use haigosmart.TestBroker.{Message, read_str, capture_will}

-- What `readString` reads, `readStr` reads.
read_str-read_string :
    (b : List ℕ) (i : ℕ) (s : Str) (j : ℕ)
    → read_string b i ≡ ok (s, j)
    → read_str b i ≡ some (s, j)
unfolding read_str read_string
read_str-read_string b i s j done = ground arith

-- The will that the options ask for.
abbrev pub will_of : ConnectOptions → Option Message
will_of o =
    if is_empty o.will_topic
    then none
    else some (record { topic = o.will_topic; payload = o.will_payload; retain = o.will_retain })

module _ (b : List ℕ) where
  capture_will_steps :
      (client topic body : Str) (i j k : ℕ)
      → ltb (length b) 10 ≡ false
      → has_flag (byte_at b 7) 4 ≡ true
      → read_str b 10 ≡ some (client, i)
      → read_str b i ≡ some (topic, j)
      → read_str b j ≡ some (body, k)
      → capture_will b
        ≡ some (record { topic = topic; payload = body; retain = has_flag (byte_at b 7) 32 })
  unfolding capture_will
  capture_will_steps client topic body i j k long flag e₁ e₂ e₃ =
      rw long (rw flag (rw e₁ (rw e₂ (rw e₃ refl))))

  capture_will_off :
      ltb (length b) 10 ≡ false → has_flag (byte_at b 7) 4 ≡ false → capture_will b ≡ none
  unfolding capture_will
  capture_will_off long off = rw long (rw off refl)

enough : (n m : ℕ) → n ≡ 10 + m → ltb n 10 ≡ false
enough n m h = ground arith

capture_will-laid_out : (o : ConnectOptions) → Fits o → capture_will (laid_out o) ≡ will_of o
capture_will-laid_out o f =
    let b = laid_out o in
    let (will, keep, user, pass) = flags_lem o f.will_qos in
    let (r₀, a₀) =
      read_string-append_string b 0 (codes "MQTT") (header o ++ after_header o) (omega arith)
        (IsAt-name o) in
    let a₁ = IsAt-skip b 6 (header o) (after_header o) a₀ in
    let (r₁, a₂) = read_string-append_string b 10 o.client_id (after_client o) f.client_id a₁ in
    elim (Bool-cases (is_empty o.will_topic)) [
      | inl e ↦
          let off : has_flag (byte_at b 7) 4 ≡ false = will ∙ rw e refl in
          capture_will_off b (enough (length b) (length (after_header o)) a₁.within) off ∙ rw e refl
      | inr e ↦
          let rest = optional_part o.username ++ optional_part o.password in
          let parts : after_client o
              ≡ append_string [] o.will_topic ++ (append_string [] o.will_payload ++ rest) =
            rw e (rw append_assoc refl) in
          let at_will : IsAt b (10 + 2 + length o.client_id)
              (append_string [] o.will_topic ++ (append_string [] o.will_payload ++ rest)) =
            subst (IsAt b (10 + 2 + length o.client_id)) parts a₂ in
          let (r₂, a₃) =
            read_string-append_string b (10 + 2 + length o.client_id) o.will_topic
              (append_string [] o.will_payload ++ rest) f.will_topic at_will in
          let (r₃, a₄) =
            read_string-append_string b (10 + 2 + length o.client_id + 2 + length o.will_topic)
              o.will_payload rest f.will_payload a₃ in
          let on : has_flag (byte_at b 7) 4 ≡ true = will ∙ rw e refl in
          let kept : has_flag (byte_at b 7) 32 ≡ o.will_retain = keep ∙ rw e refl in
          capture_will_steps b o.client_id o.will_topic o.will_payload _ _ _
            (enough (length b) (length (after_header o)) a₁.within) on
            (read_str-read_string b 10 o.client_id _ r₁)
            (read_str-read_string b _ o.will_topic _ r₂)
            (read_str-read_string b _ o.will_payload _ r₃)
          ∙ rw (e, kept) refl
    ]

-- From a CONNECT that the client builds, its strings fitting their length prefixes, the broker takes
-- the client's will, and none where it has none.
pub capture_will-connect_body :
    (o : ConnectOptions) → Fits o → capture_will (connect_body o) ≡ will_of o
capture_will-connect_body o f = rw (connect_body_lem o) (capture_will-laid_out o f)
