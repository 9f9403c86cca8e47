-- ===== src/Protocol/Wire.antt =====
-- internal/protocol/mqtt.go: control packets, the remaining length, and strings. A reader is the list
-- of the bytes that it will still yield, and what a function leaves of it is returned.
pub mod RoundTrip
pub mod Bounds
pub mod Stream
use Prim.Native.Nat.{bit_and, bit_or}
use mathlib.Core.Logic.{dite}
use mathlib.Core.WellFounded.{Acc, WellFounded}
use native.Mathlib.Decide.{dec_lt}
use haigosmart.Base.{
  ℕ, zero, suc, ◌+◌, ◌*◌, ◌/◌, ◌%◌, ◌^◌, ◌≤◌, ◌<◌, ◌≡◌, List, [], ◌∷◌, ◌++◌, Bool, true, false, not,
  arith, ltb, leb, ◌==◌, if◌then◌else◌, length, take, drop, Result, ok, err, ◌>>=◌, wrap_error,
  Option, none, some,
}
use haigosmart.Base.Bytes.{put_u16, u16}
use haigosmart.Base.Text.{Str}
use haigosmart.Protocol.Error.{
  Error, eof, unexpected_eof, packet_too_large, reading_body, reading_remaining_length,
  malformed_remaining_length, truncated_string_length, string_exceeds_packet,
}

abbrev pub type_connect : ℕ
type_connect = 1

abbrev pub type_connack : ℕ
type_connack = 2

abbrev pub type_publish : ℕ
type_publish = 3

abbrev pub type_puback : ℕ
type_puback = 4

abbrev pub type_subscribe : ℕ
type_subscribe = 8

abbrev pub type_suback : ℕ
type_suback = 9

abbrev pub type_unsubscribe : ℕ
type_unsubscribe = 10

abbrev pub type_pingreq : ℕ
type_pingreq = 12

abbrev pub type_pingresp : ℕ
type_pingresp = 13

abbrev pub type_disconnect : ℕ
type_disconnect = 14

-- 1 << 20
abbrev pub max_packet_size : ℕ
max_packet_size = 1_048_576

pub record Packet : Type 0 where
  pub type : ℕ
  pub flags : ℕ
  pub payload : List ℕ

unfoldable pub qos : Packet → ℕ
qos p = bit_and (p.flags / 2) 3

unfoldable pub retained : Packet → Bool
retained p = not (bit_and p.flags 1 == 0)

-- r.ReadByte()
abbrev read_byte : List ℕ → Result Error (ℕ × List ℕ)
read_byte [] = err eof
read_byte (b ∷ r) = ok (b, r)

-- One round of the loop for each of the `rounds` that are left.
unfoldable pub read_varint_loop : ℕ → ℕ → ℕ → List ℕ → Result Error (ℕ × List ℕ)
read_varint_loop zero value multiplier r = err malformed_remaining_length
read_varint_loop (suc rounds) value multiplier [] = err (reading_remaining_length eof)
read_varint_loop (suc rounds) value multiplier (b ∷ r) =
    let value' = value + bit_and b 127 * multiplier in
    let more = read_varint_loop rounds value' (multiplier * 128) r in
    if bit_and b 128 == 0 then ok (value', r) else more

unfoldable pub read_varint : List ℕ → Result Error (ℕ × List ℕ)
unfolding read_varint_loop
read_varint r = read_varint_loop 4 0 1 r

-- io.ReadFull of n bytes: no byte at all is io.EOF, too few are io.ErrUnexpectedEOF.
unfoldable pub read_full : ℕ → List ℕ → Result Error (List ℕ × List ℕ)
read_full n r =
    if leb n (length r)
    then ok (take n r, drop n r)
    else err (if length r == 0 then eof else unexpected_eof)

unfoldable pub read_packet : List ℕ → Result Error (Packet × List ℕ)
unfolding read_varint read_full
read_packet r = do
  (head, r₁) ← read_byte r
  (length_read, r₂) ← read_varint r₁
  if ltb max_packet_size length_read then err (packet_too_large length_read) else do
    (body, r₃) ← wrap_error (reading_body length_read) (read_full length_read r₂)
    ok (record { type = head / 16; flags = bit_and head 15; payload = body }, r₃)

pub div_shrinks : (n : ℕ) → 0 < n / 128 → n / 128 < n
div_shrinks n h = omega arith

acc_below : (k n : ℕ) → n < k → Acc ◌<◌ n
acc_below zero n h = absurd (omega arith)
acc_below (suc k) n h = Acc.intro n (λ m hm. acc_below k m (omega arith))

unfoldable pub lt_wf : WellFounded ◌<◌
unfolding acc_below
lt_wf = record { apply = λ n. acc_below (suc n) n (omega arith) }

unfoldable pub append_varint_loop : List ℕ → (n : ℕ) → Acc ◌<◌ n → List ℕ
append_varint_loop dst n (Acc.intro _ smaller) =
    let digit = n % 128 in
    dite (dec_lt 0 (n / 128))
      (λ more.
        append_varint_loop (dst ++ bit_or digit 128 ∷ []) (n / 128)
          (smaller (n / 128) (div_shrinks n more)))
      (λ _. dst ++ digit ∷ [])

unfoldable pub append_varint : List ℕ → ℕ → List ℕ
unfolding append_varint_loop lt_wf dec_lt
append_varint dst n = append_varint_loop dst n (lt_wf.apply n)

-- `typ<<4|flags` is a byte.
unfoldable pub encode : ℕ → ℕ → List ℕ → List ℕ
unfolding append_varint
encode typ flags payload =
    append_varint (bit_or (typ * 16 % 256) flags ∷ []) (length payload) ++ payload

-- binary.BigEndian.Uint16(b); Go would panic on fewer than two bytes, which no caller passes.
abbrev pub uint16 : List ℕ → ℕ
uint16 [] = 0
uint16 (hi ∷ []) = 0
uint16 (hi ∷ lo ∷ r) = u16 hi lo

-- b[i], with 0 out of range, where Go would panic; no caller goes there.
abbrev pub byte_at : List ℕ → ℕ → ℕ
byte_at [] i = 0
byte_at (b ∷ r) zero = b
byte_at (b ∷ r) (suc i) = byte_at r i

-- The string at offset i of b, and the offset behind it.
unfoldable pub read_string : List ℕ → ℕ → Result Error (Str × ℕ)
read_string b i =
    let n = uint16 (drop i b) in
    if ltb (length b) (i + 2)
    then err truncated_string_length
    else if ltb (length b) (i + 2 + n)
    then err (string_exceeds_packet n)
    else ok (take n (drop (i + 2) b), i + 2 + n)

-- uint16(len(s)) keeps the low 16 bits.
unfoldable pub append_string : List ℕ → Str → List ℕ
append_string dst s = (dst ++ put_u16 (length s % 65536)) ++ s
