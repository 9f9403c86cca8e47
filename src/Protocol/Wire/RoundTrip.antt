-- ===== src/Protocol/Wire/RoundTrip.antt =====
-- What `encode` writes, `read_packet` reads back; the same for strings.
use Prim.Native.Nat.{bit_or}
use mathlib.Core.List.{append_assoc}
use native.Mathlib.Nat.{div-add-mod}
use haigosmart.Base.{
  ℕ, zero, suc, ◌+◌, ◌*◌, ◌/◌, ◌%◌, ◌^◌, ◌≤◌, ◌<◌, ◌≡◌, refl, List, [], ◌∷◌, ◌++◌, arith, ap,
  length, length-append, ok, drop, take-append_length, drop-append_length, drop-drop,
}
use haigosmart.Base.Bytes.{low_bits, top_bit, join_nibbles, low_nibble, put_u16, u16-put_u16}
use haigosmart.Protocol.Wire.{
  read_varint_loop, read_varint, read_full, read_packet, encode, max_packet_size, read_string,
  append_string, uint16,
}
use haigosmart.Protocol.Wire.Bounds.{groups, append_varint-groups}

last_group :
    (rounds value multiplier b : ℕ) (r : List ℕ)
    → b < 128
    → read_varint_loop (suc rounds) value multiplier (b ∷ r) ≡ ok (value + b * multiplier, r)
unfolding read_varint_loop
last_group rounds value multiplier b r h = ground (arith, low_bits b, top_bit b)

inner_group :
    (rounds value multiplier g : ℕ) (r : List ℕ)
    → g < 128
    → read_varint_loop (suc rounds) value multiplier ((g + 128) ∷ r)
      ≡ read_varint_loop rounds (value + g * multiplier) (multiplier * 128) r
unfolding read_varint_loop
inner_group rounds value multiplier g r h = ground (arith, low_bits (g + 128), top_bit (g + 128))

split_group : (n m : ℕ) → n * m ≡ n % 128 * m + n / 128 * (m * 128)
split_group n m = omega (arith, ap (λ (t : ℕ). t * m) (div-add-mod n 128))

read_varint_loop-groups :
    (k n value multiplier : ℕ) (r : List ℕ)
    → n < 128 ^ suc k
    → read_varint_loop (suc k) value multiplier (groups k n ++ r) ≡ ok (value + n * multiplier, r)
unfolding groups
read_varint_loop-groups zero n value multiplier r h =
    last_group 0 value multiplier n r (omega arith)
read_varint_loop-groups (suc k) n value multiplier r h = ground (
  arith,
  last_group (suc k) value multiplier n r,
  split_group n multiplier,
  inner_group (suc k) value multiplier (n % 128) (groups k (n / 128) ++ r),
  read_varint_loop-groups k (n / 128) (value + n % 128 * multiplier) (multiplier * 128) r
      (omega arith),
)

read_varint-groups : (n : ℕ) (r : List ℕ) → n < 128 ^ 4 → read_varint (groups 3 n ++ r) ≡ ok (n, r)
unfolding read_varint
read_varint-groups n r h = ground (arith, read_varint_loop-groups 3 n 0 1 r)

read_full-append : (s r : List ℕ) → read_full (length s) (s ++ r) ≡ ok (s, r)
unfolding read_full
read_full-append s r =
    ground (arith, length-append s r, take-append_length s r, drop-append_length s r)

head_byte : (t f : ℕ) → t < 16 → f < 16 → bit_or (t * 16 % 256) f ≡ t * 16 + f
head_byte t f ht hf = let e : t * 16 % 256 ≡ t * 16 = omega arith in rw e (join_nibbles t f ht hf)

encode_lem :
    (t f : ℕ) (payload : List ℕ)
    → t < 16
    → f < 16
    → length payload ≤ max_packet_size
    → encode t f payload ≡ (t * 16 + f) ∷ (groups 3 (length payload) ++ payload)
unfolding encode
encode_lem t f payload ht hf h =
    rw (append_varint-groups _ (length payload) (omega arith), head_byte t f ht hf)

-- A packet whose type and flags fit four bits and whose body is within the size limit is read back
-- from its encoding, whatever follows it on the connection, and what follows is left unread.
pub read_packet-encode :
    (t f : ℕ) (payload rest : List ℕ)
    → t < 16
    → f < 16
    → length payload ≤ max_packet_size
    → read_packet (encode t f payload ++ rest)
      ≡ ok (record { type = t; flags = f; payload = payload }, rest)
unfolding read_packet
read_packet-encode t f payload rest ht hf h =
    rw (encode_lem t f payload ht hf h, append_assoc (groups 3 (length payload)) payload rest)
      (rw (read_varint-groups (length payload) (payload ++ rest) (omega arith)) (
        ground (
          arith,
          read_full-append payload rest,
          low_nibble (t * 16 + f) (omega arith),
          high t f hf,
        )))
  where
    high : (a b : ℕ) → b < 16 → (a * 16 + b) / 16 ≡ a
    high a b hb = omega arith

-- From offset i on the buffer b holds rest, and nothing else.
pub record IsAt (b : List ℕ) (i : ℕ) (rest : List ℕ) : Type 0 where
  pub holds : drop i b ≡ rest
  pub within : length b ≡ i + length rest

pub IsAt-start : (b : List ℕ) → IsAt b 0 b
IsAt-start b = record { holds = refl; within = omega arith }

pub IsAt-skip :
    (b : List ℕ) (i : ℕ) (front rest : List ℕ)
    → IsAt b i (front ++ rest)
    → IsAt b (i + length front) rest
IsAt-skip b i front rest a = record {
  holds = rw (← drop-drop i (length front) b, a.holds) (drop-append_length front rest);
  within = omega (arith, a.within, length-append front rest);
}

-- A string shorter than 2 ^ 16 is read back at the offset where it was appended, and the offset
-- returned is that of what follows it.
pub read_string-append_string :
    (b : List ℕ) (i : ℕ) (s rest : List ℕ)
    → length s < 65536
    → IsAt b i (append_string [] s ++ rest)
    → (read_string b i ≡ ok (s, i + 2 + length s)) × IsAt b (i + 2 + length s) rest
unfolding read_string append_string
read_string-append_string b i s rest h a =
    let size : length s % 65536 ≡ length s = omega arith in
    let n : uint16 (drop i b) ≡ length s = rw (a.holds, size) (u16-put_u16 (length s) h) in
    let room : length b ≡ i + 2 + length s + length rest =
      omega (arith, a.within, length-append s rest) in
    let text : IsAt b (i + 2) (s ++ rest) =
      IsAt-skip b i (put_u16 (length s % 65536)) (s ++ rest) a in
    (
      rw (n, text.holds, take-append_length s rest) (ground (arith, room)),
      IsAt-skip b (i + 2) s rest text,
    )
