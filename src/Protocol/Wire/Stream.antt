-- ===== src/Protocol/Wire/Stream.antt =====
-- `read_packet` on any input, well formed or not: what it takes, and that it looks no further.
use Prim.Native.Nat.{bit_and}
use haigosmart.Base.{
  ℕ, zero, suc, ◌+◌, ◌*◌, ◌/◌, ◌-◌, ap, wrap_error, Result, ◌≤◌, ◌≡◌, refl, List, [], ◌∷◌, ◌++◌,
  arith, ltb, if◌then◌else◌, length, length-append, drop-append, length-take, length-drop, take,
  drop, ok, err, ◌>>=◌, >>=-eq-ok,
}
use haigosmart.Protocol.Wire.{
  Packet, read_varint_loop, read_varint, read_full, read_packet, max_packet_size,
}
use haigosmart.Protocol.Error.{Error, packet_too_large, reading_body}

take-append : (n : ℕ) (s t : List ℕ) → n ≤ length s → take n (s ++ t) ≡ take n s
take-append zero s t h = refl
take-append (suc n) [] t h = absurd (omega arith)
take-append (suc n) (x ∷ s) t h = rw (take-append n s t (omega arith))

read_varint_loop_takes :
    (rounds value multiplier : ℕ) (r : List ℕ) (n : ℕ) (rest : List ℕ)
    → read_varint_loop rounds value multiplier r ≡ ok (n, rest)
    → (length rest + 1 ≤ length r) × (length r ≤ length rest + rounds)
unfolding read_varint_loop
read_varint_loop_takes zero value multiplier r n rest e = cc
read_varint_loop_takes (suc rounds) value multiplier [] n rest e = cc
read_varint_loop_takes (suc rounds) value multiplier (b ∷ r) n rest e = ground (
  arith,
  read_varint_loop_takes rounds (value + bit_and b 127 * multiplier) (multiplier * 128) r n rest,
)

read_varint_loop-append :
    (more : List ℕ) (rounds value multiplier : ℕ) (r : List ℕ) (n : ℕ) (rest : List ℕ)
    → read_varint_loop rounds value multiplier r ≡ ok (n, rest)
    → read_varint_loop rounds value multiplier (r ++ more) ≡ ok (n, rest ++ more)
unfolding read_varint_loop
read_varint_loop-append more zero value multiplier r n rest e = cc
read_varint_loop-append more (suc rounds) value multiplier [] n rest e = cc
read_varint_loop-append more (suc rounds) value multiplier (b ∷ r) n rest e = ground (
  arith,
  read_varint_loop-append more rounds (value + bit_and b 127 * multiplier) (multiplier * 128) r n
      rest,
)

read_varint_takes :
    (r : List ℕ) (n : ℕ) (rest : List ℕ)
    → read_varint r ≡ ok (n, rest)
    → (length rest + 1 ≤ length r) × (length r ≤ length rest + 4)
unfolding read_varint
read_varint_takes r n rest e = read_varint_loop_takes 4 0 1 r n rest e

read_varint-append :
    (more r : List ℕ) (n : ℕ) (rest : List ℕ)
    → read_varint r ≡ ok (n, rest)
    → read_varint (r ++ more) ≡ ok (n, rest ++ more)
unfolding read_varint
read_varint-append more r n rest e = read_varint_loop-append more 4 0 1 r n rest e

-- The successful reads that make up a successful `read_packet`.
record Reads (b : ℕ) (r : List ℕ) (p : Packet) (rest : List ℕ) : Type 0 where
  size : ℕ
  behind : List ℕ
  varint : read_varint r ≡ ok (size, behind)
  allowed : size ≤ max_packet_size
  enough : size ≤ length behind
  body : p ≡ record { type = b / 16; flags = bit_and b 15; payload = take size behind }
  left : rest ≡ drop size behind

-- What `read_packet` does behind the remaining length n.
abbrev finish : ℕ → ℕ → List ℕ → Result Error (Packet × List ℕ)
finish b n s = if ltb max_packet_size n then err (packet_too_large n) else do
  (body, r) ← wrap_error (reading_body n) (read_full n s)
  ok (record { type = b / 16; flags = bit_and b 15; payload = body }, r)

body_reads :
    (b n : ℕ) (s : List ℕ) (p : Packet) (rest : List ℕ)
    → finish b n s ≡ ok (p, rest)
    → (n ≤ max_packet_size)
      × (n ≤ length s)
      × (p ≡ record { type = b / 16; flags = bit_and b 15; payload = take n s })
      × (rest ≡ drop n s)
unfolding read_full
body_reads b n s p rest e = (ground arith, ground arith, ground arith, ground arith)

read_packet-Reads :
    (b : ℕ) (r : List ℕ) (p : Packet) (rest : List ℕ)
    → read_packet (b ∷ r) ≡ ok (p, rest)
    → Reads b r p rest
unfolding read_packet
read_packet-Reads b r p rest e =
    let ((n, s), v, e') = >>=-eq-ok (read_varint r) _ e in
    let (allowed, enough, body, left) = body_reads b n s p rest e' in
    record {
      size = n;
      behind = s;
      varint = v;
      allowed = allowed;
      enough = enough;
      body = body;
      left = left;
    }

-- A packet that is read has a body within the size limit, and 2 to 5 bytes of header stand before it:
-- nothing else of the input is taken.
pub read_packet_takes :
    (r : List ℕ) (p : Packet) (rest : List ℕ)
    → read_packet r ≡ ok (p, rest)
    → (length p.payload ≤ max_packet_size)
      × (length rest + length p.payload + 2 ≤ length r)
      × (length r ≤ length rest + length p.payload + 5)
read_packet_takes [] p rest e = unfold read_packet in cc
read_packet_takes (b ∷ r) p rest e =
    let d = read_packet-Reads b r p rest e in
    let (lo, hi) = read_varint_takes r d.size d.behind d.varint in
    let taken : length p.payload ≡ d.size =
      rw (ap Packet.payload d.body) (omega (arith, length-take d.size d.behind, d.enough)) in
    let rest_length : length rest ≡ length d.behind - d.size =
      rw d.left (length-drop d.size d.behind) in
    omega (arith, taken, rest_length, d.allowed, d.enough, lo, hi)

finish-append :
    (b n : ℕ) (s more : List ℕ)
    → n ≤ max_packet_size
    → n ≤ length s
    → finish b n (s ++ more)
      ≡ ok (record { type = b / 16; flags = bit_and b 15; payload = take n s }, drop n s ++ more)
unfolding read_full
finish-append b n s more allowed enough =
    rw (take-append n s more enough, drop-append n s more enough)
      (ground (arith, length-append s more))

-- Bytes that arrive later do not change a packet that was read: they join what is left unread.
pub read_packet-append :
    (r more : List ℕ) (p : Packet) (rest : List ℕ)
    → read_packet r ≡ ok (p, rest)
    → read_packet (r ++ more) ≡ ok (p, rest ++ more)
read_packet-append [] more p rest e = unfold read_packet in cc
read_packet-append (b ∷ r) more p rest e =
    let d = read_packet-Reads b r p rest e in
    rw (d.body, d.left)
      (unfold read_packet in
        rw (read_varint-append more r d.size d.behind d.varint)
          (finish-append b d.size d.behind more d.allowed d.enough))
