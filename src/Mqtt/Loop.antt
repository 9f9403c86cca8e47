-- ===== src/Mqtt/Loop.antt =====
-- internal/mqtt/client.go: readLoop. The reader is the bytes that the broker sends until the
-- connection ends; the calls of handlers are collected in order.
pub mod Delivery
use haigosmart.Base.{
  ℕ, zero, suc, ◌+◌, ◌≤◌, ◌<◌, ◌≡◌, refl, ◌∙◌, ap, List, [], ◌∷◌, ◌++◌, Bool, Option, none, some,
  arith, length, Result, ok, err, Result-cases, inl, inr,
}
use mathlib.Core.List.{append_assoc, append-nil}
use haigosmart.Protocol.Error.{Error}
use haigosmart.Protocol.Wire.{Packet, read_packet}
use haigosmart.Protocol.Wire.Stream.{read_packet_takes}
use haigosmart.Mqtt.{Client, Call, receive}

-- `none` is no Go value: the fuel ran out. The error is the one that ends the loop.
unfoldable pub read_loop :
    ℕ → (List ℕ → Bool) → Client → List Call → List ℕ → Option (Client × List Call × Error)
unfolding receive
read_loop zero fails c calls r = none
read_loop (suc fuel) fails c calls r = elim (read_packet r) [
  | err e ↦ some (c, calls, e)
  | ok (p, rest) ↦ let (c', new) = receive fails c p in read_loop fuel fails c' (calls ++ new) rest
]

-- A packet takes a byte at least, so one round more than there are bytes is fuel enough.
unfoldable pub read_all : (List ℕ → Bool) → Client → List ℕ → Option (Client × List Call × Error)
unfolding read_loop
read_all fails c r = read_loop (suc (length r)) fails c [] r

-- The bytes r are the packets, and then something that reads as the error e.
pub data Framed : List ℕ → List Packet → Error → Type 0 where
  stop : (r : List ℕ) (e : Error) → read_packet r ≡ err e → Framed r [] e
  more :
      (r rest : List ℕ) (p : Packet) (ps : List Packet) (e : Error)
      → read_packet r ≡ ok (p, rest)
      → Framed rest ps e
      → Framed r (p ∷ ps) e

-- One packet after the other.
unfoldable pub receive_all : (List ℕ → Bool) → Client → List Packet → Client × List Call
receive_all fails c [] = (c, [])
receive_all fails c (p ∷ ps) =
    let (c', new) = receive fails c p in
    let (c'', calls) = receive_all fails c' ps in (c'', new ++ calls)

-- What the loop gives for packets that end with e.
abbrev pub outcome : Client × List Call → List Call → Error → Option (Client × List Call × Error)
outcome (c, new) calls e = some (c, calls ++ new, e)

Framed-read_loop :
    (fuel : ℕ) (fails : List ℕ → Bool) (c : Client) (calls : List Call)
    → {r : List ℕ} {ps : List Packet} {e : Error} → Framed r ps e
    → length r < fuel
    → read_loop fuel fails c calls r ≡ outcome (receive_all fails c ps) calls e
unfolding read_loop receive_all
Framed-read_loop zero fails c calls d h = absurd (omega arith)
Framed-read_loop (suc fuel) fails c calls (stop r e x) h = rw (read_loop, x, append-nil) refl
Framed-read_loop (suc fuel) fails c calls (more r rest p ps e x d) h =
    let (size, takes, most) = read_packet_takes r p rest x in
    let step =
      Framed-read_loop fuel fails (receive fails c p).0 (calls ++ (receive fails c p).1) d
        (omega arith) in
    rw (read_loop, x) (step ∙ rw append_assoc refl)

framed :
    (fuel : ℕ) (r : List ℕ) → length r < fuel → (ps : List Packet) × (e : Error) × Framed r ps e
framed zero r h = absurd (omega arith)
framed (suc fuel) r h = elim (Result-cases (read_packet r)) [
  | inl ((p, rest), x) ↦
      let (size, takes, most) = read_packet_takes r p rest x in
      let (ps, e, d) = framed fuel rest (omega arith) in (p ∷ ps, e, more r rest p ps e x d)
  | inr (e, x) ↦ ([], e, stop r e x)
]

pub Framed-read_all :
    (fails : List ℕ → Bool) (c : Client) {r : List ℕ} {ps : List Packet} {e : Error}
    → Framed r ps e
    → read_all fails c r ≡ outcome (receive_all fails c ps) [] e
unfolding read_all
Framed-read_all fails c {r} d = Framed-read_loop (suc (length r)) fails c [] d (omega arith)

-- The read loop ends on whatever the broker sends: the bytes are packets up to a first read error, and
-- the client that it leaves, its calls of handlers and its error are those of receiving these packets
-- one after the other.
pub read_all_total :
    (fails : List ℕ → Bool) (c : Client) (r : List ℕ)
    → (ps : List Packet) × (e : Error) × Framed r ps e
      × (read_all fails c r ≡ outcome (receive_all fails c ps) [] e)
read_all_total fails c r =
    let (ps, e, d) = framed (suc (length r)) r (omega arith) in
    (ps, e, d, Framed-read_all fails c d)
