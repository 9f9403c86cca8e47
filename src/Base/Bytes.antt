-- ===== src/Base/Bytes.antt =====
-- Bytes as numbers below 256: masks as arithmetic, and `encoding/binary`'s big-endian uint16.
use Prim.Native.Nat.{ℕ, zero, suc, ◌+◌, ◌*◌, ◌/◌, ◌%◌, ◌<◌, bit_and, bit_or}
use mathlib.Core.Path.{◌≡◌, refl}
use mathlib.Core.Bool.{Bool, true, ◌&&◌}
use mathlib.Core.List.{List, [], ◌∷◌}
use native.Mathlib.Omega.{arith}
use haigosmart.Base.Tests.{◌==◌, ==_iff}

-- A law over a small range, checked value by value.
unfoldable pub all_below : ℕ → (ℕ → Bool) → Bool
all_below zero p = true
all_below (suc n) p = p n && all_below n p

pub all_below_sound :
    (bound : ℕ) (test : ℕ → Bool) (i : ℕ) → all_below bound test ≡ true → i < bound → test i ≡ true
unfolding all_below
all_below_sound zero test i all small = absurd (omega arith)
all_below_sound (suc bound) test i all small = ground (arith, all_below_sound bound test i)

below_eq :
    (bound : ℕ) (left right : ℕ → ℕ)
    → all_below bound (λ i. left i == right i) ≡ true
    → (i : ℕ) → i < bound
    → left i ≡ right i
below_eq bound left right same i small =
    (==_iff _ _).0 (all_below_sound bound (λ k. left k == right k) i same small)

pub low_bits : (b : ℕ) → b < 256 → bit_and b 127 ≡ b % 128
unfolding all_below
low_bits = below_eq 256 _ _ refl

pub top_bit : (b : ℕ) → b < 256 → bit_and b 128 ≡ b / 128 * 128
unfolding all_below
top_bit = below_eq 256 _ _ refl

pub set_top_bit : (b : ℕ) → b < 128 → bit_or b 128 ≡ b + 128
unfolding all_below
set_top_bit = below_eq 128 _ _ refl

pub low_nibble : (b : ℕ) → b < 256 → bit_and b 15 ≡ b % 16
unfolding all_below
low_nibble = below_eq 256 _ _ refl

pub low_two : (b : ℕ) → b < 256 → bit_and b 3 ≡ b % 4
unfolding all_below
low_two = below_eq 256 _ _ refl

join_table : (b : ℕ) → b < 256 → bit_or (b / 16 * 16) (b % 16) ≡ b
unfolding all_below
join_table = below_eq 256 _ _ refl

-- The two nibbles of a byte put together.
pub join_nibbles : (hi lo : ℕ) → hi < 16 → lo < 16 → bit_or (hi * 16) lo ≡ hi * 16 + lo
join_nibbles hi lo h l =
    let q : (hi * 16 + lo) / 16 * 16 ≡ hi * 16 = omega arith in
    let r : (hi * 16 + lo) % 16 ≡ lo = omega arith in
    rw (q, r) at (join_table (hi * 16 + lo) (omega arith))

-- binary.BigEndian.AppendUint16: the two bytes of a uint16.
abbrev pub put_u16 : ℕ → List ℕ
put_u16 n = (n / 256 % 256) ∷ (n % 256) ∷ []

-- binary.BigEndian.Uint16 of two bytes.
abbrev pub u16 : ℕ → ℕ → ℕ
u16 hi lo = hi * 256 + lo

pub u16-put_u16 : (n : ℕ) → n < 65536 → u16 (n / 256 % 256) (n % 256) ≡ n
u16-put_u16 n h = omega arith
