-- ===== src/Protocol/Wire/Bounds.antt =====
-- The remaining length on the wire, in plain arithmetic, and its length.
use mathlib.Core.List.{append_assoc}
use mathlib.Core.WellFounded.{Acc}
use haigosmart.Base.{
  ℕ, zero, suc, ◌+◌, ◌/◌, ◌%◌, ◌^◌, ◌≤◌, ◌<◌, ◌≡◌, List, [], ◌∷◌, ◌++◌, arith, ltb, if◌then◌else◌,
  length,
}
use haigosmart.Base.Bytes.{set_top_bit}
use haigosmart.Protocol.Wire.{append_varint_loop, append_varint, lt_wf}

-- At most `suc k` groups of seven bits, lowest first, the top bit set on all but the last.
unfoldable pub groups : ℕ → ℕ → List ℕ
groups zero n = n ∷ []
groups (suc k) n =
    let rest = groups k (n / 128) in if ltb n 128 then n ∷ [] else (n % 128 + 128) ∷ rest

append_varint_loop-groups :
    (k : ℕ) (dst : List ℕ) (n : ℕ) (w : Acc ◌<◌ n)
    → n < 128 ^ suc k
    → append_varint_loop dst n w ≡ dst ++ groups k n
unfolding append_varint_loop groups
append_varint_loop-groups zero dst n (Acc.intro _ smaller) h = ground arith
append_varint_loop-groups (suc k) dst n (Acc.intro _ smaller) h =
    let digit : List ℕ = (n % 128 + 128) ∷ [] in
    grind (
      arith,
      set_top_bit (n % 128),
      λ (w : Acc ◌<◌ (n / 128)).
          append_varint_loop-groups k (dst ++ digit) (n / 128) w (omega arith),
      append_assoc dst digit (groups k (n / 128)),
    )

-- Below 128 ^ 4, which is the most that the wire holds, the bytes are the four groups.
pub append_varint-groups :
    (dst : List ℕ) (n : ℕ) → n < 128 ^ 4 → append_varint dst n ≡ dst ++ groups 3 n
unfolding append_varint
append_varint-groups dst n h = append_varint_loop-groups 3 dst n (lt_wf.apply n) (omega arith)

pub length-groups : (k n : ℕ) → (1 ≤ length (groups k n)) × (length (groups k n) ≤ k + 1)
unfolding groups
length-groups zero n = omega arith
length-groups (suc k) n = ground (arith, length-groups k (n / 128))
