-- ===== src/Base/Text.antt =====
-- Go strings as byte lists, with the functions of package strings that the program calls. Letters
-- and white space are those of ASCII.
use Prim.Native.Char.{code}
use Prim.Native.String.{String}
use Prim.Native.Nat.{ℕ, ◌+◌, ◌-◌}
use mathlib.Core.Path.{◌≡◌, refl}
use mathlib.Core.Logic.{◌↔◌}
use mathlib.Core.Bool.{Bool, true, false, ◌&&◌, ◌||◌}
use mathlib.Core.List.{List, [], ◌∷◌, ◌++◌, reverse, map}
use mathlib.Core.Option.{Option, none, some}
use native.Mathlib.Omega.{arith}
use haigosmart.Base.Tests.{leb, ◌==◌, if◌then◌else◌}
use haigosmart.Base.Lists.{length, drop}

abbrev pub Str : Type 0
Str = List ℕ

-- The bytes of an ASCII literal.
abbrev pub codes : String → Str
codes String.[] = []
codes (String.◌∷◌ c s) = code c ∷ codes s

-- s == t
unfoldable pub str_eq : Str → Str → Bool
str_eq [] [] = true
str_eq [] (d ∷ t) = false
str_eq (c ∷ s) [] = false
str_eq (c ∷ s) (d ∷ t) = c == d && str_eq s t

pub str_eq_refl : (s : Str) → str_eq s s ≡ true
unfolding str_eq
str_eq_refl [] = refl
str_eq_refl (c ∷ s) = ground (arith, str_eq_refl s)

str_eq→eq : (s t : Str) → str_eq s t ≡ true → s ≡ t
unfolding str_eq
str_eq→eq [] [] h = refl
str_eq→eq [] (d ∷ t) h = cc
str_eq→eq (c ∷ s) [] h = cc
str_eq→eq (c ∷ s) (d ∷ t) h = ground (arith, str_eq→eq s t)

pub str_eq_iff : (s t : Str) → (str_eq s t ≡ true) ↔ (s ≡ t)
str_eq_iff s t = (str_eq→eq s t, λ e. rw e (str_eq_refl t))

pub str_eq-false_sym : (s t : Str) → str_eq s t ≡ false → str_eq t s ≡ false
str_eq-false_sym s t h = ground (arith, str_eq_iff s t, str_eq_iff t s)

unfoldable pub is_empty : Str → Bool
is_empty [] = true
is_empty (c ∷ s) = false

-- strings.HasPrefix(s, p), the prefix first
unfoldable pub has_prefix : Str → Str → Bool
has_prefix [] s = true
has_prefix (c ∷ p) [] = false
has_prefix (c ∷ p) (d ∷ s) = c == d && has_prefix p s

-- strings.HasSuffix(s, p), the suffix first
unfoldable pub has_suffix : Str → Str → Bool
unfolding str_eq
has_suffix p s = leb (length p) (length s) && str_eq (drop (length s - length p) s) p

-- strings.Contains(s, p), the part first
unfoldable pub contains : Str → Str → Bool
unfolding has_prefix
contains p [] = has_prefix p []
contains p (c ∷ s) = has_prefix p (c ∷ s) || contains p s

-- strings.Cut at one byte: what stands before it and behind it, or `none`.
unfoldable pub cut : ℕ → Str → Option (Str × Str)
cut sep [] = none
cut sep (c ∷ s) =
    let rest = cut sep s in
    if c == sep
    then some ([], s)
    else elim rest [ none ↦ none | some (before, after) ↦ some (c ∷ before, after) ]

unfoldable pub to_lower_byte : ℕ → ℕ
to_lower_byte c = if leb b'A' c && leb c b'Z' then c + 32 else c

unfoldable pub to_upper_byte : ℕ → ℕ
to_upper_byte c = if leb b'a' c && leb c b'z' then c - 32 else c

-- strings.ToLower and strings.ToUpper
unfoldable pub to_lower : Str → Str
unfolding to_lower_byte
to_lower s = map to_lower_byte s

unfoldable pub to_upper : Str → Str
unfolding to_upper_byte
to_upper s = map to_upper_byte s

-- strings.EqualFold
unfoldable pub equal_fold : Str → Str → Bool
unfolding to_lower str_eq
equal_fold s t = str_eq (to_lower s) (to_lower t)

unfoldable pub is_space : ℕ → Bool
is_space c = c == 32 || (leb 9 c && leb c 13)

unfoldable pub trim_left : Str → Str
unfolding is_space
trim_left [] = []
trim_left (c ∷ s) = let rest = trim_left s in if is_space c then rest else c ∷ s

-- strings.TrimSpace
unfoldable pub trim_space : Str → Str
unfolding trim_left
trim_space s = reverse (trim_left (reverse (trim_left s)))

-- strings.Fields, with the field that is being read.
unfoldable pub fields_loop : Str → Str → List Str
unfolding is_space is_empty
fields_loop word [] = if is_empty word then [] else word ∷ []
fields_loop word (c ∷ s) =
    let stop = fields_loop [] s in
    let more = fields_loop (word ++ c ∷ []) s in
    if is_space c then (if is_empty word then stop else word ∷ stop) else more

unfoldable pub fields : Str → List Str
unfolding fields_loop
fields s = fields_loop [] s

-- strings.Split at one byte: always at least one part.
unfoldable pub split_loop : ℕ → Str → Str → List Str
split_loop sep word [] = word ∷ []
split_loop sep word (c ∷ s) =
    let next = split_loop sep [] s in
    let more = split_loop sep (word ++ c ∷ []) s in if c == sep then word ∷ next else more

unfoldable pub split : ℕ → Str → List Str
unfolding split_loop
split sep s = split_loop sep [] s

-- strings.Join, the separator first
unfoldable pub join : Str → List Str → Str
join sep [] = []
join sep (s ∷ []) = s
join sep (s ∷ t ∷ ts) = s ++ (sep ++ join sep (t ∷ ts))
