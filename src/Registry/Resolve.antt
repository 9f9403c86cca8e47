-- ===== src/Registry/Resolve.antt =====
-- internal/registry/registry.go: `List` and `Resolve`, over the map.
pub mod Target
use haigosmart.Base.{
  ℕ, ◌≡◌, ◌≢◌, refl, sym, ap, ◌∙◌, ◌⊎◌, List, [], ◌∷◌, Bool, true, false, not, ◌&&◌, ◌||◌, Option,
  none, some, arith, if◌then◌else◌, inl, inr, Bool-cases, Option-cases, ltb, ◌==◌, Result, ok, err,
}
use haigosmart.Base.Text.{Str, str_eq, str_eq_iff, str_eq_refl, is_empty, to_lower, has_prefix}
use haigosmart.Base.Assoc
use haigosmart.Base.Assoc.{Map, Distinct, Fresh, get-Fresh}
use haigosmart.Bulb.{Bulb}
use haigosmart.Registry.{Registry, Error, unknown_target, ambiguous_target, find}

-- s < t, byte by byte
unfoldable pub str_lt : Str → Str → Bool
str_lt s [] = false
str_lt [] (d ∷ t) = true
str_lt (c ∷ s) (d ∷ t) = ltb c d || (c == d && str_lt s t)

-- sort.Slice by name: the order among equal names is not determined, and here the older stays first.
unfoldable pub insert_by_name : Bulb → List Bulb → List Bulb
unfolding str_lt
insert_by_name b [] = b ∷ []
insert_by_name b (c ∷ cs) =
    let rest = insert_by_name b cs in if str_lt c.name b.name then c ∷ rest else b ∷ c ∷ cs

unfoldable pub sort_by_name : Map Bulb → List Bulb
unfolding insert_by_name
sort_by_name [] = []
sort_by_name ((k, b) ∷ m) = insert_by_name b (sort_by_name m)

unfoldable pub list : Registry → List Bulb
unfolding sort_by_name
list r = sort_by_name r.bulbs

-- sort.Strings
unfoldable pub insert_text : Str → List Str → List Str
unfolding str_lt
insert_text s [] = s ∷ []
insert_text s (t ∷ ts) = let rest = insert_text s ts in if str_lt t s then t ∷ rest else s ∷ t ∷ ts

unfoldable pub sort_names : List Bulb → List Str
unfolding insert_text
sort_names [] = []
sort_names (b ∷ bs) = insert_text b.name (sort_names bs)

-- The first loop of `Resolve`: a bulb with exactly this name.
unfoldable pub by_name : Map Bulb → Str → Option Bulb
by_name [] target = none
by_name ((k, b) ∷ m) target =
    let rest = by_name m target in if str_eq b.name target then some b else rest

abbrev pub matches : Str → Bulb → Bool
matches target b =
    has_prefix (to_lower target) (to_lower b.name)
    || has_prefix (to_lower target) (to_lower b.device_id)

-- The second loop: every bulb that the prefix fits.
unfoldable pub by_prefix : Map Bulb → Str → List Bulb
by_prefix [] target = []
by_prefix ((k, b) ∷ m) target =
    let rest = by_prefix m target in if matches target b then b ∷ rest else rest

abbrev by_count : Str → List Bulb → Result Error Bulb
by_count target [] = err (unknown_target target)
by_count target (b ∷ []) = ok b
by_count target (b ∷ c ∷ bs) = err (ambiguous_target target (sort_names (b ∷ c ∷ bs)))

unfoldable pub resolve : Registry → Str → Result Error Bulb
unfolding by_name by_prefix sort_names
resolve r target =
    if is_empty target then err (unknown_target target) else elim (by_name r.bulbs target) [
      | some b ↦ ok b
      | none ↦ elim (find r target) [
        | some b ↦ ok b
        | none ↦ by_count target (by_prefix r.bulbs target)
      ]
    ]
