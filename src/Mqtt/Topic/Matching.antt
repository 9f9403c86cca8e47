-- ===== src/Mqtt/Topic/Matching.antt =====
-- Topic filters against the rules of MQTT, which speak of levels.
use haigosmart.Base.{
  ◌≡◌, ◌↔◌, refl, List, [], ◌∷◌, ◌++◌, true, false, ◌==◌, arith, All, Bool-cases, inl, inr,
}
use mathlib.Core.List.{append_assoc, append-nil}
use haigosmart.Base.Text.{Str, codes, str_eq, str_eq_iff, str_eq_refl}
use haigosmart.Mqtt.Topic.{split_from, split_topic, parts_match, topic_matches}

-- The levels of a filter and those of a topic that it takes.
pub data Matches : List Str → List Str → Type 0 where
  end : Matches [] []
  level : (x : Str) (f t : List Str) → Matches f t → Matches (x ∷ f) (x ∷ t)
  any_level : (x : Str) (f t : List Str) → Matches f t → Matches (codes "+" ∷ f) (x ∷ t)
  all_levels : (f t : List Str) → Matches (codes "#" ∷ f) t

-- A level has no separator.
abbrev pub IsLevel : Str → Type 0
IsLevel [] = Unit
IsLevel (c ∷ s) = ((c == b'/') ≡ false) × IsLevel s

-- The levels behind the first, each behind its separator.
abbrev separated : List Str → Str
separated [] = []
separated (y ∷ ys) = b'/' ∷ (y ++ separated ys)

abbrev pub join : Str → List Str → Str
join x ys = x ++ separated ys

split_from-join :
    (part x : Str) (ys : List Str)
    → IsLevel x
    → All IsLevel ys
    → split_from part (x ++ separated ys) ≡ (part ++ x) ∷ ys
unfolding split_from
split_from-join part [] [] h hs = rw append-nil refl
split_from-join part [] (y ∷ ys) h (g, gs) = rw (append-nil, split_from-join [] y ys g gs) refl
split_from-join part (c ∷ x) ys (n, h) hs =
    rw (split_from, n, split_from-join (part ++ c ∷ []) x ys h hs, append_assoc) refl

split_topic-join :
    (x : Str) (ys : List Str) → IsLevel x → All IsLevel ys → split_topic (join x ys) ≡ x ∷ ys
unfolding split_topic
split_topic-join x ys h hs = split_from-join [] x ys h hs

parts_match_sound : (f t : List Str) → parts_match f t ≡ true → Matches f t
unfolding parts_match
parts_match_sound [] [] e = end
parts_match_sound [] (x ∷ t) e = cc
parts_match_sound (p ∷ f) [] e = rw ((str_eq_iff p (codes "#")).0 e) (all_levels f [])
parts_match_sound (p ∷ f) (x ∷ t) e = elim (Bool-cases (str_eq p (codes "#"))) [
  | inl hash ↦ rw ((str_eq_iff p (codes "#")).0 hash) (all_levels f (x ∷ t))
  | inr no_hash ↦ elim (Bool-cases (str_eq p (codes "+"))) [
    | inl plus ↦
        rw ((str_eq_iff p (codes "+")).0 plus)
          (any_level x f t (parts_match_sound f t (rw (no_hash, plus) at e)))
    | inr no_plus ↦ elim (Bool-cases (str_eq p x)) [
      | inl same ↦
          rw ((str_eq_iff p x).0 same)
            (level x f t (parts_match_sound f t (rw (no_hash, no_plus, same) at e)))
      | inr other ↦ let stop : false ≡ true = rw (no_hash, no_plus, other) at e in cc
    ]
  ]
]

parts_match_complete : {f t : List Str} → Matches f t → parts_match f t ≡ true
unfolding parts_match
parts_match_complete end = refl
parts_match_complete (level x f t m) = ground (arith, str_eq_refl x, parts_match_complete m)
parts_match_complete (any_level x f t m) = ground (arith, parts_match_complete m)
parts_match_complete (all_levels f []) = refl
parts_match_complete (all_levels f (x ∷ t)) = refl

-- A filter and a topic that are given by their levels, at least one of each and none with a slash:
-- the filter matches the topic exactly if, level by level, the filter's is the topic's, or is `+`, or
-- is a `#`, which takes all the levels from there on, none included.
pub topic_matches_iff :
    (x y : Str) (f t : List Str)
    → IsLevel x
    → All IsLevel f
    → IsLevel y
    → All IsLevel t
    → (topic_matches (join x f) (join y t) ≡ true) ↔ Matches (x ∷ f) (y ∷ t)
unfolding topic_matches
topic_matches_iff x y f t hx hf hy ht =
    rw (split_topic-join x f hx hf, split_topic-join y t hy ht)
      (parts_match_sound (x ∷ f) (y ∷ t), λ m. parts_match_complete m)
