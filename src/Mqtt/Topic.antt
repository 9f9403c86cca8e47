-- ===== src/Mqtt/Topic.antt =====
-- internal/mqtt/client.go: topic filters.
pub mod Matching
use haigosmart.Base.{ℕ, List, [], ◌∷◌, ◌++◌, Bool, true, false, not, ◌&&◌, ◌==◌, if◌then◌else◌}
use haigosmart.Base.Text.{Str, codes, str_eq}

-- `part` is s[start:i], and what is left of s is the second argument.
unfoldable pub split_from : Str → Str → List Str
split_from part [] = part ∷ []
split_from part (c ∷ s) =
    let cut = split_from [] s in
    let more = split_from (part ++ c ∷ []) s in if c == b'/' then part ∷ cut else more

unfoldable pub split_topic : Str → List Str
unfolding split_from
split_topic s = split_from [] s

-- The loop over the filter's parts. The topic's parts from i on are the second argument, so that at
-- the end of the filter none are left if there are as many of both.
unfoldable pub parts_match : List Str → List Str → Bool
unfolding str_eq
parts_match [] [] = true
parts_match [] (x ∷ t) = false
parts_match (part ∷ f) [] = str_eq part (codes "#")
parts_match (part ∷ f) (x ∷ t) =
    let rest = parts_match f t in
    if str_eq part (codes "#")
    then true
    else if not (str_eq part (codes "+")) && not (str_eq part x)
    then false
    else rest

unfoldable pub topic_matches : Str → Str → Bool
unfolding split_topic parts_match
topic_matches filter topic = parts_match (split_topic filter) (split_topic topic)
