-- ===== src/TestBroker/Topic.antt =====
-- internal/mqtt/mqtttest/broker.go and internal/mqtt/client.go: the broker and the client match
-- topics by functions of their own.
use haigosmart.Base.{
  ℕ, zero, suc, ◌+◌, ◌≤◌, ◌≡◌, ◌≢◌, ◌↔◌, refl, sym, ◌∙◌, ◌⊎◌, inl, inr, List, [], ◌∷◌, ◌++◌, true,
  false, none, some, arith, length, get_elem?, drop, Bool-cases,
}
use haigosmart.Base.Text.{Str, split, split_loop}
use haigosmart.Base.Assoc.{Map}
use haigosmart.Mqtt.{handler_for}
use haigosmart.Mqtt.Topic.{split_from, split_topic, parts_match}
use haigosmart.Mqtt.Topic as Client
use haigosmart.TestBroker.{match_from, topic_matches, any_matches}

split_loop-split_from : (word s : Str) → split_loop b'/' word s ≡ split_from word s
unfolding split_loop split_from
split_loop-split_from word [] = refl
split_loop-split_from word (c ∷ s) =
    ground (arith, split_loop-split_from [] s, split_loop-split_from (word ++ c ∷ []) s)

-- What is left of a list from an index on, by what stands there.
drop_cases {ℓ} :
    {A : Type ℓ} (t : List A) (i : ℕ)
    → ((get_elem? t i ≡ none) × (drop i t ≡ []) × (length t ≤ i))
      ⊎ ((x : A) × (get_elem? t i ≡ some x) × (drop i t ≡ x ∷ drop (suc i) t) × (suc i ≤ length t))
drop_cases [] zero = inl (refl, refl, omega arith)
drop_cases [] (suc i) = inl (refl, refl, omega arith)
drop_cases (x ∷ t) zero = inr (x, refl, refl, omega arith)
drop_cases (x ∷ t) (suc i) = elim (drop_cases t i) [
  | inl (e, d, h) ↦ inl (e, d, omega arith)
  | inr (y, e, d, h) ↦ inr (y, e, d, omega arith)
]

match_from-parts_match :
    (f t : List Str) (i : ℕ) → i ≤ length t → match_from f t i ≡ parts_match f (drop i t)
unfolding match_from parts_match
match_from-parts_match [] t i h = elim (drop_cases t i) [
  | inl (e, d, over) ↦ let same : i ≡ length t = omega arith in rw d (ground arith)
  | inr (x, e, d, under) ↦ rw d (ground arith)
]
match_from-parts_match (p ∷ f) t i h = elim (drop_cases t i) [
  | inl (e, d, over) ↦ rw (e, d) (ground arith)
  | inr (x, e, d, under) ↦
      let rest : match_from f t (suc i) ≡ parts_match f (drop (suc i) t) =
        match_from-parts_match f t (suc i) under in
      let one : i + 1 ≡ suc i = omega arith in rw (e, d, one, rest) refl
]

-- The broker and the client agree on every filter and every topic.
pub topic_matches-topic_matches :
    (filter topic : Str) → topic_matches filter topic ≡ Client.topic_matches filter topic
unfolding topic_matches Client.topic_matches split split_topic
topic_matches-topic_matches filter topic =
    match_from-parts_match (split b'/' filter) (split b'/' topic) 0 (omega arith)
    ∙ rw (split_loop-split_from [] filter, split_loop-split_from [] topic) refl

abbrev pub keys {ℓ} : {A : Type ℓ} → Map A → List Str
keys [] = []
keys ((k, v) ∷ m) = k ∷ keys m

-- Where a session's filters are those that a client handles, the broker sends it a message exactly
-- if the client has a handler for it: what is delivered is not lost, and nothing else is sent.
pub any_matches-handler_for :
    (handlers : Map ℕ) (topic : Str)
    → (any_matches (keys handlers) topic ≡ true) ↔ (handler_for handlers topic ≢ none)
unfolding any_matches handler_for
any_matches-handler_for [] topic = (λ e. cc, λ h. absurd (h refl))
any_matches-handler_for ((filter, handler) ∷ m) topic =
    let agree = topic_matches-topic_matches filter topic in
    elim (Bool-cases (topic_matches filter topic)) [
      | inl e ↦
          let client : Client.topic_matches filter topic ≡ true = sym agree ∙ e in
          rw (e, client) (λ h wrong. cc, λ h. refl)
      | inr e ↦
          let client : Client.topic_matches filter topic ≡ false = sym agree ∙ e in
          rw (e, client) (any_matches-handler_for m topic)
    ]
