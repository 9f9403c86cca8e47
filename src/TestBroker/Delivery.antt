-- ===== src/TestBroker/Delivery.antt =====
-- internal/mqtt/mqtttest/broker.go: who is sent a message.
use mathlib.Core.Path.{subst}
use haigosmart.Base.{
  ℕ, ◌≡◌, refl, sym, ap, ◌∙◌, List, [], ◌∷◌, ◌++◌, Bool, true, false, not, ◌&&◌, ◌==◌, ==_iff,
  arith, if◌then◌else◌, Bool-cases, inl, inr,
}
use haigosmart.Protocol.Publish.{encode_publish}
use haigosmart.TestBroker.{Message, Peer, Broker, any_matches, set_peer, record_message}
use haigosmart.TestBroker.Kept.{offer-SameLog}
use haigosmart.TestBroker.Serving.{write, send, offer, deliver}

abbrev pub elem : ℕ → List ℕ → Bool
elem i [] = false
elem i (j ∷ js) = if i == j then true else elem i js

-- No session stands twice among the subscribers.
abbrev pub NoRepeat : List ℕ → Type 0
NoRepeat [] = Unit {0}
NoRepeat (i ∷ is) = (elem i is ≡ false) × NoRepeat is

-- A session to which a message was written.
abbrev pub given : Peer → Message → Peer
given p m = record p { written = p.written ++ (encode_publish m.topic m.payload ∷ []) }

module _ (fails : ℕ → Bool) where
  -- Whether a session wants a message and can be written to.
  abbrev pub takes : Broker → Message → ℕ → Bool
  takes b m i = any_matches (b.peers i).topics m.topic && not (fails i)

  offered : ℕ → Message → Broker → Broker
  offered j m b = if any_matches (b.peers j).topics m.topic then (send fails b j m).0 else b

  offered_own :
      (j : ℕ) (m : Message) (b : Broker)
      → (offered j m b).peers j ≡ (if takes b m j then given (b.peers j) m else b.peers j)
  unfolding offered send write set_peer
  offered_own j m b = ground (arith, ==_iff j j)

  offered_other :
      (i j : ℕ) (m : Message) (b : Broker) → (i == j) ≡ false → (offered j m b).peers i ≡ b.peers i
  unfolding offered send write set_peer
  offered_other i j m b h = ground arith

  offer_step :
      (j : ℕ) (js : List ℕ) (m : Message) (b : Broker) (i : ℕ)
      → (offer fails (j ∷ js) m b).peers i ≡ (offer fails js m (offered j m b)).peers i
  unfolding offer offered
  offer_step j js m b i = refl

  offer_nil : (m : Message) (b : Broker) → offer fails [] m b ≡ b
  unfolding offer
  offer_nil m b = refl

  offer_peers :
      (targets : List ℕ) (m : Message) (b : Broker) (i : ℕ)
      → NoRepeat targets
      → (offer fails targets m b).peers i
        ≡ (if elem i targets && takes b m i then given (b.peers i) m else b.peers i)
  offer_peers [] m b i h = ap (λ (c : Broker). c.peers i) (offer_nil m b)
  offer_peers (j ∷ js) m b i (h, hs) = elim (Bool-cases (i == j)) [
    | inl e ↦
        let at_own : (offer fails (j ∷ js) m b).peers j
            ≡ (if elem j (j ∷ js) && takes b m j then given (b.peers j) m else b.peers j) =
          offer_step j js m b j
          ∙ (offer_peers js m (offered j m b) j hs
              ∙ rw h (offered_own j m b ∙ rw ((==_iff j j).1 refl) refl)) in
        subst
          (λ (k : ℕ).
            (offer fails (j ∷ js) m b).peers k
            ≡ (if elem k (j ∷ js) && takes b m k then given (b.peers k) m else b.peers k))
          (sym ((==_iff i j).0 e)) at_own
    | inr e ↦
        offer_step j js m b i
        ∙ (offer_peers js m (offered j m b) i hs ∙ rw (e, offered_other i j m b e) refl)
  ]

  -- Where no session stands twice among the subscribers, a message is logged once, as the newest, and is written once to
  -- each subscriber that has a filter for it and takes a write, however many of its filters match; no
  -- other session is sent anything.
  pub deliver_peers :
      (b : Broker) (m : Message) (i : ℕ)
      → NoRepeat b.subscribers
      → ((deliver fails b m).messages ≡ b.messages ++ (m ∷ []))
        × ((deliver fails b m).peers i
            ≡ (if elem i b.subscribers && takes b m i then given (b.peers i) m else b.peers i))
  unfolding deliver record_message
  deliver_peers b m i h = (
    (offer-SameLog fails b.subscribers m (record_message b m)).1,
    offer_peers b.subscribers m (record_message b m) i h,
  )
