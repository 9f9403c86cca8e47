-- ===== src/Events/Queue.antt =====
-- What a subscriber's queue holds: `offer` against the newest events, and every interleaving of its
-- steps with the receiver's.
use haigosmart.Base.{
  ℕ, ◌+◌, ◌-◌, ◌≤◌, ◌≡◌, refl, ap, ◌∙◌, List, [], ◌∷◌, ◌++◌, true, length, drop, length-append,
  length-drop, drop-drop, zero, suc, arith,
}
use mathlib.Core.List.{append-nil, append_assoc}
use haigosmart.Events.{Event, Subscription, has_room, send, evict, send_or_drop, offer, receive}

-- A step of a publisher or of the receiver, on one subscription. A publisher takes `sends` only where
-- `has_room` said so, which the channel decides in the same step.
pub data Step : Subscription → Subscription → Type 0 where
  sends : (s : Subscription) (e : Event) → has_room s ≡ true → Step s (send s e)
  evicts : (s : Subscription) → Step s (evict s)
  sends_or_drops : (s : Subscription) (e : Event) → Step s (send_or_drop s e)
  receives : (s : Subscription) → Step s (receive s)

pub data Steps : Subscription → Subscription → Type 0 where
  done : (s : Subscription) → Steps s s
  step : {s t u : Subscription} → Step s t → Steps t u → Steps s u

abbrev pub IsBounded : Subscription → Type 0
IsBounded s = length s.queue ≤ s.depth

send-length : (s : Subscription) (e : Event) → length (send s e).queue ≡ length s.queue + 1
unfolding send
send-length s e = length-append s.queue (e ∷ [])

Step-IsBounded : {s t : Subscription} → Step s t → IsBounded s → IsBounded t
unfolding has_room evict send_or_drop receive send
Step-IsBounded (sends s e room) h = ground (arith, length-append s.queue (e ∷ []))
Step-IsBounded (evicts s) h = ground arith
Step-IsBounded (sends_or_drops s e) h = ground (arith, length-append s.queue (e ∷ []))
Step-IsBounded (receives s) h = ground arith

-- However the steps of publishers and of the receiver interleave, a queue that is within its depth
-- stays so.
pub Steps-IsBounded : {s t : Subscription} → Steps s t → IsBounded s → IsBounded t
Steps-IsBounded (done s) h = h
Steps-IsBounded (step a b) h = Steps-IsBounded b (Step-IsBounded a h)

unfoldable pub offer_all : Subscription → List Event → Subscription
offer_all s [] = s
offer_all s (e ∷ es) = offer_all (offer s e) es

-- Only a bounded queue's newest `depth` events count.
abbrev pub newest : ℕ → List Event → List Event
newest depth es = drop (length es - depth) es

abbrev pub excess : ℕ → List Event → ℕ
excess depth es = length es - depth

-- One offer to a subscriber whose queue is within its depth, which `subscribe` makes at least 1.
offer-newest :
    (s : Subscription) (e : Event)
    → 1 ≤ s.depth
    → IsBounded s
    → ((offer s e).queue ≡ newest s.depth (s.queue ++ (e ∷ [])))
      × ((offer s e).dropped ≡ s.dropped + excess s.depth (s.queue ++ (e ∷ [])))
      × ((offer s e).depth ≡ s.depth)
unfolding offer has_room send evict send_or_drop
offer-newest s e d h = ground (arith, length-append s.queue (e ∷ []))

drop-append : (i : ℕ) (xs ys : List Event) → i ≤ length xs → drop i xs ++ ys ≡ drop i (xs ++ ys)
drop-append zero xs ys h = refl
drop-append (suc i) [] ys h = absurd (omega arith)
drop-append (suc i) (x ∷ xs) ys h = drop-append i xs ys (omega arith)

newest-append : (n : ℕ) (xs ys : List Event) → newest n (newest n xs ++ ys) ≡ newest n (xs ++ ys)
newest-append n xs ys =
    let kept = drop-append (length xs - n) xs ys (omega arith) in
    let count : (length xs - n) + (length (drop (length xs - n) xs ++ ys) - n)
        ≡ length (xs ++ ys) - n =
      ground (
        arith,
        length-append xs ys,
        length-append (drop (length xs - n) xs) ys,
        length-drop (length xs - n) xs,
      ) in
    ap (λ l. drop (length (drop (length xs - n) xs ++ ys) - n) l) kept
    ∙ drop-drop (length xs - n) (length (drop (length xs - n) xs ++ ys) - n) (xs ++ ys)
    ∙ ap (λ m. drop m (xs ++ ys)) count

-- Offers to a queue of depth at least 1 that is within its depth, without a receive in between, leave
-- exactly the newest events in it, as many as it is deep, and count all the others as dropped.
pub offer_all-newest :
    (es : List Event) (s : Subscription)
    → 1 ≤ s.depth
    → IsBounded s
    → ((offer_all s es).queue ≡ newest s.depth (s.queue ++ es))
      × ((offer_all s es).dropped ≡ s.dropped + excess s.depth (s.queue ++ es))
unfolding offer_all
offer_all-newest [] s d h = rw (append-nil s.queue) (ground arith)
offer_all-newest (e ∷ es) s d h =
    let first = offer-newest s e d h in
    let deep : 1 ≤ (offer s e).depth = rw first.2 d in
    let short : IsBounded (offer s e) =
      ground (
        arith,
        first,
        length-drop (length (s.queue ++ (e ∷ [])) - s.depth) (s.queue ++ (e ∷ [])),
      ) in
    let rest = offer_all-newest es (offer s e) deep short in
    let joined : (s.queue ++ (e ∷ [])) ++ es ≡ s.queue ++ (e ∷ es) =
      append_assoc s.queue (e ∷ []) es in
    let same : newest (offer s e).depth ((offer s e).queue ++ es)
        ≡ newest s.depth (s.queue ++ (e ∷ es)) =
      rw (first.2, first.0)
        (newest-append s.depth (s.queue ++ (e ∷ [])) es ∙ ap (newest s.depth) joined) in
    (
      rest.0 ∙ same,
      ground (
        arith,
        rest.1,
        first,
        length-append (offer s e).queue es,
        length-append s.queue (e ∷ es),
        length-append s.queue (e ∷ []),
        length-drop (length (s.queue ++ (e ∷ [])) - s.depth) (s.queue ++ (e ∷ [])),
      ),
    )
