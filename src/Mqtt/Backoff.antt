-- ===== src/Mqtt/Backoff.antt =====
-- internal/mqtt/client.go: the waits between two connections of `Run`.
use haigosmart.Base.{
  ℕ, suc, ◌+◌, ◌*◌, ◌/◌, ◌^◌, ◌≤◌, ◌≡◌, List, [], ◌∷◌, min, arith, ltb, if◌then◌else◌,
}
use haigosmart.Mqtt.{second}

abbrev pub max_backoff : ℕ
max_backoff = 30_000_000_000

unfoldable pub next_backoff : ℕ → ℕ
next_backoff b =
    if ltb b max_backoff then (if ltb max_backoff (b * 2) then max_backoff else b * 2) else b

-- The waits, for the jitters that rand.Int64N gives.
unfoldable pub waits : ℕ → List ℕ → List ℕ
unfolding next_backoff
waits backoff [] = []
waits backoff (jitter ∷ js) = (backoff + jitter) ∷ waits (next_backoff backoff) js

-- Each jitter is below backoff / 2 + 1, as rand.Int64N promises.
unfoldable pub InRange : ℕ → List ℕ → Type 0
InRange backoff [] = Unit
InRange backoff (jitter ∷ js) = (jitter ≤ backoff / 2) × InRange (next_backoff backoff) js

-- The n-th wait lies between the doubled second and half as much again, with 30 seconds as the
-- doubling's limit.
abbrev pub FromRound : ℕ → List ℕ → Type 0
FromRound n [] = Unit
FromRound n (w ∷ ws) =
    (min (2 ^ n * second) max_backoff ≤ w)
    × (w * 2 ≤ min (2 ^ n * second) max_backoff * 3)
    × FromRound (suc n) ws

doubled :
    (n : ℕ) → next_backoff (min (2 ^ n * second) max_backoff) ≡ min (2 ^ suc n * second) max_backoff
unfolding next_backoff
doubled n = let twice : 2 ^ suc n ≡ 2 ^ n * 2 = omega arith in ground (arith, twice)

rounds :
    (n : ℕ) (js : List ℕ)
    → InRange (min (2 ^ n * second) max_backoff) js
    → FromRound n (waits (min (2 ^ n * second) max_backoff) js)
unfolding waits InRange
rounds n [] h = tt
rounds n (j ∷ js) (small, h) =
    (omega arith, omega arith, rw (doubled n) (rounds (suc n) js (rw (doubled n) at h)))

-- The waits before the reconnections of one Run: the n-th one, counted from 0, is at least 2 ^ n seconds
-- and at most half as much again, with 30 seconds in the place of 2 ^ n from n = 5 on.
pub waits-FromRound : (js : List ℕ) → InRange second js → FromRound 0 (waits second js)
waits-FromRound js h = rounds 0 js h
