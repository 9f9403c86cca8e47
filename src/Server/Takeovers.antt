-- ===== src/Server/Takeovers.antt =====
-- The takeovers that are remembered are those of the last minute.
use haigosmart.Base.{
  ltb, if◌then◌else◌, ◌+◌, ◌*◌, ℕ, ◌≤◌, ◌≡◌, refl, sym, ap, ◌∙◌, List, [], ◌∷◌, ◌++◌, none, leb,
  length, arith,
}
use haigosmart.Base.Text.{Str, str_eq_refl}
use haigosmart.Base.Assoc
use haigosmart.Base.Assoc.{Map, get-put}
use haigosmart.Server.{times_of, keep_recent, note_takeover, takeover_threshold}

keep_recent-append :
    (now : ℕ) (xs ys : List ℕ)
    → keep_recent now (xs ++ ys) ≡ keep_recent now xs ++ keep_recent now ys
unfolding keep_recent
keep_recent-append now [] ys = refl
keep_recent-append now (x ∷ xs) ys = ground (arith, keep_recent-append now xs ys)

-- What has left the window once stays out of it.
keep_recent-keep_recent :
    (past now : ℕ) (xs : List ℕ)
    → past ≤ now
    → keep_recent now (keep_recent past xs) ≡ keep_recent now xs
unfolding keep_recent
keep_recent-keep_recent past now [] h = refl
keep_recent-keep_recent past now (x ∷ xs) h = ground (arith, keep_recent-keep_recent past now xs h)

-- Takeovers of one device, the latest first, none before the one behind it.
abbrev pub IsHistory : List ℕ → Type 0
IsHistory [] = Unit
IsHistory (now ∷ []) = Unit
IsHistory (now ∷ past ∷ older) = (past ≤ now) × IsHistory (past ∷ older)

-- A list that has its first element at the end.
unfoldable pub oldest_first : List ℕ → List ℕ
oldest_first [] = []
oldest_first (t ∷ ts) = oldest_first ts ++ (t ∷ [])

-- The server after the takeovers of a history.
unfoldable pub note_all : Map (List ℕ) → Str → List ℕ → Map (List ℕ)
unfolding note_takeover
note_all m id [] = m
note_all m id (now ∷ older) = (note_takeover (note_all m id older) id now).0

keep_nothing : (now : ℕ) → keep_recent now [] ≡ []
unfolding keep_recent
keep_nothing now = refl

latest_recent : (now : ℕ) → keep_recent now (now ∷ []) ≡ now ∷ []
unfolding keep_recent
latest_recent now = ground arith

kept_after :
    (now past : ℕ) (ts : List ℕ)
    → past ≤ now
    → keep_recent now (keep_recent past ts) ++ (now ∷ []) ≡ keep_recent now (ts ++ (now ∷ []))
kept_after now past ts h =
    rw
      (
        keep_recent-keep_recent past now ts h,
        keep_recent-append now ts (now ∷ []),
        latest_recent now,
      )
      refl

times_of-note_takeover :
    (m : Map (List ℕ)) (id : Str) (now : ℕ)
    → times_of (note_takeover m id now).0 id ≡ keep_recent now (times_of m id) ++ (now ∷ [])
unfolding note_takeover
times_of-note_takeover m id now = rw (times_of, get-put, str_eq_refl id) refl

-- What the server remembers of a device, after takeovers that began with a server that knew of none,
-- are those of its history that lie in the window before the last.
pub note_all-recent :
    (m : Map (List ℕ)) (id : Str) (now : ℕ) (older : List ℕ)
    → Assoc.get m id ≡ none
    → IsHistory (now ∷ older)
    → times_of (note_all m id (now ∷ older)) id ≡ keep_recent now (oldest_first (now ∷ older))
unfolding note_all oldest_first
note_all-recent m id now [] f h =
    let empty : times_of m id ≡ [] = rw (times_of, f) refl in
    let none_yet : keep_recent now (times_of m id) ≡ [] = rw empty (keep_nothing now) in
    times_of-note_takeover m id now ∙ rw none_yet (sym (latest_recent now))
note_all-recent m id now (past ∷ older) f (before, h) =
    times_of-note_takeover (note_all m id (past ∷ older)) id now
    ∙ ap (λ ts. keep_recent now ts ++ (now ∷ [])) (note_all-recent m id past older f h)
    ∙ kept_after now past (oldest_first (past ∷ older)) before

counts :
    (m : Map (List ℕ)) (id : Str) (now : ℕ)
    → (note_takeover m id now).1
      ≡ leb takeover_threshold (length (times_of (note_takeover m id now).0 id))
unfolding note_takeover
counts m id now = rw (times_of, get-put, str_eq_refl id) refl

-- How many of these times are less than a minute before now.
unfoldable pub within_minute : ℕ → List ℕ → ℕ
within_minute now [] = 0
within_minute now (t ∷ ts) = (if ltb now (t + 60 * 1000000000) then 1 else 0) + within_minute now ts

length-keep_recent : (now : ℕ) (ts : List ℕ) → length (keep_recent now ts) ≡ within_minute now ts
unfolding keep_recent within_minute
length-keep_recent now [] = refl
length-keep_recent now (t ∷ ts) = ground (arith, length-keep_recent now ts)

within_minute-append :
    (now : ℕ) (ts us : List ℕ)
    → within_minute now (ts ++ us) ≡ within_minute now ts + within_minute now us
unfolding within_minute
within_minute-append now [] us = omega arith
within_minute-append now (t ∷ ts) us = ground (arith, within_minute-append now ts us)

within_minute-oldest_first :
    (now : ℕ) (ts : List ℕ) → within_minute now (oldest_first ts) ≡ within_minute now ts
unfolding oldest_first within_minute
within_minute-oldest_first now [] = refl
within_minute-oldest_first now (t ∷ ts) =
    ground (
      arith,
      within_minute-append now (oldest_first ts) (t ∷ []),
      within_minute-oldest_first now ts,
    )

-- If the server knew of no takeover of a device before a history in which time does not run backwards,
-- it warns of a duplicate id with the last of them exactly when at least three of them are less than a
-- minute before it, itself included.
pub note_takeover_warns :
    (m : Map (List ℕ)) (id : Str) (now : ℕ) (older : List ℕ)
    → Assoc.get m id ≡ none
    → IsHistory (now ∷ older)
    → (note_takeover (note_all m id older) id now).1 ≡ leb 3 (within_minute now (now ∷ older))
unfolding note_all
note_takeover_warns m id now older f h =
    counts (note_all m id older) id now
    ∙ ap (λ ts. leb takeover_threshold (length ts)) (note_all-recent m id now older f h)
    ∙ ap (leb 3) (
        length-keep_recent now (oldest_first (now ∷ older))
        ∙ within_minute-oldest_first now (now ∷ older))
