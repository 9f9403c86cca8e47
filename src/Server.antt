-- ===== src/Server.antt =====
-- internal/server/server.go: what the server remembers of takeovers and refusals. A time is a number of
-- nanoseconds, and times do not run backwards.
pub mod Takeovers
pub mod Refusals
use haigosmart.Base.{
  ℕ, ◌+◌, ◌-◌, ◌*◌, List, [], ◌∷◌, ◌++◌, Bool, true, false, ◌&&◌, ◌||◌, Option, none, some, ltb,
  leb, ◌==◌, if◌then◌else◌, length,
}
use haigosmart.Base.Text.{Str}
use haigosmart.Base.Assoc
use haigosmart.Base.Assoc.{Map}

abbrev pub takeover_window : ℕ
takeover_window = 60 * 1000000000

abbrev pub takeover_threshold : ℕ
takeover_threshold = 3

-- m[id], with Go's zero value, an empty slice, for a missing key.
abbrev pub times_of : Map (List ℕ) → Str → List ℕ
times_of m id = elim (Assoc.get m id) [ none ↦ [] | some ts ↦ ts ]

-- The times that are less than the window before now.
unfoldable pub keep_recent : ℕ → List ℕ → List ℕ
keep_recent now [] = []
keep_recent now (at ∷ ts) =
    let rest = keep_recent now ts in if ltb (now - at) takeover_window then at ∷ rest else rest

unfoldable pub note_takeover : Map (List ℕ) → Str → ℕ → Map (List ℕ) × Bool
unfolding keep_recent Assoc.get Assoc.put
note_takeover m id now =
    let kept = keep_recent now (times_of m id) ++ (now ∷ []) in
    (Assoc.put m id kept, leb takeover_threshold (length kept))

abbrev pub rejection_window : ℕ
rejection_window = 5 * 60 * 1000000000

-- Go's zero time is 0.
pub record Rejection : Type 0 where
  pub reported_at : ℕ
  pub first_at : ℕ
  pub suppressed : ℕ

-- What noteRejection returns.
pub record Report : Type 0 where
  pub report : Bool
  pub suppressed : ℕ
  pub since : ℕ

unfoldable pub note_rejection : Map Rejection → Str → ℕ → Map Rejection × Report
unfolding Assoc.get Assoc.put
note_rejection m id now = elim (Assoc.get m id) [
  | none ↦ (
    Assoc.put m id (record { reported_at = now; first_at = 0; suppressed = 0 }),
    record { report = true; suppressed = 0; since = 0 },
  )
  | some r ↦
      if ltb (now - r.reported_at) rejection_window
      then (
        Assoc.put m id (record r {
          first_at = if r.suppressed == 0 then now else r.first_at;
          suppressed = r.suppressed + 1;
        }),
        record { report = false; suppressed = 0; since = 0 },
      )
      else (
        Assoc.put m id (record { reported_at = now; first_at = 0; suppressed = 0 }),
        record { report = true; suppressed = r.suppressed; since = r.first_at },
      )
]

abbrev between : ℕ → ℕ → ℕ → Bool
between low id high = leb low id && leb id high

unfoldable pub is_psk_suite : ℕ → Bool
is_psk_suite id =
    between 0x008A id 0x008D
    || (between 0x00A8 id 0x00AF
        || (between 0xC0A4 id 0xC0B5
            || (between 0xC033 id 0xC03B
                || ((id == 0xCCAB || id == 0xCCAC) || between 0xD001 id 0xD005))))
