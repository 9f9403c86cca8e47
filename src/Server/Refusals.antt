-- ===== src/Server/Refusals.antt =====
-- A refused device is reported once per window, with the number of refusals that were not.
use haigosmart.Base.{
  ℕ, ◌+◌, ◌-◌, ◌≤◌, ◌<◌, ◌≡◌, refl, ap, ◌∙◌, List, [], ◌∷◌, true, false, none, some, ltb, ◌==◌,
  length, arith, if◌then◌else◌, All,
}
use haigosmart.Base.Text.{Str, str_eq_refl}
use haigosmart.Base.Assoc
use haigosmart.Base.Assoc.{Map, get-put}
use haigosmart.Server.{Rejection, Report, note_rejection, rejection_window}

-- The reports of a sequence of refusals of one device, and the state they leave.
unfoldable pub refusals : Map Rejection → Str → List ℕ → Map Rejection × List Report
unfolding note_rejection
refusals m id [] = (m, [])
refusals m id (t ∷ ts) =
    let first = note_rejection m id t in
    let rest = refusals first.0 id ts in (rest.0, first.1 ∷ rest.1)

abbrev pub InWindow : ℕ → ℕ → Type 0
InWindow start t = t - start < rejection_window

abbrev pub IsSilent : Report → Type 0
IsSilent r = r.report ≡ false

abbrev pub first_of : ℕ → List ℕ → ℕ
first_of n [] = n
first_of n (t ∷ ts) = t

-- What is stored after refusals in the window of a report at `start`.
abbrev counted : Rejection → List ℕ → Rejection
counted r ts = record r {
  first_at = if r.suppressed == 0 then first_of r.first_at ts else r.first_at;
  suppressed = r.suppressed + length ts;
}

counted_none : (r : Rejection) → r ≡ counted r []
counted_none r = ground arith

counted_more :
    (r : Rejection) (t : ℕ) (ts : List ℕ) → counted (counted r (t ∷ [])) ts ≡ counted r (t ∷ ts)
counted_more r t ts = ground arith

-- One refusal in the window.
IsSilent-one :
    (m : Map Rejection) (id : Str) (r : Rejection) (t : ℕ)
    → Assoc.get m id ≡ some r
    → InWindow r.reported_at t
    → IsSilent (note_rejection m id t).1
      × (Assoc.get (note_rejection m id t).0 id ≡ some (counted r (t ∷ [])))
unfolding note_rejection
IsSilent-one m id r t e now =
    let soon : ltb (t - r.reported_at) rejection_window ≡ true = ground arith in
    rw (note_rejection, e, soon, get-put, str_eq_refl id) (refl, refl)

-- The first refusal of a device, and one after the window.
note_rejection-first :
    (m : Map Rejection) (id : Str) (t : ℕ)
    → Assoc.get m id ≡ none
    → ((note_rejection m id t).1.report ≡ true)
      × (Assoc.get (note_rejection m id t).0 id
          ≡ some (record { reported_at = t; first_at = 0; suppressed = 0 }))
unfolding note_rejection
note_rejection-first m id t e = rw (note_rejection, e, get-put, str_eq_refl id) (refl, refl)

note_rejection-late :
    (m : Map Rejection) (id : Str) (r : Rejection) (t : ℕ)
    → Assoc.get m id ≡ some r
    → r.reported_at + rejection_window ≤ t
    → (note_rejection m id t).1
      ≡ record { report = true; suppressed = r.suppressed; since = r.first_at }
unfolding note_rejection
note_rejection-late m id r t e late =
    let past : ltb (t - r.reported_at) rejection_window ≡ false = ground arith in
    rw (note_rejection, e, past) refl

IsSilent-burst :
    (ts : List ℕ) (m : Map Rejection) (id : Str) (r : Rejection)
    → Assoc.get m id ≡ some r
    → All (InWindow r.reported_at) ts
    → All IsSilent (refusals m id ts).1 × (Assoc.get (refusals m id ts).0 id ≡ some (counted r ts))
unfolding refusals
IsSilent-burst [] m id r e h = (tt, e ∙ ap some (counted_none r))
IsSilent-burst (t ∷ ts) m id r e (now, later) =
    let (silent, stored) = IsSilent-one m id r t e now in
    let (all, end) =
      IsSilent-burst ts (note_rejection m id t).0 id (counted r (t ∷ [])) stored later in
    ((silent, all), end ∙ ap some (counted_more r t ts))

-- The first refusal of a device is reported, the refusals within the window after it are silent, and one
-- that follows them after the window is reported with their number and with the time of the first of
-- them.
pub refusals_burst :
    (m : Map Rejection) (id : Str) (start next : ℕ) (ts : List ℕ)
    → Assoc.get m id ≡ none
    → All (InWindow start) ts
    → start + rejection_window ≤ next
    → let burst = refusals (note_rejection m id start).0 id ts in
      ((note_rejection m id start).1.report ≡ true)
      × All IsSilent burst.1
      × ((note_rejection burst.0 id next).1
          ≡ record { report = true; suppressed = length ts; since = first_of 0 ts })
refusals_burst m id start next ts f h late =
    let (told, stored) = note_rejection-first m id start f in
    let (silent, end) = IsSilent-burst ts (note_rejection m id start).0 id _ stored h in
    let count : 0 + length ts ≡ length ts = omega arith in
    let after =
      note_rejection-late (refusals (note_rejection m id start).0 id ts).0 id _ next end late in
    (told, silent, rw count at after)
