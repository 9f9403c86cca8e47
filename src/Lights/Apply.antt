-- ===== src/Lights/Apply.antt =====
-- What a command through the service does to the registry, and what it answers.
use haigosmart.Base.{
  ℕ, ◌≡◌, refl, inl, inr, true, Option, none, some, ok, arith, Result-cases, Option-cases, false,
}
use haigosmart.Base.Text.{Str, str_eq, str_eq_iff}
use haigosmart.Base.Assoc.{get-put}
use haigosmart.Bulb.{Bulb, connected, adopted, status_eq, LightState}
use haigosmart.Registry.Invariant.{IsValid}
use haigosmart.Registry.{Registry, find, driver, set_desired}
use haigosmart.Lights.{Change, Error, resolve, apply, get, prepare}

-- What is known of a bulb but for the wanted state.
abbrev pub known_but_desired : Option Bulb → Option Bulb
known_but_desired none = none
known_but_desired (some b) = some (record b { desired = none })

set_desired-known :
    (r : Registry) (t : Str) (want : LightState) (k : Str)
    → (known_but_desired (find (set_desired r t want) k) ≡ known_but_desired (find r k))
      × ((set_desired r t want).saves ≡ r.saves)
unfolding set_desired
set_desired-known r t want k = elim (Option-cases (find r t)) [
  | inl e ↦ ground arith
  | inr (b, e) ↦
      ground (arith, str_eq_iff t k, get-put r.bulbs t k (record b { desired = some want }))
]

-- A command changes nothing that the registry knows of any lamp but the state it wants: the reported
-- state is left to the lamp, whatever the driver answers. Nothing is saved for it.
pub apply_reported :
    (d : ℕ → LightState → Option Error) (r : Registry) (now : ℕ) (id : Str) (c : Change) (k : Str)
    → (known_but_desired (find (apply d r now id c).registry k) ≡ known_but_desired (find r k))
      × ((apply d r now id c).registry.saves ≡ r.saves)
unfolding apply
apply_reported d r now id c k = elim (Result-cases (prepare r id c)) [
  | inr (e, p) ↦ rw (apply, p) (refl, refl)
  | inl ((target, want, i), p) ↦ rw (apply, p) (set_desired-known r target.device_id want k)
]

-- A lamp that a command has been sent to.
pub record Sent (r : Registry) (id : Str) (c : Change) (d : ℕ) (want : LightState) : Type 0 where
  pub target : Bulb
  pub known : find r id ≡ some target
  pub is_adopted : adopted target ≡ true
  pub is_connected : target.status ≡ connected
  pub resolved : resolve target c ≡ ok want
  pub has_driver : driver r target.device_id ≡ some d

prepare-Sent :
    (r : Registry) (id : Str) (c : Change) (target : Bulb) (want : LightState) (i : ℕ)
    → prepare r id c ≡ ok (target, want, i)
    → Sent r id c i want
unfolding prepare get driver adopted status_eq
prepare-Sent r id c target want i h = record {
  target = target;
  known = ground arith;
  is_adopted = ground arith;
  is_connected = ground arith;
  resolved = ground arith;
  has_driver = ground arith;
}

-- `apply` reports success only if a driver answered so for the resolved state of a lamp that is adopted,
-- connected and has that driver.
pub apply-Sent :
    (d : ℕ → LightState → Option Error) (r : Registry) (now : ℕ) (id : Str) (c : Change)
    → (apply d r now id c).error ≡ none
    → (i : ℕ) × (want : LightState) × Sent r id c i want × (d i want ≡ none)
unfolding apply
apply-Sent d r now id c h = elim (Result-cases (prepare r id c)) [
  | inr (e, p) ↦ absurd (ground arith)
  | inl ((target, want, i), p) ↦ (i, want, prepare-Sent r id c target want i p, ground arith)
]

set_desired_frame :
    (r : Registry) (t : Str) (want : LightState) (k : Str)
    → str_eq t k ≡ false
    → find (set_desired r t want) k ≡ find r k
unfolding set_desired
set_desired_frame r t want k other = elim (Option-cases (find r t)) [
  | inl e ↦ rw (set_desired, e) refl
  | inr (b, e) ↦ rw (set_desired, e, get-put, other) refl
]

-- A command for one lamp leaves every other as it is, its wanted state included.
pub apply_frame :
    (d : ℕ → LightState → Option Error) (r : Registry) (now : ℕ) (id : Str) (c : Change) (k : Str)
    → IsValid r
    → str_eq id k ≡ false
    → find (apply d r now id c).registry k ≡ find r k
unfolding apply prepare-Sent
apply_frame d r now id c k v other = elim (Result-cases (prepare r id c)) [
  | inr (e, p) ↦ rw (apply, p) refl
  | inl ((target, want, i), p) ↦
      let sent = prepare-Sent r id c target want i p in
      let keyed : target.device_id ≡ id = v.keyed id target sent.known in
      rw (apply, p) (set_desired_frame r target.device_id want k (rw keyed other))
]
