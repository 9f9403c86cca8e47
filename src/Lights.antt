-- ===== src/Lights.antt =====
-- internal/lights: reading and changing lamps, on behalf of both front ends.
pub mod Resolve
pub mod Apply
use haigosmart.Base.{
  ℕ, ◌+◌, ◌≡◌, List, [], ◌∷◌, ◌++◌, Bool, true, false, not, ◌&&◌, ◌||◌, Option, none, some, ltb,
  ◌==◌, if◌then◌else◌, Result, ok, err, ◌>>=◌, ◌>>◌, refuse_if,
}
use haigosmart.Base.Text.{Str, codes}
use haigosmart.Bulb.{
  Bulb, Status, connected, status_eq, adopted, LightState, FieldChange, Capabilities,
  supports_color_temp,
}
use haigosmart.Events.{Event, renamed, command_result}
use haigosmart.Registry
use haigosmart.Registry.{Registry}

-- The quantity that a RangeError is about.
pub data What : Type 0 where
  brightness_range color_temp_range : What

-- `unsupported` and `unconfirmed` are bulb.ErrUnsupported and bulb.ErrUnconfirmed; `driver_failed` is
-- any other error of a driver.
pub data Error : Type 0 where
  unknown_bulb not_adopted not_connected out_of_range unsupported unconfirmed : Error
  range_error : What → ℕ → Error
  driver_failed : Str → Error

-- A pointer that is nil is `none`: leave the field alone.
pub record Change : Type 0 where
  pub power : Option Bool
  pub brightness : Option ℕ
  pub color_temp : Option ℕ

abbrev is_none {ℓ} : {A : Type ℓ} → Option A → Bool
is_none none = true
is_none (some a) = false

unfoldable pub is_empty_change : Change → Bool
is_empty_change c = is_none c.power && (is_none c.brightness && is_none c.color_temp)

abbrev pub default_timeout : ℕ
default_timeout = 5000000000

-- A duration of 0 stands for the non-positive ones.
unfoldable pub set_timeout : ℕ → ℕ
set_timeout d = if d == 0 then default_timeout else d

unfoldable pub resolve_brightness : Bulb → Option ℕ → LightState → Result Error LightState
resolve_brightness target none want = ok want
resolve_brightness target (some pct) want =
    if ltb 100 pct
    then err (range_error brightness_range pct)
    else if ltb 0 pct && ltb pct target.capabilities.min_brightness
    then err out_of_range
    else ok (record want { brightness = pct; power = ltb 0 pct })

unfoldable pub resolve_color_temp : Bulb → Option ℕ → LightState → Result Error LightState
unfolding supports_color_temp
resolve_color_temp target none want = ok want
resolve_color_temp target (some pct) want =
    if ltb 100 pct
    then err (range_error color_temp_range pct)
    else if not (supports_color_temp target.capabilities)
    then err unsupported
    else ok (record want { color_temp = pct })

-- The explicit power field wins over what the brightness implies.
unfoldable pub resolve_power : Option Bool → LightState → LightState
resolve_power none want = want
resolve_power (some on) want =
    if on && want.brightness == 0
    then record want { power = on; brightness = 100 }
    else record want { power = on }

unfoldable pub resolve : Bulb → Change → Result Error LightState
unfolding resolve_brightness resolve_color_temp resolve_power
resolve target c = resolve_brightness target c.brightness target.state >>= (λ dimmed.
    resolve_color_temp target c.color_temp dimmed >>= (λ tinted. ok (resolve_power c.power tinted)))

unfoldable pub get : Registry → Str → Result Error Bulb
get r id = elim (Registry.view r id) [ none ↦ err unknown_bulb | some b ↦ ok b ]

-- What a call leaves: the registry, the events it published, and its error, if any.
pub record Outcome : Type 0 where
  pub registry : Registry
  pub published : List Event
  pub error : Option Error

abbrev refused : Registry → Error → Outcome
refused r e = record { registry = r; published = []; error = some e }

abbrev failure : Bulb → ℕ → Event
failure b now = record {
  at = now;
  kind = command_result;
  device_id = b.device_id;
  name = b.name;
  changed = [];
  detail = [];
}

-- What the caller is told of the driver's answer, and the event for it. Its text is the error's.
unfoldable pub answer : Bulb → ℕ → Option Error → List Event
answer b now none = []
answer b now (some unconfirmed) = []
answer b now (some e) = failure b now ∷ []

-- The checks before the driver is called: the lamp, the state to ask it for, and its driver.
unfoldable pub prepare : Registry → Str → Change → Result Error (Bulb × LightState × ℕ)
unfolding get adopted status_eq resolve Registry.driver
prepare r id c = get r id >>= (λ target.
    refuse_if (not (adopted target)) not_adopted
    >> (refuse_if (not (status_eq target.status connected)) not_connected
        >> (resolve target c >>= (λ want. elim (Registry.driver r target.device_id) [
          | none ↦ err not_connected
          | some d ↦ ok (target, want, d)
        ]))))

-- `driver_apply d want` is what the driver's Apply returns; the reports that arrive in the meantime are
-- operations of their own.
unfoldable pub apply : (ℕ → LightState → Option Error) → Registry → ℕ → Str → Change → Outcome
unfolding prepare Registry.set_desired answer
apply driver_apply r now id c = elim (prepare r id c) [
  | err e ↦ refused r e
  | ok (target, want, d) ↦ record {
    registry = Registry.set_desired r target.device_id want;
    published = answer target now (driver_apply d want);
    error = driver_apply d want;
  }
]

-- The rename of the registry, with its event when there is no error.
unfoldable pub rename :
    Registry → ℕ → Str → Str → Registry × List Event × Result Registry.Error Bool
unfolding Registry.rename
rename r now id name =
    let done = Registry.rename r id name in
    (
      done.0,
      elim done.1 [
        | err e ↦ []
        | ok was_adopted ↦
            record {
              at = now;
              kind = renamed;
              device_id = id;
              name = name;
              changed = [];
              detail = (if was_adopted then codes "adopted as " else codes "renamed to ") ++ name;
            }
            ∷ []
      ],
      done.1,
    )
