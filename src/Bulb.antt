-- ===== src/Bulb.antt =====
-- internal/bulb: one bulb's identity, capabilities and light state. A time is a number of nanoseconds
-- since the zero time; a driver, which the source compares by identity, is a number.
pub mod Diff
use haigosmart.Base.{
  ℕ, ◌≡◌, List, [], ◌∷◌, ◌++◌, Bool, true, false, not, ◌||◌, Option, none, some, ◌==◌, bool_ne,
  if◌then◌else◌,
}
use haigosmart.Base.Text.{Str, codes, has_prefix}

pub data Status : Type 0 where
  disconnected discovered connected : Status

-- s == t
unfoldable pub status_eq : Status → Status → Bool
status_eq disconnected disconnected = true
status_eq discovered discovered = true
status_eq connected connected = true
status_eq _ _ = false

pub data Mode : Type 0 where
  white scene : Mode

unfoldable pub mode_ne : Mode → Mode → Bool
mode_ne white scene = true
mode_ne scene white = true
mode_ne _ _ = false

pub record LightState : Type 0 where
  pub power : Bool
  pub brightness : ℕ
  pub color_temp : ℕ
  pub mode : Mode
  pub reported_at : ℕ

-- A field that differed, with its two values, which the source keeps as texts.
pub data FieldChange : Type 0 where
  power_change : Bool → Bool → FieldChange
  brightness_change : ℕ → ℕ → FieldChange
  temp_change : ℕ → ℕ → FieldChange
  mode_change : Mode → Mode → FieldChange

abbrev change_if : Bool → FieldChange → List FieldChange
change_if b c = if b then c ∷ [] else []

unfoldable pub diff : LightState → LightState → List FieldChange
unfolding mode_ne
diff s next =
    change_if (bool_ne s.power next.power) (power_change s.power next.power)
    ++ (change_if (not (s.brightness == next.brightness))
          (brightness_change s.brightness next.brightness)
        ++ (change_if (not (s.color_temp == next.color_temp))
              (temp_change s.color_temp next.color_temp)
            ++ change_if (mode_ne s.mode next.mode) (mode_change s.mode next.mode)))

pub record Capabilities : Type 0 where
  pub known : Bool
  pub color : Bool
  pub color_temp : Bool
  pub min_brightness : ℕ

unfoldable pub supports_color_temp : Capabilities → Bool
supports_color_temp c = not c.known || c.color_temp

unfoldable pub supports_color : Capabilities → Bool
supports_color c = not c.known || c.color

pub record Bulb : Type 0 where
  pub device_id : Str
  pub name : Str
  pub status : Status
  pub state : LightState
  pub desired : Option LightState
  pub capabilities : Capabilities
  pub firmware_version : Str
  pub first_seen : ℕ
  pub last_seen : ℕ
  pub remote_addr : Str
  pub driver : Option ℕ

unfoldable pub adopted : Bulb → Bool
unfolding status_eq
adopted b = not (status_eq b.status discovered)

-- Go's zero values of the three records.
abbrev pub zero_state : LightState
zero_state = record { power = false; brightness = 0; color_temp = 0; mode = white; reported_at = 0 }

abbrev pub zero_capabilities : Capabilities
zero_capabilities = record { known = false; color = false; color_temp = false; min_brightness = 0 }

-- strings.LastIndex(v, "_v") for the rest of v from index i on.
unfoldable pub last_index_v : Str → Option Str
unfolding has_prefix
last_index_v [] = none
last_index_v (c ∷ v) = elim (last_index_v v) [
  | some before ↦ some (c ∷ before)
  | none ↦ if has_prefix (codes "_v") (c ∷ v) then some [] else none
]

-- What stands before the last "_v", unless that is nothing.
unfoldable pub model : Bulb → Str
unfolding last_index_v
model b = elim (last_index_v b.firmware_version) [
  | none ↦ b.firmware_version
  | some [] ↦ b.firmware_version
  | some (c ∷ before) ↦ c ∷ before
]
