-- ===== src/Hass/Command.antt =====
-- internal/hass/command.go: what Home Assistant asks for. What json.Unmarshal makes of a payload is
-- an argument: `none` where it returns an error.
pub mod Topic
use haigosmart.Base.{
  ℕ, ◌-◌, ◌/◌, ◌++◌, Bool, true, false, not, ◌&&◌, ◌||◌, Option, none, some, ltb, take, drop,
  length, if◌then◌else◌, Result, ok, err,
}
use haigosmart.Base.Text.{Str, codes, has_prefix, has_suffix, contains, is_empty, equal_fold}
use haigosmart.Base.Int.{ℤ, pos, pos_part, ltb_ℤ}
use haigosmart.Lights.{Change, is_empty_change}
use haigosmart.Hass.Config.{Config, with_defaults, light_segment, set_segment}
use haigosmart.Hass.Convert.{brightness_from_ha, percent_from_kelvin}

-- A pointer that is nil is `none`.
pub record CommandPayload : Type 0 where
  pub state : Option Str
  pub brightness : Option ℤ
  pub color_temp_k : Option ℤ
  pub color_temp_mired : Option ℤ

unfoldable pub device_id_from_command_topic : Config → Str → Option Str
unfolding with_defaults has_prefix has_suffix contains is_empty
device_id_from_command_topic c topic =
    let prefix = (with_defaults c).prefix ++ light_segment in
    let rest = drop (length prefix) topic in
    let id =
      if has_suffix set_segment rest then take (length rest - length set_segment) rest else rest in
    if not (has_prefix prefix topic) || not (has_suffix set_segment topic)
    then none
    else if is_empty id || contains (codes "/") id
    then none
    else some id

pub data Error : Type 0 where
  decoding asked_for_nothing : Error

abbrev map_option {ℓ κ} : {A : Type ℓ} {B : Type κ} → (A → B) → Option A → Option B
map_option f none = none
map_option f (some a) = some (f a)

-- Kelvin win over mireds, which are its reciprocal and count only when they are positive.
unfoldable pub asked_color_temp : Config → CommandPayload → Option ℕ
unfolding with_defaults percent_from_kelvin
asked_color_temp c p = elim p.color_temp_k [
  | some kelvin ↦ some (percent_from_kelvin (with_defaults c) kelvin)
  | none ↦ elim p.color_temp_mired [
    | none ↦ none
    | some mired ↦
        if ltb_ℤ (pos 0) mired
        then some (percent_from_kelvin (with_defaults c) (pos (1000000 / pos_part mired)))
        else none
  ]
]

unfoldable pub parse_command : Config → Option CommandPayload → Result Error Change
unfolding equal_fold brightness_from_ha asked_color_temp is_empty_change
parse_command c none = err decoding
parse_command c (some p) =
    let change : Change = record {
      power = map_option (λ s. equal_fold s (codes "ON")) p.state;
      brightness = map_option brightness_from_ha p.brightness;
      color_temp = asked_color_temp c p;
    } in
    if is_empty_change change then err asked_for_nothing else ok change
