-- ===== src/Hass/Entity.antt =====
-- internal/hass/capabilities.go and state.go: what the entity claims and what is published of it. The
-- state payload is kept as a record, the JSON text of which is json.Marshal's.
use haigosmart.Base.{
  ℕ, ◌≡◌, ◌↔◌, List, [], ◌∷◌, Bool, true, false, not, ◌&&◌, ◌||◌, Option, none, some, if◌then◌else◌,
  arith,
}
use haigosmart.Base.Text.{Str, codes}
use haigosmart.Base.Int.{ℤ}
use haigosmart.Bulb.{Bulb, Capabilities, supports_color_temp, connected, status_eq}
use haigosmart.Hass.Config.{Config, with_defaults}
use haigosmart.Hass.Convert.{brightness_to_ha, kelvin_from_percent}

pub data ColorMode : Type 0 where
  mode_brightness mode_color_temp mode_rgb : ColorMode

unfoldable pub color_modes : Capabilities → List ColorMode
color_modes c =
    if not c.known
    then mode_brightness ∷ []
    else if c.color && c.color_temp
    then mode_color_temp ∷ mode_rgb ∷ []
    else if c.color
    then mode_rgb ∷ []
    else if c.color_temp
    then mode_color_temp ∷ []
    else mode_brightness ∷ []

abbrev is_color_temp : ColorMode → Bool
is_color_temp mode_color_temp = true
is_color_temp mode_brightness = false
is_color_temp mode_rgb = false

unfoldable pub any_color_temp : List ColorMode → Bool
any_color_temp [] = false
any_color_temp (m ∷ ms) = is_color_temp m || any_color_temp ms

unfoldable pub supports_color_temp_entity : Capabilities → Bool
unfolding color_modes any_color_temp
supports_color_temp_entity c = any_color_temp (color_modes c)

-- The two fields of warmth are left out together; `warmth` is `none` then.
pub record StatePayload : Type 0 where
  pub state : Str
  pub brightness : ℕ
  pub warmth : Option ℤ

unfoldable pub state : Config → Bulb → StatePayload
unfolding with_defaults supports_color_temp_entity brightness_to_ha kelvin_from_percent
state c b = record {
  state = if b.state.power then codes "ON" else codes "OFF";
  brightness = brightness_to_ha b.state.brightness;
  warmth =
      if supports_color_temp_entity b.capabilities
      then some (kelvin_from_percent (with_defaults c) b.state.color_temp)
      else none;
}

unfoldable pub availability : Bulb → Str
unfolding status_eq
availability b = if status_eq b.status connected then codes "online" else codes "offline"

-- The entity claims warmth exactly for a lamp that is known to have it, so that a command for warmth
-- that it sends is one that the lamp supports.
pub supports_color_temp_entity_iff :
    (c : Capabilities)
    → (supports_color_temp_entity c ≡ true) ↔ ((c.known ≡ true) × (supports_color_temp c ≡ true))
unfolding supports_color_temp_entity color_modes any_color_temp supports_color_temp
supports_color_temp_entity_iff c = ground arith
