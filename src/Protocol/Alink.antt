-- ===== src/Protocol/Alink.antt =====
-- internal/protocol/alink.go and capabilities.go: identities, property reports and commands. What
-- json.Unmarshal makes of a payload is an argument: `none` where it returns an error.
pub mod Commands
use haigosmart.Base.{
  ℕ, ◌+◌, ◌-◌, ◌*◌, ◌/◌, ◌^◌, ◌≡◌, List, [], ◌∷◌, ◌++◌, Bool, true, false, not, ◌&&◌, ◌||◌, Option,
  none, some, ltb, ◌==◌, bool_ne, if◌then◌else◌, length, take, drop,
}
use haigosmart.Base.Text.{
  Str, codes, str_eq, is_empty, to_lower, contains, cut, has_prefix, has_suffix,
}
use haigosmart.Bulb.{
  LightState, Mode, white, scene, Capabilities, supports_color_temp, zero_capabilities,
}
use haigosmart.Protocol.Connect.{Connect}

pub record Identity : Type 0 where
  pub device_name : Str
  pub product_key : Str

-- The fall-back on the client id, which is "{productKey}.{deviceName}|...".
unfoldable pub identity_from_client_id : Str → Option Identity
unfolding cut is_empty
identity_from_client_id client =
    let head : Str = elim (cut b'|' client) [ none ↦ client | some (before, after) ↦ before ] in
    elim (cut b'.' head) [
      | none ↦ none
      | some (key, name) ↦
          if not (is_empty key) && not (is_empty name)
          then some (record { device_name = name; product_key = key })
          else none
    ]

-- The username is "{deviceName}&{productKey}"; `none` is the error.
unfoldable pub identity_from_connect : Connect → Option Identity
unfolding identity_from_client_id
identity_from_connect c = elim (cut b'&' c.username) [
  | none ↦ identity_from_client_id c.client_id
  | some (name, key) ↦
      if not (is_empty name) && not (is_empty key)
      then some (record { device_name = name; product_key = key })
      else identity_from_client_id c.client_id
]

-- The number ± mantissa / 10 ^ scale, for a float64 read from JSON.
pub record Number : Type 0 where
  pub negative : Bool
  pub mantissa : ℕ
  pub scale : ℕ

-- n != 0
abbrev nonzero : Number → Bool
nonzero n = not (n.mantissa == 0)

unfoldable pub clamp_percent : Number → ℕ
clamp_percent n =
    if n.negative && nonzero n
    then 0
    else if ltb (100 * 10 ^ n.scale) n.mantissa
    then 100
    else n.mantissa / 10 ^ n.scale

-- One value of a report, as its three readings: a bare number, a {"value": number} wrapper, and the
-- "seq" inside a {"value": {...}} wrapper.
pub record AlinkValue : Type 0 where
  pub is_given : Bool
  pub direct : Option Number
  pub wrapped : Option Number
  pub wrapped_seq : Option Str

unfoldable pub number : AlinkValue → Option Number
number a = if a.is_given then elim a.direct [ some n ↦ some n | none ↦ a.wrapped ] else none

unfoldable pub seq : AlinkValue → Str
seq a = elim a.wrapped_seq [ some s ↦ s | none ↦ [] ]

pub record PropertyPost : Type 0 where
  pub id : Str
  pub power : Option Bool
  pub brightness : Option ℕ
  pub color_temp : Option ℕ
  pub mode : Option Mode
  pub seq : Str

abbrev prop_switch : Str
prop_switch = codes "LightSwitch"

abbrev prop_brightness : Str
prop_brightness = codes "Brightness"

abbrev prop_color_temp : Str
prop_color_temp = codes "ColorTemperature"

abbrev prop_light_mode : Str
prop_light_mode = codes "LightMode"

abbrev prop_response : Str
prop_response = codes "CommonServiceResponse"

abbrev when_number : Option Number → PropertyPost → (Number → PropertyPost) → PropertyPost
when_number none post f = post
when_number (some n) post f = f n

-- The body of the loop over `params`.
unfoldable pub read_param : PropertyPost → Str → AlinkValue → PropertyPost
unfolding number seq clamp_percent str_eq
read_param post name value =
    if str_eq name prop_switch
    then when_number (number value) post (λ n. record post { power = some (nonzero n) })
    else if str_eq name prop_brightness
    then when_number (number value) post (λ n. record post { brightness = some (clamp_percent n) })
    else if str_eq name prop_color_temp
    then when_number (number value) post (λ n. record post { color_temp = some (clamp_percent n) })
    else if str_eq name prop_light_mode
    then when_number (number value) post
        (λ n. record post { mode = some (if nonzero n then scene else white) })
    else if str_eq name prop_response
    then record post { seq = seq value }
    else post

unfoldable pub read_params : PropertyPost → List (Str × AlinkValue) → PropertyPost
unfolding read_param
read_params post [] = post
read_params post ((name, value) ∷ rest) = read_params (read_param post name value) rest

abbrev pub empty_post : Str → PropertyPost
empty_post id = record {
  id = id;
  power = none;
  brightness = none;
  color_temp = none;
  mode = none;
  seq = [];
}

-- The decoded message is its "id" and its "params".
unfoldable pub decode_property_post : Option (Str × List (Str × AlinkValue)) → Option PropertyPost
unfolding read_params
decode_property_post none = none
decode_property_post (some (id, params)) = some (read_params (empty_post id) params)

abbrev pub or_else {ℓ} : {A : Type ℓ} → Option A → A → A
or_else none a = a
or_else (some b) a = b

-- PropertyPost.Apply
unfoldable pub apply_post : PropertyPost → LightState → ℕ → LightState
apply_post p prev at = record {
  power = or_else p.power prev.power;
  brightness = or_else p.brightness prev.brightness;
  color_temp = or_else p.color_temp prev.color_temp;
  mode = or_else p.mode prev.mode;
  reported_at = at;
}

-- A property assignment: the switch, the brightness or the colour temperature.
pub data Property : Type 0 where
  switch_to : ℕ → Property
  brightness_to : ℕ → Property
  color_temp_to : ℕ → Property

abbrev property_if : Bool → Property → List Property
property_if b p = if b then p ∷ [] else []

unfoldable pub changed_props : LightState → LightState → Capabilities → List Property
unfolding supports_color_temp
changed_props current want caps =
    property_if (want.power && bool_ne want.power current.power) (switch_to 1)
    ++ ((if want.power
          then property_if (ltb 0 want.brightness && not (want.brightness == current.brightness))
              (brightness_to want.brightness)
            ++ property_if (supports_color_temp caps && not (want.color_temp == current.color_temp))
                (color_temp_to want.color_temp)
          else [])
        ++ property_if (not want.power && bool_ne want.power current.power) (switch_to 0))

unfoldable pub capabilities_from_version : Str → Capabilities
unfolding to_lower contains is_empty
capabilities_from_version version =
    let caps = record zero_capabilities { min_brightness = 1 } in
    let v = to_lower version in
    if is_empty v
    then caps
    else if contains (codes "rgbcct") v || contains (codes "rgbw") v
    then record caps { known = true; color = true; color_temp = true }
    else if contains (codes "rgb") v
    then record caps { known = true; color = true }
    else if contains (codes "cct") v
    then record caps { known = true; color_temp = true }
    else caps

unfoldable pub refine_from_report : Capabilities → PropertyPost → Capabilities
refine_from_report caps post = elim post.color_temp [
  | none ↦ caps
  | some t ↦ record caps { color_temp = true; known = true }
]
