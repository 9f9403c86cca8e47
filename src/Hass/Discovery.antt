-- ===== src/Hass/Discovery.antt =====
-- internal/hass/discovery.go: what announces a lamp and the server itself. The payloads are kept as
-- records, the JSON text of which is json.Marshal's.
use haigosmart.Base.{ℕ, List, [], ◌∷◌, ◌++◌, Bool, true, ◌||◌, Option, none, some, if◌then◌else◌}
use haigosmart.Base.Text.{Str, codes, is_empty, contains}
use haigosmart.Base.Int.{ℤ}
use haigosmart.Bulb.{Bulb, model}
use haigosmart.Hass.Config.{
  Config, with_defaults, unique_id, state_topic, command_topic, status_topic, availability_topic,
}
use haigosmart.Hass.Convert.{ha_brightness_max}
use haigosmart.Hass.Entity.{ColorMode, color_modes, supports_color_temp_entity}

-- A field that is left out when it is empty is empty here.
pub record Device : Type 0 where
  pub identifiers : List Str
  pub name : Str
  pub manufacturer : Str
  pub model : Str
  pub sw_version : Str
  pub via_device : Str

-- `kelvin` has both bounds, which are left out together.
pub record DiscoveryPayload : Type 0 where
  pub schema : Str
  pub unique_id : Str
  pub object_id : Str
  pub name : Str
  pub state_topic : Str
  pub command_topic : Str
  pub brightness : Bool
  pub brightness_scale : ℕ
  pub color_modes : List ColorMode
  pub kelvin : Option (ℤ × ℤ)
  pub availability_mode : Str
  pub availability : List Str
  pub device : Device

unfoldable pub model_name : Bulb → Str
model_name b =
    let family = model b in
    if is_empty family
    then codes "Smart Bulb"
    else if contains (codes "rgbcct") family || contains (codes "rgbw") family
    then codes "Colour and White Smart Bulb"
    else if contains (codes "rgb") family
    then codes "Colour Smart Bulb"
    else if contains (codes "cct") family
    then codes "Tunable White Smart Bulb"
    else codes "Smart Bulb"

unfoldable pub discovery : Config → Bulb → DiscoveryPayload
discovery c b =
    let cfg = with_defaults c in
    record {
      schema = codes "json";
      unique_id = unique_id cfg b.device_id;
      object_id = b.device_id;
      name = b.name;
      state_topic = state_topic cfg b.device_id;
      command_topic = command_topic cfg b.device_id;
      brightness = true;
      brightness_scale = ha_brightness_max;
      color_modes = color_modes b.capabilities;
      kelvin =
          if supports_color_temp_entity b.capabilities
          then some (cfg.min_kelvin, cfg.max_kelvin)
          else none;
      availability_mode = codes "all";
      availability = status_topic cfg ∷ availability_topic cfg b.device_id ∷ [];
      device = record {
        identifiers = unique_id cfg b.device_id ∷ [];
        name = b.name;
        manufacturer = codes "Aigo";
        model = model_name b;
        sw_version = b.firmware_version;
        via_device = cfg.prefix;
      };
    }

pub record BridgeSensorPayload : Type 0 where
  pub name : Str
  pub unique_id : Str
  pub object_id : Str
  pub state_topic : Str
  pub device_class : Str
  pub payload_on : Str
  pub payload_off : Str
  pub entity_category : Str
  pub device : Device

unfoldable pub bridge_config_topic : Config → Str
bridge_config_topic c =
    let cfg = with_defaults c in
    cfg.discovery_prefix ++ (codes "/binary_sensor/" ++ (cfg.prefix ++ codes "/status/config"))

unfoldable pub bridge_discovery : Config → Str → BridgeSensorPayload
bridge_discovery c version =
    let cfg = with_defaults c in
    record {
      name = codes "Status";
      unique_id = cfg.prefix ++ codes "_bridge_status";
      object_id = cfg.prefix ++ codes "_status";
      state_topic = status_topic cfg;
      device_class = codes "connectivity";
      payload_on = codes "online";
      payload_off = codes "offline";
      entity_category = codes "diagnostic";
      device = record {
        identifiers = cfg.prefix ∷ [];
        name = codes "haigosmart";
        manufacturer = codes "haigosmart";
        model = codes "Bulb Server";
        sw_version = version;
        via_device = [];
      };
    }
