-- ===== src/Hass/Config.antt =====
-- internal/hass/topics.go: the bridge's settings and the topics it uses.
use haigosmart.Base.{◌++◌, if◌then◌else◌}
use haigosmart.Base.Text.{Str, codes, is_empty}
use haigosmart.Base.Int.{ℤ, pos, leb_ℤ}

pub record Config : Type 0 where
  pub discovery_prefix : Str
  pub prefix : Str
  pub min_kelvin : ℤ
  pub max_kelvin : ℤ

abbrev pub default_config : Config
default_config = record {
  discovery_prefix = codes "homeassistant";
  prefix = codes "haigosmart";
  min_kelvin = pos 2700;
  max_kelvin = pos 6500;
}

unfoldable pub with_defaults : Config → Config
unfolding is_empty
with_defaults c = record {
  discovery_prefix =
      if is_empty c.discovery_prefix then default_config.discovery_prefix else c.discovery_prefix;
  prefix = if is_empty c.prefix then default_config.prefix else c.prefix;
  min_kelvin = if leb_ℤ c.min_kelvin (pos 0) then default_config.min_kelvin else c.min_kelvin;
  max_kelvin = if leb_ℤ c.max_kelvin (pos 0) then default_config.max_kelvin else c.max_kelvin;
}

abbrev pub light_segment : Str
light_segment = codes "/light/"

abbrev pub set_segment : Str
set_segment = codes "/set"

-- fmt.Sprintf("%s/light/%s/%s/config", ...)
unfoldable pub config_topic : Config → Str → Str
config_topic c id =
    let cfg = with_defaults c in
    cfg.discovery_prefix
    ++ (light_segment ++ (cfg.prefix ++ (codes "/" ++ (id ++ codes "/config"))))

unfoldable pub state_topic : Config → Str → Str
state_topic c id = (with_defaults c).prefix ++ (light_segment ++ (id ++ codes "/state"))

unfoldable pub command_topic : Config → Str → Str
command_topic c id = (with_defaults c).prefix ++ (light_segment ++ (id ++ set_segment))

unfoldable pub availability_topic : Config → Str → Str
availability_topic c id =
    (with_defaults c).prefix ++ (light_segment ++ (id ++ codes "/availability"))

unfoldable pub command_filter : Config → Str
command_filter c = (with_defaults c).prefix ++ (light_segment ++ (codes "+" ++ set_segment))

unfoldable pub status_topic : Config → Str
status_topic c = (with_defaults c).prefix ++ codes "/status"

unfoldable pub unique_id : Config → Str → Str
unique_id c id = (with_defaults c).prefix ++ (codes "_" ++ id)
