-- ===== src/Settings.antt =====
-- internal/config/config.go: the configuration, its defaults, and what a flag writes in it.
pub mod Flags
pub mod Places
pub mod Load
pub mod Checks
use haigosmart.Base.{ℕ, List, [], ◌∷◌, ◌++◌, Bool, true, false, Option, none, some}
use haigosmart.Base.Int.{ℤ, pos}
use haigosmart.Base.Text.{Str, codes}
use haigosmart.Lamps.{Lamp}
use haigosmart.Settings.Flags.{Setting, kind_of, Carrier}

pub record Config : Type 0 where
  pub listen : Str
  pub headless : Bool
  pub verbose : Bool
  pub log_path : Str
  pub registry_path : Str
  pub command_timeout : ℤ
  pub lamps : List Lamp
  pub mqtt_broker : Str
  pub mqtt_username : Str
  pub mqtt_password : Str
  pub mqtt_client_id : Str
  pub mqtt_prefix : Str
  pub discovery_prefix : Str
  pub min_kelvin : ℤ
  pub max_kelvin : ℤ
  pub overrides : List Str

-- The flag set: its flags point into the configuration, and that of the lamps to a text of its own.
pub record FlagSet : Type 0 where
  pub config : Config
  pub lamps_text : Str

-- The location in the user's configuration directory, where there is one.
unfoldable pub default_registry_path : Option Str → Str
default_registry_path (some p) = p
default_registry_path none = codes "registry.json"

-- The declared defaults.
unfoldable pub new_flag_set : Str → FlagSet
new_flag_set default_path = record {
  config = record {
    lamps = [];
    overrides = [];
    command_timeout = pos 5000000000;
    max_kelvin = pos 6500;
    min_kelvin = pos 2700;
    headless = false;
    listen = codes ":1883";
    log_path = [];
    mqtt_broker = [];
    mqtt_client_id = codes "haigosmart";
    discovery_prefix = codes "homeassistant";
    mqtt_password = [];
    mqtt_prefix = codes "haigosmart";
    mqtt_username = [];
    registry_path = default_path;
    verbose = false;
  };
  lamps_text = [];
}

-- What a flag points to.
unfoldable pub value_of : (s : Setting) → FlagSet → Carrier (kind_of s)
value_of Setting.command_timeout f = f.config.command_timeout
value_of Setting.ct_max_kelvin f = f.config.max_kelvin
value_of Setting.ct_min_kelvin f = f.config.min_kelvin
value_of Setting.headless f = f.config.headless
value_of Setting.lamps f = f.lamps_text
value_of Setting.listen f = f.config.listen
value_of Setting.log f = f.config.log_path
value_of Setting.mqtt_broker f = f.config.mqtt_broker
value_of Setting.mqtt_client_id f = f.config.mqtt_client_id
value_of Setting.mqtt_discovery_prefix f = f.config.discovery_prefix
value_of Setting.mqtt_password f = f.config.mqtt_password
value_of Setting.mqtt_prefix f = f.config.mqtt_prefix
value_of Setting.mqtt_username f = f.config.mqtt_username
value_of Setting.registry f = f.config.registry_path
value_of Setting.verbose f = f.config.verbose

-- The write through a flag's pointer.
unfoldable pub assign : (s : Setting) → Carrier (kind_of s) → FlagSet → FlagSet
assign Setting.command_timeout v f = record f { config = record f.config { command_timeout = v } }
assign Setting.ct_max_kelvin v f = record f { config = record f.config { max_kelvin = v } }
assign Setting.ct_min_kelvin v f = record f { config = record f.config { min_kelvin = v } }
assign Setting.headless v f = record f { config = record f.config { headless = v } }
assign Setting.lamps v f = record f { lamps_text = v }
assign Setting.listen v f = record f { config = record f.config { listen = v } }
assign Setting.log v f = record f { config = record f.config { log_path = v } }
assign Setting.mqtt_broker v f = record f { config = record f.config { mqtt_broker = v } }
assign Setting.mqtt_client_id v f = record f { config = record f.config { mqtt_client_id = v } }
assign Setting.mqtt_discovery_prefix v f = record f {
  config = record f.config { discovery_prefix = v };
}
assign Setting.mqtt_password v f = record f { config = record f.config { mqtt_password = v } }
assign Setting.mqtt_prefix v f = record f { config = record f.config { mqtt_prefix = v } }
assign Setting.mqtt_username v f = record f { config = record f.config { mqtt_username = v } }
assign Setting.registry v f = record f { config = record f.config { registry_path = v } }
assign Setting.verbose v f = record f { config = record f.config { verbose = v } }
