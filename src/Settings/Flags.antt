-- ===== src/Settings/Flags.antt =====
-- internal/config/config.go: the settings, their kinds and names, and their environment variables.
pub mod Environment
use mathlib.Core.List.{map}
use haigosmart.Base.{
  ℕ, ◌≡◌, refl, List, [], ◌∷◌, ◌++◌, Bool, Option, none, some, if◌then◌else◌, ◌==◌,
}
use haigosmart.Base.Int.{ℤ}
use haigosmart.Base.Text.{Str, codes, str_eq, to_upper}

-- What a flag of the package flag was declared as.
pub data Kind : Type 0 where
  boolean whole_number duration text : Kind

abbrev pub Carrier : Kind → Type 0
Carrier boolean = Bool
Carrier whole_number = ℤ
Carrier duration = ℤ
Carrier text = Str

-- The flags that `newFlagSet` declares, in the order of their names.
pub data Setting : Type 0 where
  command_timeout ct_max_kelvin ct_min_kelvin headless lamps listen log mqtt_broker mqtt_client_id
        mqtt_discovery_prefix mqtt_password mqtt_prefix mqtt_username registry verbose :
      Setting

abbrev pub kind_of : Setting → Kind
kind_of command_timeout = duration
kind_of ct_max_kelvin = whole_number
kind_of ct_min_kelvin = whole_number
kind_of headless = boolean
kind_of lamps = text
kind_of listen = text
kind_of log = text
kind_of mqtt_broker = text
kind_of mqtt_client_id = text
kind_of mqtt_discovery_prefix = text
kind_of mqtt_password = text
kind_of mqtt_prefix = text
kind_of mqtt_username = text
kind_of registry = text
kind_of verbose = boolean

unfoldable pub name_of : Setting → Str
name_of command_timeout = codes "command-timeout"
name_of ct_max_kelvin = codes "ct-max-kelvin"
name_of ct_min_kelvin = codes "ct-min-kelvin"
name_of headless = codes "headless"
name_of lamps = codes "lamps"
name_of listen = codes "listen"
name_of log = codes "log"
name_of mqtt_broker = codes "mqtt-broker"
name_of mqtt_client_id = codes "mqtt-client-id"
name_of mqtt_discovery_prefix = codes "mqtt-discovery-prefix"
name_of mqtt_password = codes "mqtt-password"
name_of mqtt_prefix = codes "mqtt-prefix"
name_of mqtt_username = codes "mqtt-username"
name_of registry = codes "registry"
name_of verbose = codes "v"

-- The words of an error message for a kind.
unfoldable pub kind_name : Kind → Str
kind_name boolean = codes "boolean (true or false)"
kind_name whole_number = codes "whole number"
kind_name duration = codes "duration (for example 5s or 2m)"
kind_name text = codes "string"

-- `VisitAll` goes by the names, in lexical order.
abbrev pub all_settings : List Setting
all_settings =
    command_timeout ∷ ct_max_kelvin ∷ ct_min_kelvin ∷ headless ∷ lamps ∷ listen ∷ log ∷ mqtt_broker
    ∷ mqtt_client_id ∷ mqtt_discovery_prefix ∷ mqtt_password ∷ mqtt_prefix ∷ mqtt_username
    ∷ registry ∷ verbose ∷ []

-- strings.ReplaceAll at one byte
unfoldable pub replace_all : ℕ → ℕ → Str → Str
replace_all old new s = map (λ (c : ℕ). if c == old then new else c) s

abbrev pub env_prefix : Str
env_prefix = codes "HAIGOSMART_"

unfoldable pub env_name : Str → Str
unfolding replace_all to_upper
env_name flag_name = env_prefix ++ to_upper (replace_all b'-' b'_' flag_name)
