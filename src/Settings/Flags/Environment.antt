-- ===== src/Settings/Flags/Environment.antt =====
-- internal/config/config.go: `EnvName` on the names of the settings.
use haigosmart.Base.{◌≡◌, refl, ap, sym, ◌∙◌, List, [], ◌∷◌, Option, none, some, if◌then◌else◌}
use haigosmart.Base.Text.{Str, str_eq}
use haigosmart.Settings.Flags.{
  Setting, command_timeout, ct_max_kelvin, ct_min_kelvin, headless, lamps, listen, log, mqtt_broker,
  mqtt_client_id, mqtt_discovery_prefix, mqtt_password, mqtt_prefix, mqtt_username, registry,
  verbose, name_of, all_settings, env_name,
}

-- The first setting among these that is read from a variable.
setting_of_env : Str → List Setting → Option Setting
setting_of_env variable [] = none
setting_of_env variable (s ∷ ss) =
    let rest = setting_of_env variable ss in
    if str_eq (env_name (name_of s)) variable then some s else rest

setting_of_env-env_name :
    (s : Setting) → setting_of_env (env_name (name_of s)) all_settings ≡ some s
unfolding setting_of_env env_name name_of str_eq
setting_of_env-env_name command_timeout = refl
setting_of_env-env_name ct_max_kelvin = refl
setting_of_env-env_name ct_min_kelvin = refl
setting_of_env-env_name headless = refl
setting_of_env-env_name lamps = refl
setting_of_env-env_name listen = refl
setting_of_env-env_name log = refl
setting_of_env-env_name mqtt_broker = refl
setting_of_env-env_name mqtt_client_id = refl
setting_of_env-env_name mqtt_discovery_prefix = refl
setting_of_env-env_name mqtt_password = refl
setting_of_env-env_name mqtt_prefix = refl
setting_of_env-env_name mqtt_username = refl
setting_of_env-env_name registry = refl
setting_of_env-env_name verbose = refl

-- Two settings are read from one environment variable only if they are the same setting.
pub env_name-name_of_injective :
    (s t : Setting) → env_name (name_of s) ≡ env_name (name_of t) → s ≡ t
env_name-name_of_injective s t same =
    let found : some s ≡ some t =
      sym (setting_of_env-env_name s)
      ∙ (ap (λ variable. setting_of_env variable all_settings) same ∙ setting_of_env-env_name t) in
    cc

pub name_of_injective : (s t : Setting) → name_of s ≡ name_of t → s ≡ t
name_of_injective s t same = env_name-name_of_injective s t (ap env_name same)
