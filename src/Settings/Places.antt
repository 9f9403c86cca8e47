-- ===== src/Settings/Places.antt =====
-- internal/config/config.go: the flags are separate places of the configuration.
use haigosmart.Base.{◌≡◌, ◌≢◌, refl}
use haigosmart.Settings.{FlagSet, value_of, assign}
use haigosmart.Settings.Flags.{
  Setting, command_timeout, ct_max_kelvin, ct_min_kelvin, headless, lamps, listen, log, mqtt_broker,
  mqtt_client_id, mqtt_discovery_prefix, mqtt_password, mqtt_prefix, mqtt_username, registry,
  verbose, kind_of, Carrier,
}

pub value_of-assign :
    (s : Setting) (v : Carrier (kind_of s)) (f : FlagSet) → value_of s (assign s v f) ≡ v
unfolding value_of assign
value_of-assign command_timeout v f = refl
value_of-assign ct_max_kelvin v f = refl
value_of-assign ct_min_kelvin v f = refl
value_of-assign headless v f = refl
value_of-assign lamps v f = refl
value_of-assign listen v f = refl
value_of-assign log v f = refl
value_of-assign mqtt_broker v f = refl
value_of-assign mqtt_client_id v f = refl
value_of-assign mqtt_discovery_prefix v f = refl
value_of-assign mqtt_password v f = refl
value_of-assign mqtt_prefix v f = refl
value_of-assign mqtt_username v f = refl
value_of-assign registry v f = refl
value_of-assign verbose v f = refl

pub value_of-assign_other :
    (s t : Setting) (v : Carrier (kind_of t)) (f : FlagSet)
    → s ≢ t
    → value_of s (assign t v f) ≡ value_of s f
unfolding value_of assign
value_of-assign_other command_timeout command_timeout v f differ = absurd (differ refl)
value_of-assign_other command_timeout t v f differ = refl
value_of-assign_other ct_max_kelvin ct_max_kelvin v f differ = absurd (differ refl)
value_of-assign_other ct_max_kelvin t v f differ = refl
value_of-assign_other ct_min_kelvin ct_min_kelvin v f differ = absurd (differ refl)
value_of-assign_other ct_min_kelvin t v f differ = refl
value_of-assign_other headless headless v f differ = absurd (differ refl)
value_of-assign_other headless t v f differ = refl
value_of-assign_other lamps lamps v f differ = absurd (differ refl)
value_of-assign_other lamps t v f differ = refl
value_of-assign_other listen listen v f differ = absurd (differ refl)
value_of-assign_other listen t v f differ = refl
value_of-assign_other log log v f differ = absurd (differ refl)
value_of-assign_other log t v f differ = refl
value_of-assign_other mqtt_broker mqtt_broker v f differ = absurd (differ refl)
value_of-assign_other mqtt_broker t v f differ = refl
value_of-assign_other mqtt_client_id mqtt_client_id v f differ = absurd (differ refl)
value_of-assign_other mqtt_client_id t v f differ = refl
value_of-assign_other mqtt_discovery_prefix mqtt_discovery_prefix v f differ = absurd (differ refl)
value_of-assign_other mqtt_discovery_prefix t v f differ = refl
value_of-assign_other mqtt_password mqtt_password v f differ = absurd (differ refl)
value_of-assign_other mqtt_password t v f differ = refl
value_of-assign_other mqtt_prefix mqtt_prefix v f differ = absurd (differ refl)
value_of-assign_other mqtt_prefix t v f differ = refl
value_of-assign_other mqtt_username mqtt_username v f differ = absurd (differ refl)
value_of-assign_other mqtt_username t v f differ = refl
value_of-assign_other registry registry v f differ = absurd (differ refl)
value_of-assign_other registry t v f differ = refl
value_of-assign_other verbose verbose v f differ = absurd (differ refl)
value_of-assign_other verbose t v f differ = refl
