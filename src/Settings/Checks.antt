-- ===== src/Settings/Checks.antt =====
-- internal/config/config.go: `Validate` and `LogValue`.
use mathlib.Core.List.{map}
use haigosmart.Base.{
  ◌≡◌, ◌≢◌, ◌↔◌, refl, inl, inr, List, [], ◌∷◌, ◌++◌, Bool, true, Option, none, some, arith,
  if◌then◌else◌, Bool-cases,
}
use haigosmart.Base.Int.{ℤ, pos, leb_ℤ, ltb_ℤ}
use haigosmart.Base.Text.{Str, codes, is_empty, join}
use haigosmart.Lamps.{Lamp}
use haigosmart.Settings.{Config}
use haigosmart.Settings.Flags.{Setting}

pub data Refusal : Type 0 where
  kelvin_range : ℤ → ℤ → Refusal
  command_timeout : ℤ → Refusal
  listen_address : Str → Refusal
  no_lamps : Refusal

-- Whether net.SplitHostPort takes the address is an argument.
unfoldable pub validate : (Str → Bool) → Config → Option Refusal
validate splits c =
    if leb_ℤ c.max_kelvin c.min_kelvin
    then some (kelvin_range c.min_kelvin c.max_kelvin)
    else if leb_ℤ c.command_timeout (pos 0)
    then some (command_timeout c.command_timeout)
    else if splits c.listen
    then if c.headless then elim c.lamps [ [] ↦ some no_lamps | l ∷ ls ↦ none ] else none
    else some (listen_address c.listen)

-- What can run: a proper range of warmth, a positive timeout, an address, and some lamp where nobody
-- is at the terminal.
abbrev pub Runnable : (Str → Bool) → Config → Type 0
Runnable splits c =
    (ltb_ℤ c.min_kelvin c.max_kelvin ≡ true)
    × (ltb_ℤ (pos 0) c.command_timeout ≡ true)
    × (splits c.listen ≡ true)
    × (c.headless ≡ true → c.lamps ≢ [])

-- A configuration is accepted exactly when it can run.
pub validate_iff :
    (splits : Str → Bool) (c : Config) → (validate splits c ≡ none) ↔ Runnable splits c
unfolding validate
validate_iff splits c = (
  λ accepted. (ground arith, ground arith, ground arith, λ headless empty. ground arith),
  λ (range, timeout, address, lamps). elim (Bool-cases c.headless) [
    | inl e ↦ ground (arith, lamps e)
    | inr e ↦ ground arith
  ],
)

pub data Value : Type 0 where
  string : Str → Value
  bool : Bool → Value
  int : ℤ → Value

unfoldable pub log_password : Str → Str
unfolding is_empty
log_password p = if is_empty p then codes "(unset)" else codes "(set)"

unfoldable pub lamp_pairs : List Lamp → List Str
lamp_pairs ls = map (λ (l : Lamp). l.device_id ++ (codes "=" ++ l.name)) ls

-- How package time prints a duration is an argument.
unfoldable pub log_value : (ℤ → Str) → Config → List (Setting × Value)
unfolding log_password join lamp_pairs
log_value show_duration c =
    (Setting.listen, string c.listen)
    ∷ (Setting.headless, bool c.headless)
    ∷ (Setting.verbose, bool c.verbose)
    ∷ (Setting.log, string c.log_path)
    ∷ (Setting.registry, string c.registry_path)
    ∷ (Setting.command_timeout, string (show_duration c.command_timeout))
    ∷ (Setting.lamps, string (join (codes ",") (lamp_pairs c.lamps)))
    ∷ (Setting.mqtt_broker, string c.mqtt_broker)
    ∷ (Setting.mqtt_username, string c.mqtt_username)
    ∷ (Setting.mqtt_password, string (log_password c.mqtt_password))
    ∷ (Setting.mqtt_client_id, string c.mqtt_client_id)
    ∷ (Setting.mqtt_prefix, string c.mqtt_prefix)
    ∷ (Setting.mqtt_discovery_prefix, string c.discovery_prefix)
    ∷ (Setting.ct_min_kelvin, int c.min_kelvin)
    ∷ (Setting.ct_max_kelvin, int c.max_kelvin)
    ∷ []

log_password-is_empty : (p q : Str) → log_password p ≡ log_password q → is_empty p ≡ is_empty q
unfolding log_password is_empty
log_password-is_empty [] [] same = refl
log_password-is_empty [] (c ∷ q) same = absurd (cc)
log_password-is_empty (c ∷ p) [] same = absurd (cc)
log_password-is_empty (c ∷ p) (d ∷ q) same = refl

is_empty-log_password : (p q : Str) → is_empty p ≡ is_empty q → log_password p ≡ log_password q
unfolding log_password
is_empty-log_password p q same = rw same refl

-- Of the password, the record shows whether it is empty and nothing more: the records of two
-- configurations that differ in the password alone are the same exactly when both passwords are
-- empty or neither is.
pub log_value_redacted :
    (show_duration : ℤ → Str) (c : Config) (p q : Str)
    → (log_value show_duration (record c { mqtt_password = p })
        ≡ log_value show_duration (record c { mqtt_password = q }))
      ↔ (is_empty p ≡ is_empty q)
unfolding log_value
log_value_redacted show_duration c p q = (
  λ same. let shown : log_password p ≡ log_password q = cc in log_password-is_empty p q shown,
  λ same. rw (log_value, is_empty-log_password p q same) refl,
)
