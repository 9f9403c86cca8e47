-- ===== src/Daemon.antt =====
-- cmd/haigosmartd/main.go: `run`, from the settings to the first connection, and how it ends.
pub mod Startup
pub mod Ending
use haigosmart.Base.{
  ℕ, List, [], ◌∷◌, ◌++◌, Bool, true, false, not, ◌||◌, Option, none, some, if◌then◌else◌, Result,
  ok, err, ◌>>=◌, wrap_error,
}
use haigosmart.Base.Int.{ℤ, pos}
use haigosmart.Base.Text.{Str, codes, is_empty, str_eq}
use haigosmart.Registry
use haigosmart.Registry.{Registry}
use haigosmart.Registry.Persist as Persist
use haigosmart.Lamps.{Lamp, declare_lamps, is_configured}
use haigosmart.Settings.{Config}
use haigosmart.Settings.Load.{FlagPackage, LoadError, load}
use haigosmart.Settings.Checks.{Refusal, validate}
use haigosmart.Mqtt as Mqtt
use haigosmart.Hass.Config as Hass

-- The arguments that are answered before anything else.
unfoldable pub asks_version : List Str → Bool
unfolding str_eq
asks_version [] = false
asks_version (arg ∷ args) =
    str_eq arg (codes "-version") || str_eq arg (codes "--version") || asks_version args

pub data Level : Type 0 where
  debug info : Level

-- Where the records go: standard output, of which a failed write ends the process, or a file.
pub data Target : Type 0 where
  standard_output : Target
  log_file : Str → Target

pub record Logger : Type 0 where
  pub target : Target
  pub level : Level

-- What the operating system answers: which log files open, the default log file in its directory for
-- temporary files, and what Load of the registry's store finds at a path.
pub record System : Type 0 where
  pub opens : Str → Bool
  pub temporary_log : Str
  pub on_disk : Str → Persist.OnDisk
  pub splits : Str → Bool
  pub default_path : Str

pub data StartError : Type 0 where
  settings : LoadError → StartError
  refused : Refusal → StartError
  opening_log : Str → StartError
  registry_file : Persist.LoadError → StartError
  configured_lamp : Registry.Error → StartError

unfoldable pub open_file : System → Level → Str → Result StartError Logger
open_file sys level path =
    if sys.opens path
    then ok (record { target = log_file path; level = level })
    else err (opening_log path)

unfoldable pub new_logger : System → Str → Bool → Bool → Result StartError Logger
unfolding is_empty open_file
new_logger sys path headless verbose =
    let level = if verbose then debug else info in
    if not (is_empty path)
    then open_file sys level path
    else if headless
    then ok (record { target = standard_output; level = level })
    else open_file sys level sys.temporary_log

-- The bridge to Home Assistant and its client.
pub record Integration : Type 0 where
  pub hass : Hass.Config
  pub client : Mqtt.Options

-- The keep-alive is left to the client's default.
unfoldable pub integration : Config → Option Integration
unfolding is_empty Hass.status_topic
integration c =
    let hass_config : Hass.Config = record {
      discovery_prefix = c.discovery_prefix;
      prefix = c.mqtt_prefix;
      min_kelvin = c.min_kelvin;
      max_kelvin = c.max_kelvin;
    } in
    if is_empty c.mqtt_broker
    then none
    else some (record {
      hass = hass_config;
      client = record {
        broker = c.mqtt_broker;
        client_id = c.mqtt_client_id;
        username = c.mqtt_username;
        password = c.mqtt_password;
        keep_alive = pos 0;
        will_topic = Hass.status_topic hass_config;
        will_payload = codes "offline";
        will_retain = true;
      };
    })

-- What stands when the listener opens. `admit` is the server's predicate, true of all where it is nil.
pub record Running : Type 0 where
  pub config : Config
  pub logger : Logger
  pub registry : Registry
  pub admit : Str → Bool
  pub timeout : ℤ
  pub bridge : Option Integration

unfoldable pub admission : Config → Str → Bool
admission c id = if c.headless then is_configured c.lamps id else true

unfoldable pub declare_all : Registry → Config → Result StartError Registry
unfolding declare_lamps
declare_all r c =
    let out = declare_lamps r c.lamps in
    elim out.1 [ some e ↦ err (configured_lamp e) | none ↦ ok out.0 ]

unfoldable pub refuse : Option Refusal → Result StartError (Unit {0})
refuse none = ok tt
refuse (some e) = err (refused e)

-- The server, the service and the bridge, with what the configuration gives them.
unfoldable pub opened : Config → Logger → Registry → Running
unfolding admission integration
opened c l r = record {
  config = c;
  logger = l;
  registry = r;
  admit = admission c;
  timeout = c.command_timeout;
  bridge = integration c;
}

-- Everything up to the listener: an error on the way, and nothing is served.
unfoldable pub start_up : FlagPackage → System → List Str → (Str → Str) → Result StartError Running
unfolding load validate refuse new_logger Persist.load declare_all opened
start_up pk sys args env = wrap_error settings (load pk sys.default_path args env) >>= (λ c.
    refuse (validate sys.splits c) >>= (λ u.
      new_logger sys c.log_path c.headless c.verbose >>= (λ l.
        wrap_error registry_file (Persist.load (sys.on_disk c.registry_path))
        >>= (λ r. declare_all r c >>= (λ r'. ok (opened c l r'))))))
