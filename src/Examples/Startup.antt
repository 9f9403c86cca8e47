-- ===== src/Examples/Startup.antt =====
-- A start of the server with one configured lamp, and without a terminal.
use haigosmart.Base.{
  ◌≡◌, ◌↔◌, ◌⊎◌, refl, List, [], ◌∷◌, true, none, some, All, ok, err, if◌then◌else◌,
}
use haigosmart.Base.Text.{Str, codes, str_eq, is_empty}
use haigosmart.Settings.{new_flag_set, FlagSet}
use haigosmart.Settings.Flags.{Setting, all_settings, env_name, name_of}
use haigosmart.Settings.Load.{FlagPackage, environment, argument, command_line, gather}
use haigosmart.Settings.Load.Precedence.{
  or_else, last_given, from_variable, env_given, Holds, gather-Holds,
}
use haigosmart.Settings.Load.Outcome.{StopsAt, Reads, gather_outcome}
use haigosmart.Settings.Checks.{log_value, log_value_redacted}
use haigosmart.Registry.{declared_entry, name_owner}
use haigosmart.Registry.Persist as Persist
use haigosmart.Daemon.{System, Running, opened, start_up, standard_output, info}
use haigosmart.Daemon.Startup.{Serves, start_up-Serves}

-- Every argument is an address to listen on, and a number is its length.
abbrev flags : FlagPackage
flags = record {
  read_bool = λ s. if str_eq s (codes "true") then some true else none;
  read_int = λ s. none;
  read_duration = λ s. none;
  arguments = λ args. (elim args [ [] ↦ [] | a ∷ rest ↦ (Setting.listen, a) ∷ [] ], none);
}

abbrev environ : Str → Str
environ variable =
    if str_eq variable (codes "HAIGOSMART_HEADLESS")
    then codes "true"
    else if str_eq variable (codes "HAIGOSMART_LAMPS")
    then codes "A1=desk"
    else []

abbrev arguments : List Str
arguments = codes ":9" ∷ []

abbrev system : System
system = record {
  opens = λ path. true;
  temporary_log = codes "/tmp/haigosmart.log";
  on_disk = λ path. Persist.missing;
  splits = λ listen. true;
  default_path = codes "registry.json";
}

-- What the two places give, over the defaults.
abbrev set_up : FlagSet
set_up = record {
  config = record (new_flag_set (codes "registry.json")).config {
    headless = true;
    listen = codes ":9";
  };
  lamps_text = codes "A1=desk";
}

gathered :
    gather flags (codes "registry.json") arguments environ
    ≡ ok (set_up, codes "headless" ∷ codes "lamps" ∷ [])
unfolding gather str_eq env_name name_of new_flag_set
gathered = refl

gather-Holds_example :
    Holds flags Setting.listen
      (or_else
        (last_given Setting.listen (flags.arguments arguments).0)
        (from_variable environ Setting.listen))
      (new_flag_set (codes "registry.json"))
      set_up
gather-Holds_example =
    gather-Holds flags (codes "registry.json") arguments environ set_up
      (codes "headless" ∷ codes "lamps" ∷ []) gathered Setting.listen

abbrev running : Running
running =
    opened
      (record set_up.config {
        lamps = (record { device_id = codes "A1"; name = codes "desk" }) ∷ [];
      })
      (record { target = standard_output; level = info })
      (record { bulbs = (codes "A1", declared_entry (codes "A1") (codes "desk")) ∷ []; saves = 1 })

started : start_up flags system arguments environ ≡ ok running
unfolding start_up opened str_eq env_name name_of new_flag_set name_owner
started = refl

start_up-Serves_example : Serves system.splits running
start_up-Serves_example = start_up-Serves flags system arguments environ running started

log_value_redacted_example :
    (log_value (λ d. []) (record (new_flag_set []).config { mqtt_password = codes "a" })
      ≡ log_value (λ d. []) (record (new_flag_set []).config { mqtt_password = codes "b" }))
    ↔ (is_empty (codes "a") ≡ is_empty (codes "b"))
log_value_redacted_example =
    log_value_redacted (λ d. []) (new_flag_set []).config (codes "a") (codes "b")

gather_outcome_example :
    StopsAt flags environment
      (env_given environ all_settings)
      (gather flags (codes "registry.json") arguments environ)
    ⊎ (All (Reads flags) (env_given environ all_settings)
        × (StopsAt flags argument
              (flags.arguments arguments).0
              (gather flags (codes "registry.json") arguments environ)
            ⊎ (All (Reads flags) (flags.arguments arguments).0
                × (((refusal : Str) × ((flags.arguments arguments).1 ≡ some refusal)
                      × (gather flags (codes "registry.json") arguments environ
                          ≡ err (command_line refusal)))
                    ⊎ (((flags.arguments arguments).1 ≡ none)
                        × ((out : FlagSet × List Str) × (gather flags
                                (codes "registry.json")
                                arguments
                                environ
                              ≡ ok out)))))))
gather_outcome_example = gather_outcome flags (codes "registry.json") arguments environ
