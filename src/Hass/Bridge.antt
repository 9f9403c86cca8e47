-- ===== src/Hass/Bridge.antt =====
-- internal/hass/bridge.go: what the bridge publishes and when, and the commands that come back. The
-- publications that fail are an argument; the registry is the lights service's.
pub mod Retained
pub mod Announced
pub mod History
pub mod Publications
pub mod Commands
use haigosmart.Base.{
  ℕ, List, [], ◌∷◌, ◌++◌, Bool, true, false, not, ◌||◌, Option, none, some, if◌then◌else◌, Result,
  ok, err,
}
use haigosmart.Base.Text.{Str, codes, str_eq, is_empty}
use haigosmart.Base.Assoc
use haigosmart.Base.Assoc.{Map}
use haigosmart.Bulb.{Bulb, adopted, status_eq, LightState}
use haigosmart.Bulb
use haigosmart.Events.{
  Event, Kind, state_changed, connected, disconnected, discovered, command_result, protocol_error,
  duplicate_id, renamed, rejected,
}
use haigosmart.Registry.{Registry}
use haigosmart.Registry.Resolve.{list}
use haigosmart.Lights
use haigosmart.Lights.{get, apply}
use haigosmart.Hass.Config.{
  Config, with_defaults, config_topic, state_topic, status_topic, availability_topic,
}
use haigosmart.Hass.Command.{CommandPayload, device_id_from_command_topic, parse_command}
use haigosmart.Hass.Entity.{StatePayload, state, availability}
use haigosmart.Hass.Discovery.{
  DiscoveryPayload, discovery, BridgeSensorPayload, bridge_discovery, bridge_config_topic,
}

-- What is published, always retained. A config without a payload removes the lamp.
pub data Message : Type 0 where
  lamp_config : Str → Option DiscoveryPayload → Message
  lamp_state : Str → StatePayload → Message
  lamp_availability : Str → Str → Message
  bridge_config : BridgeSensorPayload → Message
  bridge_status : Str → Message

unfoldable pub topic_of : Config → Message → Str
topic_of c (lamp_config id p) = config_topic c id
topic_of c (lamp_state id p) = state_topic c id
topic_of c (lamp_availability id value) = availability_topic c id
topic_of c (bridge_config p) = bridge_config_topic c
topic_of c (bridge_status value) = status_topic c

pub record Bridge : Type 0 where
  pub config : Config
  pub reported : Map Bool
  pub announced : Map Str

unfoldable pub new : Config → Bridge
new c = record { config = with_defaults c; reported = []; announced = [] }

-- A map's value at a key, and false or "" without one.
abbrev pub get_flag : Map Bool → Str → Bool
get_flag m id = elim (Assoc.get m id) [ none ↦ false | some v ↦ v ]

abbrev pub get_text : Map Str → Str → Str
get_text m id = elim (Assoc.get m id) [ none ↦ [] | some v ↦ v ]

-- A publication that does not go out is logged only.
abbrev pub publish : (Message → Bool) → Message → List Message
publish fails m = if fails m then [] else m ∷ []

-- A discovery that does not go out, in its encoding or its sending, is not recorded.
unfoldable pub announce : (Message → Bool) → Bridge → Bulb → Bridge × List Message
announce fails b lamp =
    let config = lamp_config lamp.device_id (some (discovery b.config lamp)) in
    if not (adopted lamp)
    then (b, [])
    else if str_eq (get_text b.announced lamp.device_id) lamp.name
    then (b, [])
    else if fails config
    then (b, [])
    else (record b { announced = Assoc.put b.announced lamp.device_id lamp.name }, config ∷ [])

abbrev pub publish_state : (Message → Bool) → Bridge → Bulb → List Message
publish_state fails b lamp = publish fails (lamp_state lamp.device_id (state b.config lamp))

abbrev pub publish_availability : (Message → Bool) → Str → Str → List Message
publish_availability fails id value = publish fails (lamp_availability id value)

unfoldable pub handle_kind : (Message → Bool) → Bridge → Str → Bulb → Kind → Bridge × List Message
handle_kind fails b id lamp connected = announce fails b lamp
handle_kind fails b id lamp renamed =
    let (b', announcement) = announce fails b lamp in
    (
      b',
      announcement
          ++ (if get_flag b.reported id || status_eq lamp.status Bulb.connected
              then publish_state fails b lamp
                ++ publish_availability fails lamp.device_id (availability lamp)
              else []),
    )
handle_kind fails b id lamp disconnected = (
  record b { reported = Assoc.delete b.reported id },
  publish_availability fails lamp.device_id (codes "offline"),
)
handle_kind fails b id lamp state_changed =
    let (b', announcement) =
      announce fails (record b { reported = Assoc.put b.reported id true }) lamp in
    (
      b',
      announcement
          ++ (publish_state fails b lamp
              ++ (if get_flag b.reported id
                  then []
                  else publish_availability fails lamp.device_id (codes "online"))),
    )
handle_kind fails b id lamp discovered = (b, [])
handle_kind fails b id lamp command_result = (b, [])
handle_kind fails b id lamp protocol_error = (b, [])
handle_kind fails b id lamp duplicate_id = (b, [])
handle_kind fails b id lamp rejected = (b, [])

-- The registry is the one at the time of the call.
unfoldable pub handle : (Message → Bool) → Registry → Bridge → Event → Bridge × List Message
handle fails r b e = if is_empty e.device_id then (b, []) else elim (get r e.device_id) [
  | err reason ↦ (b, [])
  | ok lamp ↦ handle_kind fails b e.device_id lamp e.kind
]

unfoldable pub announce_each : (Message → Bool) → Bridge → List Bulb → Bridge × List Message
announce_each fails b [] = (b, [])
announce_each fails b (lamp ∷ lamps) =
    let (b', announcement) = announce fails b lamp in
    let (b'', more) = announce_each fails b' lamps in (b'', announcement ++ more)

-- The subscription to the command topic is the client's.
unfoldable pub on_connect : (Message → Bool) → Registry → Bridge → Bridge × List Message
on_connect fails r b =
    let (b', announcements) = announce_each fails b (list r) in
    (
      b',
      publish fails (bridge_config (bridge_discovery b.config (codes "0.2.0")))
          ++ (publish fails (bridge_status (codes "online")) ++ announcements),
    )

unfoldable pub remove : (Message → Bool) → Bridge → Str → Bridge × List Message
remove fails b id = (
  record b { announced = Assoc.delete b.announced id; reported = Assoc.delete b.reported id },
  publish fails (lamp_config id none),
)

abbrev pub publish_offline : (Message → Bool) → List Message
publish_offline fails = publish fails (bridge_status (codes "offline"))

-- What json.Unmarshal makes of the payload is an argument; nothing is published.
unfoldable pub on_command :
    Config
    → (ℕ → LightState → Option Lights.Error)
    → Registry
    → ℕ
    → Str
    → Option CommandPayload
    → Registry × List Event
on_command c driver_apply r now topic payload = elim (device_id_from_command_topic c topic) [
  | none ↦ (r, [])
  | some id ↦ elim (get r id) [
    | err reason ↦ (r, [])
    | ok lamp ↦ elim (parse_command c payload) [
      | err reason ↦ (r, [])
      | ok change ↦ let done = apply driver_apply r now id change in (done.registry, done.published)
    ]
  ]
]
