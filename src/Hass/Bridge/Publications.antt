-- ===== src/Hass/Bridge/Publications.antt =====
-- internal/hass/bridge.go: what an event may make the bridge publish.
use haigosmart.Base.{◌≡◌, true, false, ◌⊎◌, some}
use haigosmart.Base.Text.{Str, codes, str_eq}
use haigosmart.Base.Assoc
use haigosmart.Bulb.{Bulb, adopted, status_eq}
use haigosmart.Bulb
use haigosmart.Events.{
  Kind, state_changed, connected, disconnected, discovered, command_result, protocol_error,
  duplicate_id, renamed, rejected,
}
use haigosmart.Registry.{Registry}
use haigosmart.Hass.Entity.{state}
use haigosmart.Hass.Discovery.{discovery}
use haigosmart.Hass.Bridge.{
  Message, lamp_config, lamp_state, lamp_availability, bridge_config, bridge_status, Bridge,
  get_flag, get_text,
}
use haigosmart.Hass.Bridge.Announced.{announces}

-- The lamp has reported in its present connection, or is connected.
abbrev pub IsHeard : Bridge → Str → Bulb → Type 0
IsHeard b id lamp = (get_flag b.reported id ≡ true) ⊎ (lamp.status ≡ Bulb.connected)

-- The kinds of event of the lamp id with which its state may go out.
abbrev pub AllowsState : Bridge → Str → Bulb → Kind → Type 0
AllowsState b id lamp state_changed = Unit
AllowsState b id lamp renamed = IsHeard b id lamp
AllowsState b id lamp connected = ⊥
AllowsState b id lamp disconnected = ⊥
AllowsState b id lamp discovered = ⊥
AllowsState b id lamp command_result = ⊥
AllowsState b id lamp protocol_error = ⊥
AllowsState b id lamp duplicate_id = ⊥
AllowsState b id lamp rejected = ⊥

-- `online` with the first report of a connection, `offline` with its end, and with a renaming what the
-- lamp's status says.
abbrev pub AllowsAvailability : Bridge → Str → Bulb → Kind → Str → Type 0
AllowsAvailability b id lamp state_changed value =
    (get_flag b.reported id ≡ false) × (value ≡ codes "online")
AllowsAvailability b id lamp disconnected value = value ≡ codes "offline"
AllowsAvailability b id lamp renamed value =
    IsHeard b id lamp
    × ((lamp.status ≡ Bulb.connected) × (value ≡ codes "online")
        ⊎ (status_eq lamp.status Bulb.connected ≡ false) × (value ≡ codes "offline"))
AllowsAvailability b id lamp connected value = ⊥
AllowsAvailability b id lamp discovered value = ⊥
AllowsAvailability b id lamp command_result value = ⊥
AllowsAvailability b id lamp protocol_error value = ⊥
AllowsAvailability b id lamp duplicate_id value = ⊥
AllowsAvailability b id lamp rejected value = ⊥

-- What an event of kind k of the lamp id may publish, with the lamp as the registry has it.
abbrev pub IsAllowed : Bridge → Str → Bulb → Kind → Message → Type 0
IsAllowed b id lamp k (lamp_config j p) =
    (j ≡ lamp.device_id)
    × (p ≡ some (discovery b.config lamp))
    × (announces k ≡ true)
    × (adopted lamp ≡ true)
    × (str_eq (get_text b.announced lamp.device_id) lamp.name ≡ false)
IsAllowed b id lamp k (lamp_state j p) =
    (j ≡ lamp.device_id) × (p ≡ state b.config lamp) × AllowsState b id lamp k
IsAllowed b id lamp k (lamp_availability j value) =
    (j ≡ lamp.device_id) × AllowsAvailability b id lamp k value
IsAllowed b id lamp k (bridge_config p) = ⊥
IsAllowed b id lamp k (bridge_status value) = ⊥
