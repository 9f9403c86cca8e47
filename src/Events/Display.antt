-- ===== src/Events/Display.antt =====
-- internal/events/event.go, and the texts of internal/bulb/state.go: how the terminal words an event.
use haigosmart.Base.{
  ℕ, zero, suc, ◌+◌, ◌-◌, ◌/◌, ◌%◌, List, [], ◌∷◌, ◌++◌, Bool, true, false, ltb, if◌then◌else◌,
  length,
}
use haigosmart.Base.Text.{Str, codes, is_empty, join}
use haigosmart.Bulb.{
  Mode, white, scene, FieldChange, power_change, brightness_change, temp_change, mode_change,
}
use haigosmart.Events.{
  Kind, state_changed, connected, disconnected, discovered, command_result, protocol_error,
  duplicate_id, renamed, rejected, Event, label,
}

-- The bytes of "→" and of "—" in UTF-8.
abbrev pub arrow : Str
arrow = 0xE2 ∷ 0x86 ∷ 0x92 ∷ []

abbrev em_dash : Str
em_dash = 0xE2 ∷ 0x80 ∷ 0x94 ∷ []

unfoldable pub on_off : Bool → Str
on_off true = codes "on"
on_off false = codes "off"

unfoldable pub mode_name : Mode → Str
mode_name scene = codes "scene"
mode_name white = codes "white"

-- fmt.Sprint of a uint8
unfoldable pub decimal : ℕ → Str
decimal n =
    let ones = (b'0' + n % 10) ∷ [] in
    if ltb n 10
    then ones
    else if ltb n 100
    then (b'0' + n / 10) ∷ ones
    else (b'0' + n / 100) ∷ (b'0' + n / 10 % 10) ∷ ones

unfoldable pub field_name : FieldChange → Str
field_name (power_change was now) = codes "power"
field_name (brightness_change was now) = codes "brightness"
field_name (temp_change was now) = codes "temp"
field_name (mode_change was now) = codes "mode"

-- c.From+"→"+c.To
unfoldable pub from_to : FieldChange → Str
unfolding on_off decimal mode_name
from_to (power_change was now) = on_off was ++ (arrow ++ on_off now)
from_to (brightness_change was now) = decimal was ++ (arrow ++ decimal now)
from_to (temp_change was now) = decimal was ++ (arrow ++ decimal now)
from_to (mode_change was now) = mode_name was ++ (arrow ++ mode_name now)

unfoldable pub change_text : FieldChange → Str
unfolding field_name from_to
change_text c = field_name c ++ (codes " " ++ from_to c)

abbrev change_texts : List FieldChange → List Str
change_texts [] = []
change_texts (c ∷ cs) = change_text c ∷ change_texts cs

unfoldable pub text_of : Kind → List FieldChange → Str → Str
unfolding is_empty join change_text
text_of connected changed detail = codes "connected"
text_of disconnected changed detail =
    if is_empty detail
    then codes "disconnected"
    else codes "disconnected (" ++ (detail ++ codes ")")
text_of discovered changed detail =
    codes "discovered " ++ (em_dash ++ codes " name it to control it")
text_of command_result changed detail = codes "command failed: " ++ detail
text_of protocol_error changed detail = codes "protocol error: " ++ detail
text_of duplicate_id changed detail = codes "WARNING duplicate device id, also seen from " ++ detail
text_of renamed changed detail = detail
text_of rejected changed detail = codes "rejected: not in the configured lamp set"
text_of state_changed [] detail = codes "state reported (no change)"
text_of state_changed (c ∷ cs) detail = join (codes "  ") (change_texts (c ∷ cs))

unfoldable pub text : Event → Str
unfolding text_of
text e = text_of e.kind e.changed e.detail

abbrev spaces : ℕ → Str
spaces zero = []
spaces (suc n) = 32 ∷ spaces n

-- fmt.Sprintf("%-14s"), of ASCII
unfoldable pub padded : ℕ → Str → Str
padded width s = s ++ spaces (width - length s)

-- What time.Time.Format makes of a time is an argument.
unfoldable pub line : (ℕ → Str) → Event → Str
unfolding padded label text
line clock e = clock e.at ++ (codes "  " ++ (padded 14 (label e) ++ (codes " " ++ text e)))
