-- ===== src/Events/Record.antt =====
-- internal/events/bus.go: the log record of an event, and that it keeps what the event says.
use haigosmart.Base.{
  ◌≡◌, ◌≢◌, refl, ap, sym, ◌∙◌, List, [], ◌∷◌, ◌++◌, Option, none, some, if◌then◌else◌,
}
use haigosmart.Base.Text.{Str, codes, is_empty, str_eq}
use haigosmart.Bulb.{FieldChange, power_change, brightness_change, temp_change, mode_change}
use haigosmart.Events.{
  Kind, state_changed, connected, disconnected, discovered, command_result, protocol_error,
  duplicate_id, renamed, rejected, Event,
}
use haigosmart.Events.Display.{field_name, from_to}

pub data Level : Type 0 where
  info warn : Level

-- The level of a kind's log record.
unfoldable pub record_level : Kind → Level
record_level command_result = warn
record_level protocol_error = warn
record_level duplicate_id = warn
record_level rejected = warn
record_level _ = info

-- Its message.
unfoldable pub record_message : Kind → Str
record_message connected = codes "bulb connected"
record_message disconnected = codes "bulb disconnected"
record_message discovered = codes "bulb discovered"
record_message command_result = codes "command failed"
record_message protocol_error = codes "protocol error"
record_message duplicate_id = codes "duplicate device id"
record_message renamed = codes "bulb renamed"
record_message rejected = codes "bulb rejected"
record_message state_changed = codes "bulb reported state"

unfoldable pub kind_name : Kind → Str
kind_name connected = codes "connected"
kind_name disconnected = codes "disconnected"
kind_name discovered = codes "discovered"
kind_name command_result = codes "command_result"
kind_name protocol_error = codes "protocol_error"
kind_name duplicate_id = codes "duplicate_id"
kind_name renamed = codes "renamed"
kind_name rejected = codes "rejected"
kind_name state_changed = codes "state_changed"

unfoldable pub detail_attributes : Str → List (Str × Str)
unfolding is_empty
detail_attributes detail = if is_empty detail then [] else (codes "detail", detail) ∷ []

unfoldable pub change_attributes : List FieldChange → List (Str × Str)
unfolding field_name from_to
change_attributes [] = []
change_attributes (c ∷ cs) = (field_name c, from_to c) ∷ change_attributes cs

-- The attributes of the record, in their order.
unfoldable pub attributes : Event → List (Str × Str)
unfolding kind_name detail_attributes change_attributes
attributes e =
    (codes "kind", kind_name e.kind)
    ∷ (codes "device", e.device_id)
    ∷ (codes "name", e.name)
    ∷ (detail_attributes e.detail ++ change_attributes e.changed)

-- The first kind among these with the name.
kind_named : Str → List Kind → Option Kind
kind_named s [] = none
kind_named s (k ∷ ks) =
    let rest = kind_named s ks in if str_eq (kind_name k) s then some k else rest

abbrev all_kinds : List Kind
all_kinds =
    state_changed ∷ connected ∷ disconnected ∷ discovered ∷ command_result ∷ protocol_error
    ∷ duplicate_id ∷ renamed ∷ rejected ∷ []

kind_named-kind_name : (k : Kind) → kind_named (kind_name k) all_kinds ≡ some k
unfolding kind_named kind_name str_eq
kind_named-kind_name state_changed = refl
kind_named-kind_name connected = refl
kind_named-kind_name disconnected = refl
kind_named-kind_name discovered = refl
kind_named-kind_name command_result = refl
kind_named-kind_name protocol_error = refl
kind_named-kind_name duplicate_id = refl
kind_named-kind_name renamed = refl
kind_named-kind_name rejected = refl

kind_name_injective : (k l : Kind) → kind_name k ≡ kind_name l → k ≡ l
kind_name_injective k l same =
    let found : some k ≡ some l =
      sym (kind_named-kind_name k)
      ∙ (ap (λ s. kind_named s all_kinds) same ∙ kind_named-kind_name l) in
    cc

-- No field of a change is called as the detail is.
field_name_not_detail : (c : FieldChange) → field_name c ≢ codes "detail"
unfolding field_name
field_name_not_detail (power_change was now) same = cc
field_name_not_detail (brightness_change was now) same = cc
field_name_not_detail (temp_change was now) same = cc
field_name_not_detail (mode_change was now) same = cc

changes_not_detail :
    (cs : List FieldChange) (d : Str) (rest : List (Str × Str))
    → change_attributes cs ≢ (codes "detail", d) ∷ rest
unfolding change_attributes
changes_not_detail [] d rest same = cc
changes_not_detail (c ∷ cs) d rest same = field_name_not_detail c cc

detail_changes :
    (d d' : Str) (cs cs' : List FieldChange)
    → detail_attributes d ++ change_attributes cs ≡ detail_attributes d' ++ change_attributes cs'
    → (d ≡ d') × (change_attributes cs ≡ change_attributes cs')
unfolding detail_attributes is_empty
detail_changes [] [] cs cs' same = (refl, same)
detail_changes [] (c ∷ d') cs cs' same = absurd (changes_not_detail cs (c ∷ d') _ same)
detail_changes (c ∷ d) [] cs cs' same = absurd (changes_not_detail cs' (c ∷ d) _ (sym same))
detail_changes (c ∷ d) (c' ∷ d') cs cs' same = (cc, cc)

-- Events with the same attributes are of one kind and about one device under one name, with the
-- same detail and the same changes in words.
pub attributes_tell :
    (e e' : Event)
    → attributes e ≡ attributes e'
    → (e.kind ≡ e'.kind)
      × (e.device_id ≡ e'.device_id)
      × (e.name ≡ e'.name)
      × (e.detail ≡ e'.detail)
      × (change_attributes e.changed ≡ change_attributes e'.changed)
unfolding attributes
attributes_tell e e' same =
    let told = detail_changes e.detail e'.detail e.changed e'.changed cc in
    (kind_name_injective e.kind e'.kind cc, cc, cc, told.0, told.1)
