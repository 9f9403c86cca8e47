-- ===== src/Registry.antt =====
-- internal/registry/registry.go: the set of known bulbs. The mutex makes each operation one step, so an
-- operation is a function on the state. A `range` over the map runs in the order of the list.
pub mod Operation
pub mod Fields
pub mod Effects
pub mod Invariant
pub mod Names
pub mod Resolve
pub mod Persist
use haigosmart.Base.{
  ℕ, ◌+◌, ◌≡◌, List, [], ◌∷◌, Bool, true, false, not, ◌&&◌, ◌||◌, Option, none, some, ◌==◌, bool_ne,
  if◌then◌else◌, Result, ok, err,
}
use haigosmart.Base.Text.{Str, str_eq, is_empty, trim_space}
use haigosmart.Base.Assoc
use haigosmart.Base.Assoc.{Map}
use haigosmart.Bulb.{
  Bulb, Status, disconnected, discovered, connected, status_eq, LightState, FieldChange, diff,
  Capabilities, zero_state, zero_capabilities,
}

-- `saves` counts the calls of `dirty`, each of which schedules a save.
pub record Registry : Type 0 where
  pub bulbs : Map Bulb
  pub saves : ℕ

pub data Error : Type 0 where
  empty_device_id empty_name : Error
  unknown_target : Str → Error
  ambiguous_target : Str → List Str → Error
  name_in_use : Str → Str → Error

abbrev pub new : Registry
new = record { bulbs = []; saves = 0 }

abbrev pub find : Registry → Str → Option Bulb
find r id = Assoc.get r.bulbs id

-- b written back under its key, without a call of `dirty` and with one.
abbrev pub store : Registry → Str → Bulb → Registry
store r id b = record r { bulbs = Assoc.put r.bulbs id b }

abbrev pub store_dirty : Registry → Str → Bulb → Registry
store_dirty r id b = record { bulbs = Assoc.put r.bulbs id b; saves = r.saves + 1 }

-- A returning bulb's entry after it has connected.
unfoldable pub returning : Bulb → Str → Capabilities → ℕ → Bulb
unfolding status_eq
returning b addr caps now = record b {
  last_seen = now;
  remote_addr = addr;
  capabilities = if caps.known || not b.capabilities.known then caps else b.capabilities;
  status = if status_eq b.status discovered then b.status else connected;
}

-- The entry of a bulb that connects for the first time: its name is its device id.
abbrev pub first_entry : Str → Str → Capabilities → ℕ → Bulb
first_entry id addr caps now = record {
  device_id = id;
  name = id;
  status = discovered;
  state = zero_state;
  desired = none;
  capabilities = caps;
  firmware_version = [];
  first_seen = now;
  last_seen = now;
  remote_addr = addr;
  driver = none;
}

unfoldable pub upsert : Registry → Str → Str → Capabilities → ℕ → Registry × Bulb × Bool
unfolding returning
upsert r id addr caps now = elim (find r id) [
  | some b ↦ let b' = returning b addr caps now in (store_dirty r id b', b', false)
  | none ↦ let b = first_entry id addr caps now in (store_dirty r id b, b, true)
]

-- The loop over the other bulbs: the device id of one that has the name.
unfoldable pub name_owner : Map Bulb → Str → Str → Option Str
name_owner [] id name = none
name_owner ((j, b) ∷ m) id name =
    let rest = name_owner m id name in
    if not (str_eq j id) && str_eq b.name name then some b.device_id else rest

abbrev pub declared_entry : Str → Str → Bulb
declared_entry id name = record {
  device_id = id;
  name = name;
  status = disconnected;
  state = zero_state;
  desired = none;
  capabilities = zero_capabilities;
  firmware_version = [];
  first_seen = 0;
  last_seen = 0;
  remote_addr = [];
  driver = none;
}

abbrev pub adopt : Status → Status
adopt discovered = connected
adopt disconnected = disconnected
adopt connected = connected

-- The result is `created` and `renamed`.
unfoldable pub declare : Registry → Str → Str → Registry × Result Error (Bool × Bool)
declare r id name =
    if is_empty (trim_space id)
    then (r, err empty_device_id)
    else if is_empty (trim_space name)
    then (r, err empty_name)
    else elim (name_owner r.bulbs id name) [
      | some owner ↦ (r, err (name_in_use name owner))
      | none ↦ elim (find r id) [
        | none ↦ (store_dirty r id (declared_entry id name), ok (true, false))
        | some b ↦
            let renamed = not (str_eq b.name name) in
            let b' = record b { name = name; status = adopt b.status } in
            (if renamed then store_dirty r id b' else store r id b', ok (false, renamed))
      ]
    ]

abbrev pub view : Registry → Str → Option Bulb
view = find

unfoldable pub rename : Registry → Str → Str → Registry × Result Error Bool
unfolding status_eq
rename r id name = if is_empty (trim_space name) then (r, err empty_name) else elim (find r id) [
  | none ↦ (r, err (unknown_target id))
  | some b ↦ elim (name_owner r.bulbs id name) [
    | some owner ↦ (r, err (name_in_use name owner))
    | none ↦ (
      store_dirty r id (record b { name = name; status = adopt b.status }),
      ok (status_eq b.status discovered),
    )
  ]
]

unfoldable pub set_state : Registry → Str → LightState → ℕ → Registry × List FieldChange
set_state r id state now = elim (find r id) [
  | none ↦ (r, [])
  | some b ↦
      let changes = diff b.state state in
      let b' = record b { state = state; last_seen = now; desired = none } in
      (elim changes [ [] ↦ store r id b' | c ∷ cs ↦ store_dirty r id b' ], changes)
]

unfoldable pub set_desired : Registry → Str → LightState → Registry
set_desired r id want = elim (find r id) [
  | none ↦ r
  | some b ↦ store r id (record b { desired = some want })
]

unfoldable pub touch : Registry → Str → ℕ → Registry
touch r id now = elim (find r id) [ none ↦ r | some b ↦ store r id (record b { last_seen = now }) ]

unfoldable pub set_firmware : Registry → Str → Str → Registry
set_firmware r id version = if is_empty version then r else elim (find r id) [
  | none ↦ r
  | some b ↦
      if str_eq b.firmware_version version
      then r
      else store_dirty r id (record b { firmware_version = version })
]

-- a == b
unfoldable pub capabilities_eq : Capabilities → Capabilities → Bool
capabilities_eq a b =
    not (bool_ne a.known b.known)
    && not (bool_ne a.color b.color)
    && not (bool_ne a.color_temp b.color_temp)
    && a.min_brightness == b.min_brightness

unfoldable pub set_capabilities : Registry → Str → Capabilities → Registry × Bool
unfolding capabilities_eq
set_capabilities r id caps = elim (find r id) [
  | none ↦ (r, false)
  | some b ↦
      if (not caps.known && b.capabilities.known) || capabilities_eq b.capabilities caps
      then (r, false)
      else (store_dirty r id (record b { capabilities = caps }), true)
]

-- The driver that is replaced, if any, comes back.
unfoldable pub set_driver : Registry → Str → ℕ → Registry × Option ℕ
unfolding status_eq
set_driver r id d = elim (find r id) [
  | none ↦ (r, none)
  | some b ↦ (
    store r id (record b {
      driver = some d;
      status = if status_eq b.status disconnected then connected else b.status;
    }),
    b.driver,
  )
]

unfoldable pub driver : Registry → Str → Option ℕ
driver r id = elim (find r id) [ none ↦ none | some b ↦ b.driver ]

abbrev driver_is : Option ℕ → ℕ → Bool
driver_is none d = false
driver_is (some e) d = e == d

-- `driver != nil && b.Driver != driver`
abbrev is_superseded : Option ℕ → Option ℕ → Bool
is_superseded live none = false
is_superseded live (some d) = not (driver_is live d)

-- `who` is the connection that tears down, `none` for Go's nil.
unfoldable pub disconnect : Registry → Str → Option ℕ → Registry
unfolding status_eq
disconnect r id who = elim (find r id) [
  | none ↦ r
  | some b ↦
      if is_superseded b.driver who
      then r
      else store_dirty r id (record b {
        driver = none;
        status = if status_eq b.status connected then disconnected else b.status;
      })
]
