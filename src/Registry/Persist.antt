-- ===== src/Registry/Persist.antt =====
-- internal/registry/persist.go: the registry file. What os.ReadFile and json.Unmarshal make of the file
-- is an argument, and what json.MarshalIndent makes of a registry is kept as the record it is given.
pub mod Reload
pub mod Snapshot
pub mod Store
pub mod Write
use haigosmart.Base.{
  ℕ, ◌≡◌, List, [], ◌∷◌, Bool, true, false, not, Option, none, some, ◌==◌, if◌then◌else◌, Result,
  ok, err,
}
use haigosmart.Base.Text.{Str, is_empty}
use haigosmart.Base.Assoc
use haigosmart.Base.Assoc.{Map}
use haigosmart.Bulb.{Bulb, disconnected, LightState, Capabilities}
use haigosmart.Registry.{Registry, new}
use haigosmart.Registry.Resolve.{list}

abbrev pub file_version : ℕ
file_version = 1

pub record StoredBulb : Type 0 where
  pub device_id : Str
  pub name : Str
  pub first_seen : ℕ
  pub last_seen : ℕ
  pub capabilities : Capabilities
  pub firmware : Str
  pub state : LightState

pub record File : Type 0 where
  pub version : ℕ
  pub bulbs : List StoredBulb

-- What reading the registry's path gives.
pub data OnDisk : Type 0 where
  missing unreadable corrupt : OnDisk
  holds : File → OnDisk

pub data LoadError : Type 0 where
  reading_registry registry_corrupt no_device_id : LoadError
  wrong_version : ℕ → LoadError
  duplicate_device_id : Str → LoadError
  reused_name : Str → Str → Str → LoadError

-- The entry of a stored bulb: nothing is assumed online.
abbrev pub loaded : StoredBulb → Bulb
loaded sb = record {
  device_id = sb.device_id;
  name = sb.name;
  status = disconnected;
  state = sb.state;
  desired = none;
  capabilities = sb.capabilities;
  firmware_version = sb.firmware;
  first_seen = sb.first_seen;
  last_seen = sb.last_seen;
  remote_addr = [];
  driver = none;
}

-- The checks of one entry: `seen` has the device ids before it, `names` the owners of their names.
unfoldable pub check_stored : Map Bool → Map Str → StoredBulb → Result LoadError (Unit {0})
unfolding is_empty Assoc.get
check_stored seen names sb =
    if is_empty sb.device_id then err no_device_id else elim (Assoc.get seen sb.device_id) [
      | some b ↦ err (duplicate_device_id sb.device_id)
      | none ↦ elim (Assoc.get names sb.name) [
        | some owner ↦ err (reused_name sb.name owner sb.device_id)
        | none ↦ ok tt
      ]
    ]

unfoldable pub load_bulbs :
    Map Bool → Map Str → Map Bulb → List StoredBulb → Result LoadError (Map Bulb)
unfolding check_stored Assoc.put
load_bulbs seen names bulbs [] = ok bulbs
load_bulbs seen names bulbs (sb ∷ rest) = elim (check_stored seen names sb) [
  | err e ↦ err e
  | ok u ↦
      load_bulbs (Assoc.put seen sb.device_id true) (Assoc.put names sb.name sb.device_id)
        (Assoc.put bulbs sb.device_id (loaded sb)) rest
]

unfoldable pub load : OnDisk → Result LoadError Registry
unfolding load_bulbs
load missing = ok new
load unreadable = err reading_registry
load corrupt = err registry_corrupt
load (holds f) =
    if not (f.version == file_version)
    then err (wrong_version f.version)
    else elim (load_bulbs [] [] [] f.bulbs) [
      | err e ↦ err e
      | ok bulbs ↦ ok (record { bulbs = bulbs; saves = 0 })
    ]

abbrev pub to_stored : Bulb → StoredBulb
to_stored b = record {
  device_id = b.device_id;
  name = b.name;
  first_seen = b.first_seen;
  last_seen = b.last_seen;
  capabilities = b.capabilities;
  firmware = b.firmware_version;
  state = b.state;
}

abbrev pub store_each : List Bulb → List StoredBulb
store_each [] = []
store_each (b ∷ bs) = to_stored b ∷ store_each bs

-- What `save` writes: the registry's snapshot, which is `list`.
unfoldable pub file_of : Registry → File
unfolding list
file_of r = record { version = file_version; bulbs = store_each (list r) }
