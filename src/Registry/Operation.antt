-- ===== src/Registry/Operation.antt =====
-- The operations that change the registry, as data, so that a history is a list of them.
use haigosmart.Base.{ℕ, ◌≡◌, List, [], ◌∷◌, true, Option, none, some}
use haigosmart.Base.Text.{Str}
use haigosmart.Base.Assoc
use haigosmart.Bulb.{Bulb, Status, disconnected, discovered, connected, LightState, Capabilities}
use haigosmart.Registry.{
  Registry, find, name_owner, upsert, declare, rename, set_state, set_desired, touch, set_firmware,
  set_capabilities, set_driver, disconnect,
}

pub data Operation : Type 0 where
  op_upsert : Str → Str → Capabilities → ℕ → Operation
  op_declare : Str → Str → Operation
  op_rename : Str → Str → Operation
  op_set_state : Str → LightState → ℕ → Operation
  op_set_desired : Str → LightState → Operation
  op_touch : Str → ℕ → Operation
  op_set_firmware : Str → Str → Operation
  op_set_capabilities : Str → Capabilities → Operation
  op_set_driver : Str → ℕ → Operation
  op_disconnect : Str → Option ℕ → Operation

unfoldable pub run : Registry → Operation → Registry
run r (op_upsert id addr caps now) = (upsert r id addr caps now).0
run r (op_declare id name) = (declare r id name).0
run r (op_rename id name) = (rename r id name).0
run r (op_set_state id state now) = (set_state r id state now).0
run r (op_set_desired id want) = set_desired r id want
run r (op_touch id now) = touch r id now
run r (op_set_firmware id version) = set_firmware r id version
run r (op_set_capabilities id caps) = (set_capabilities r id caps).0
run r (op_set_driver id d) = (set_driver r id d).0
run r (op_disconnect id who) = disconnect r id who

unfoldable pub run_all : Registry → List Operation → Registry
unfolding run
run_all r [] = r
run_all r (o ∷ os) = run_all (run r o) os

-- The device id that an operation is about.
abbrev pub subject : Operation → Str
subject (op_upsert id addr caps now) = id
subject (op_declare id name) = id
subject (op_rename id name) = id
subject (op_set_state id state now) = id
subject (op_set_desired id want) = id
subject (op_touch id now) = id
subject (op_set_firmware id version) = id
subject (op_set_capabilities id caps) = id
subject (op_set_driver id d) = id
subject (op_disconnect id who) = id

-- The name that an operation gives, if it gives one.
abbrev pub given_name : Operation → Option Str
given_name (op_declare id name) = some name
given_name (op_rename id name) = some name
given_name o = none

-- The lifecycle of a bulb's status, `none` before the bulb has an entry. Only naming a discovered bulb,
-- at the terminal or in the configuration, takes it out of `discovered`.
pub data Moves : Operation → Option Status → Status → Type 0 where
  stays : (o : Operation) (s : Status) → Moves o (some s) s
  appears :
      (id addr : Str) (caps : Capabilities) (now : ℕ)
      → Moves (op_upsert id addr caps now) none discovered
  declared : (id name : Str) → Moves (op_declare id name) none disconnected
  reconnects :
      (id addr : Str) (caps : Capabilities) (now : ℕ)
      → Moves (op_upsert id addr caps now) (some disconnected) connected
  attaches : (id : Str) (d : ℕ) → Moves (op_set_driver id d) (some disconnected) connected
  named : (id name : Str) → Moves (op_rename id name) (some discovered) connected
  configured : (id name : Str) → Moves (op_declare id name) (some discovered) connected
  drops : (id : Str) (who : Option ℕ) → Moves (op_disconnect id who) (some connected) disconnected

abbrev pub status_of : Option Bulb → Option Status
status_of none = none
status_of (some b) = some b.status

abbrev pub id_of : Str → Option Bulb → Str
id_of id none = id
id_of id (some b) = b.device_id

-- A new bulb is named after its id until it is given a name.
abbrev pub name_of : Str → Option Bulb → Str
name_of id none = id
name_of id (some b) = b.name

abbrev pub given_or : Option Str → Str → Str
given_or none name = name
given_or (some given) name = given

abbrev pub KeepsKnown : Option Bulb → Bulb → Type 0
KeepsKnown none b = Unit
KeepsKnown (some a) b = a.capabilities.known ≡ true → b.capabilities.known ≡ true

abbrev pub IsFree : Registry → Str → Option Str → Type 0
IsFree r id none = Unit
IsFree r id (some name) = name_owner r.bulbs id name ≡ none

-- How the entry b that an operation writes comes from the old one.
pub record Change (r : Registry) (o : Operation) (old : Option Bulb) (b : Bulb) : Type 0 where
  pub same_id : b.device_id ≡ id_of (subject o) old
  pub name : b.name ≡ given_or (given_name o) (name_of (subject o) old)
  pub free : IsFree r (subject o) (given_name o)
  pub status : Moves o (status_of old) b.status
  pub known : KeepsKnown old b

-- What an operation can do to the map: nothing, or write one entry under its subject.
pub data Effect (r : Registry) (o : Operation) (r' : Registry) : Type 0 where
  unchanged : r'.bulbs ≡ r.bulbs → Effect r o r'
  written :
      (b : Bulb)
      → Change r o (find r (subject o)) b
      → r'.bulbs ≡ Assoc.put r.bulbs (subject o) b
      → Effect r o r'
