-- ===== src/Lamps.antt =====
-- internal/config/lamps.go, and declareLamps of cmd/haigosmartd/main.go: the configured lamps.
pub mod Unique
pub mod Declared
use haigosmart.Base.{
  ℕ, ◌+◌, List, [], ◌∷◌, ◌++◌, Bool, true, false, Option, none, some, if◌then◌else◌, Result, ok,
  err, ◌>>=◌,
}
use haigosmart.Base.Text.{Str, str_eq, is_empty, trim_space, split, cut}
use haigosmart.Base.Assoc
use haigosmart.Base.Assoc.{Map}
use haigosmart.Registry
use haigosmart.Registry.{Registry}
use haigosmart.Control.{is_verb}

pub record Lamp : Type 0 where
  pub device_id : Str
  pub name : Str

pub data Error : Type 0 where
  entry_empty entry_not_pair empty_device_id : ℕ → Error
  empty_name : ℕ → Str → Error
  repeated_device_id : Str → ℕ → ℕ → Error
  reused_name : Str → Str → Str → Error
  name_is_command : Str → Error

-- The id and the name of the entry at a position, both trimmed.
unfoldable pub parse_entry : ℕ → Str → Result Error Lamp
unfolding trim_space is_empty cut
parse_entry pos entry =
    let trimmed = trim_space entry in
    if is_empty trimmed then err (entry_empty pos) else elim (cut b'=' trimmed) [
      | none ↦ err (entry_not_pair pos)
      | some (id, name) ↦
          if is_empty (trim_space id)
          then err (empty_device_id pos)
          else if is_empty (trim_space name)
          then err (empty_name pos (trim_space id))
          else ok (record { device_id = trim_space id; name = trim_space name })
    ]

-- The checks of an entry against those before it.
unfoldable pub check_entry : Map ℕ → Map Str → ℕ → Lamp → Result Error (Unit {0})
unfolding Assoc.get is_verb
check_entry by_id by_name pos l = elim (Assoc.get by_id l.device_id) [
  | some first ↦ err (repeated_device_id l.device_id first pos)
  | none ↦ elim (Assoc.get by_name l.name) [
    | some owner ↦ err (reused_name l.name owner l.device_id)
    | none ↦ if is_verb l.name then err (name_is_command l.name) else ok tt
  ]
]

-- The loop, from the entry at a position on.
unfoldable pub parse_entries : Map ℕ → Map Str → ℕ → List Str → Result Error (List Lamp)
unfolding parse_entry check_entry Assoc.put
parse_entries by_id by_name pos [] = ok []
parse_entries by_id by_name pos (entry ∷ rest) = parse_entry pos entry >>= (λ l.
    check_entry by_id by_name pos l >>= (λ u.
      parse_entries (Assoc.put by_id l.device_id pos) (Assoc.put by_name l.name l.device_id)
        (pos + 1) rest
      >>= (λ ls. ok (l ∷ ls))))

unfoldable pub parse_lamps : Str → Result Error (List Lamp)
unfolding trim_space is_empty split parse_entries
parse_lamps s = if is_empty (trim_space s) then ok [] else parse_entries [] [] 1 (split b',' s)

-- Each configured lamp is declared; the first error ends the start of the server.
unfoldable pub declare_lamps : Registry → List Lamp → Registry × Option Registry.Error
unfolding Registry.declare
declare_lamps r [] = (r, none)
declare_lamps r (l ∷ ls) =
    let declared = Registry.declare r l.device_id l.name in
    let rest = declare_lamps declared.0 ls in
    elim declared.1 [ err e ↦ (declared.0, some e) | ok flags ↦ rest ]

-- The lamps of the registry that are not configured, each of which is warned of.
abbrev pub is_configured : List Lamp → Str → Bool
is_configured [] id = false
is_configured (l ∷ ls) id = if str_eq l.device_id id then true else is_configured ls id
