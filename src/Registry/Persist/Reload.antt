-- ===== src/Registry/Persist/Reload.antt =====
-- internal/registry/persist.go: reading back bulbs that were stored, none of which share an id or a
-- name.
use haigosmart.Base.{
  ◌≡◌, refl, ◌∙◌, List, [], ◌∷◌, Bool, true, false, Option, none, some, arith, if◌then◌else◌, inl,
  inr, Bool-cases, All, ok,
}
use haigosmart.Base.Text.{Str, str_eq, str_eq_iff, str_eq-false_sym, is_empty}
use haigosmart.Base.Assoc
use haigosmart.Base.Assoc.{Map, Distinct, Fresh, get-put, get-Fresh, Distinct-put}
use haigosmart.Bulb.{Bulb, disconnected}
use haigosmart.Registry.Persist.{loaded, check_stored, load_bulbs, to_stored, store_each}

-- The bulb with a device id, in a list of bulbs.
unfoldable pub find_id : List Bulb → Str → Option Bulb
find_id [] k = none
find_id (b ∷ bs) k = if str_eq b.device_id k then some b else find_id bs k

-- Two bulbs that share neither id nor name.
abbrev pub Differ : Bulb → Bulb → Type 0
Differ a b = (str_eq a.device_id b.device_id ≡ false) × (str_eq a.name b.name ≡ false)

abbrev pub Storable : List Bulb → Type 0
Storable [] = Unit
Storable (b ∷ bs) = (is_empty b.device_id ≡ false) × All (Differ b) bs × Storable bs

-- A bulb after a restart: it is disconnected and wants nothing, and has neither address nor driver; all
-- else is as before.
abbrev pub restarted : Bulb → Bulb
restarted b = record b { status = disconnected; desired = none; remote_addr = []; driver = none }

abbrev pub reloaded : Option Bulb → Option Bulb
reloaded none = none
reloaded (some b) = some (restarted b)

-- Neither the id nor the name of b has been read.
abbrev pub IsUnread : Map Bool → Map Str → Bulb → Type 0
IsUnread seen names b = (Assoc.get seen b.device_id ≡ none) × (Assoc.get names b.name ≡ none)

still-IsUnread :
    (seen : Map Bool) (names : Map Str) (b : Bulb) (bs : List Bulb)
    → All (Differ b) bs
    → All (IsUnread seen names) bs
    → All (IsUnread (Assoc.put seen b.device_id true) (Assoc.put names b.name b.device_id)) bs
still-IsUnread seen names b [] d u = tt
still-IsUnread seen names b (c ∷ cs) (d, ds) (u, us) =
    let ids = get-put seen b.device_id c.device_id true in
    let owners = get-put names b.name c.name b.device_id in
    (ground arith, still-IsUnread seen names b cs ds us)

absent : (b : Bulb) (bs : List Bulb) → All (Differ b) bs → find_id bs b.device_id ≡ none
unfolding find_id
absent b [] d = refl
absent b (c ∷ cs) ((id, name), ds) =
    rw (str_eq-false_sym b.device_id c.device_id id) (absent b cs ds)

check_stored-ok :
    (seen : Map Bool) (names : Map Str) (b : Bulb)
    → is_empty b.device_id ≡ false
    → IsUnread seen names b
    → check_stored seen names (to_stored b) ≡ ok tt
unfolding check_stored
check_stored-ok seen names b full (id, name) = rw (check_stored, full, id, name) refl

-- The first that is there.
abbrev pub or_else : Option Bulb → Option Bulb → Option Bulb
or_else none d = d
or_else (some b) d = some b

-- What the registry's map has after the bulbs bs were read into m.
abbrev pub HasRead : List Bulb → Map Bulb → Map Bulb → Type 0
HasRead bs m m' = (k : Str) → Assoc.get m' k ≡ or_else (reloaded (find_id bs k)) (Assoc.get m k)

HasRead-cons :
    (b : Bulb) (bs : List Bulb) (m m' : Map Bulb)
    → All (Differ b) bs
    → HasRead bs (Assoc.put m b.device_id (loaded (to_stored b))) m'
    → HasRead (b ∷ bs) m m'
unfolding find_id
HasRead-cons b bs m m' differ r k = elim (Bool-cases (str_eq b.device_id k)) [
  | inl same ↦
      let id : b.device_id ≡ k = (str_eq_iff b.device_id k).0 same in
      let gone : find_id bs k ≡ none = rw (← id) (absent b bs differ) in
      r k ∙ rw (gone, get-put, same) refl
  | inr other ↦ r k ∙ rw (get-put, other) refl
]

-- Storable bulbs are all read, and the map has each of them, besides what it had.
pub load_bulbs-Storable :
    (bs : List Bulb) (seen : Map Bool) (names : Map Str) (m : Map Bulb)
    → Storable bs
    → All (IsUnread seen names) bs
    → (m' : Map Bulb) × (load_bulbs seen names m (store_each bs) ≡ ok m') × HasRead bs m m'
unfolding load_bulbs find_id
load_bulbs-Storable [] seen names m s u = (m, refl, λ k. refl)
load_bulbs-Storable (b ∷ bs) seen names m (full, differ, s) (u, us) =
    let (m', read, r) =
      load_bulbs-Storable bs (Assoc.put seen b.device_id true) (Assoc.put names b.name b.device_id)
        (Assoc.put m b.device_id (loaded (to_stored b))) s
        (still-IsUnread seen names b bs differ us) in
    (m', rw (load_bulbs, check_stored-ok seen names b full u) read, HasRead-cons b bs m m' differ r)

pub unread : (bs : List Bulb) → All (IsUnread [] []) bs
unfolding Assoc.get
unread [] = tt
unread (b ∷ bs) = ((refl, refl), unread bs)
