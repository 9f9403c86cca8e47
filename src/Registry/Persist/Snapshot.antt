-- ===== src/Registry/Persist/Snapshot.antt =====
-- internal/registry/persist.go: what a saved registry is after a restart.
use haigosmart.Base.{
  ◌≡◌, refl, ap, ◌∙◌, List, [], ◌∷◌, false, Option, none, some, arith, inl, inr, Bool-cases, All,
  ok,
}
use haigosmart.Base.Text.{Str, str_eq, str_eq_iff, str_eq_refl, str_eq-false_sym, is_empty}
use haigosmart.Base.Assoc
use haigosmart.Base.Assoc.{Map, Distinct, Fresh, get-Fresh}
use haigosmart.Bulb.{Bulb}
use haigosmart.Registry.{Registry, find}
use haigosmart.Registry.Resolve.{list, sort_by_name, insert_by_name, str_lt}
use haigosmart.Registry.Invariant.{IsValid}
use haigosmart.Registry.Names.{NamesUnique}
use haigosmart.Registry.Persist.{holds, load, file_of}
use haigosmart.Registry.Persist.Reload.{
  find_id, Differ, Storable, reloaded, or_else, unread, load_bulbs-Storable,
}

-- The order of the names leaves the bulbs as they are.
All-insert_by_name :
    (P : Bulb → Type 0) (b : Bulb) (bs : List Bulb) → P b → All P bs → All P (insert_by_name b bs)
unfolding insert_by_name
All-insert_by_name P b [] h hs = (h, tt)
All-insert_by_name P b (c ∷ cs) h (g, gs) = elim (Bool-cases (str_lt c.name b.name)) [
  | inl before ↦ rw before (g, All-insert_by_name P b cs h gs)
  | inr not_before ↦ rw not_before (h, (g, gs))
]

Differ-sym : (a b : Bulb) → Differ a b → Differ b a
Differ-sym a b (id, name) =
    (str_eq-false_sym a.device_id b.device_id id, str_eq-false_sym a.name b.name name)

insert_by_name-Storable :
    (b : Bulb) (bs : List Bulb)
    → is_empty b.device_id ≡ false
    → All (Differ b) bs
    → Storable bs
    → Storable (insert_by_name b bs)
unfolding insert_by_name
insert_by_name-Storable b [] full d s = (full, tt, tt)
insert_by_name-Storable b (c ∷ cs) full (d, ds) (g, e, s) =
    elim (Bool-cases (str_lt c.name b.name)) [
      | inl before ↦ rw before (
        g,
        All-insert_by_name (Differ c) b cs (Differ-sym b c d) e,
        insert_by_name-Storable b cs full ds s,
      )
      | inr not_before ↦ rw not_before (full, (d, ds), (g, e, s))
    ]

find_id-insert_by_name :
    (b : Bulb) (bs : List Bulb) (k : Str)
    → All (Differ b) bs
    → find_id (insert_by_name b bs) k ≡ find_id (b ∷ bs) k
unfolding find_id insert_by_name
find_id-insert_by_name b [] k d = refl
find_id-insert_by_name b (c ∷ cs) k ((id, name), ds) = ground (
  arith,
  str_eq_iff b.device_id k,
  str_eq_iff c.device_id k,
  str_eq_iff b.device_id c.device_id,
  find_id-insert_by_name b cs k ds,
)

-- What a valid registry with unique names and no empty id has in its map.
record IsSound (m : Map Bulb) : Type 0 where
  distinct : Distinct m
  keyed : (k : Str) (b : Bulb) → Assoc.get m k ≡ some b → b.device_id ≡ k
  one_owner :
      (j k : Str) (a b : Bulb)
      → Assoc.get m j ≡ some a
      → Assoc.get m k ≡ some b
      → a.name ≡ b.name
      → j ≡ k
  full : (k : Str) (b : Bulb) → Assoc.get m k ≡ some b → is_empty k ≡ false

get-tail :
    (j : Str) (b : Bulb) (m : Map Bulb) (k : Str) (c : Bulb)
    → Fresh j m
    → Assoc.get m k ≡ some c
    → (str_eq j k ≡ false) × (Assoc.get ((j, b) ∷ m) k ≡ some c)
unfolding Assoc.get
get-tail j b m k c fresh e = elim (Bool-cases (str_eq j k)) [
  | inl same ↦
      let id : j ≡ k = (str_eq_iff j k).0 same in
      let gone : Assoc.get m k ≡ none = rw (← id) (get-Fresh m j fresh) in cc
  | inr other ↦ (other, rw other e)
]

IsSound-tail : (j : Str) (b : Bulb) (m : Map Bulb) → IsSound ((j, b) ∷ m) → IsSound m
IsSound-tail j b m s =
    let up =
      λ (k : Str) (c : Bulb) (e : Assoc.get m k ≡ some c). (get-tail j b m k c s.distinct.0 e).1 in
    record {
      distinct = s.distinct.1;
      keyed = λ k c e. s.keyed k c (up k c e);
      one_owner = λ i k a c f e. s.one_owner i k a c (up i a f) (up k c e);
      full = λ k c e. s.full k c (up k c e);
    }

All-sort_by_name :
    (P : Bulb → Type 0) (m : Map Bulb)
    → Distinct m
    → ((k : Str) (c : Bulb) → Assoc.get m k ≡ some c → P c)
    → All P (sort_by_name m)
unfolding sort_by_name Assoc.get
All-sort_by_name P [] d h = tt
All-sort_by_name P ((j, b) ∷ m) (fresh, d) h =
    All-insert_by_name P b (sort_by_name m) (h j b (rw (str_eq_refl j) refl))
      (All-sort_by_name P m d (λ k c e. h k c (get-tail j b m k c fresh e).1))

head_differs :
    (j : Str) (b : Bulb) (m : Map Bulb)
    → IsSound ((j, b) ∷ m)
    → (k : Str) (c : Bulb) → Assoc.get m k ≡ some c
    → Differ b c
unfolding Assoc.get
head_differs j b m s k c e =
    let (other, up) = get-tail j b m k c s.distinct.0 e in
    let here : Assoc.get ((j, b) ∷ m) j ≡ some b = rw (str_eq_refl j) refl in
    (
      rw (s.keyed j b here, s.keyed k c up) other,
      elim (Bool-cases (str_eq b.name c.name)) [
        | inl same ↦
            let one : j ≡ k = s.one_owner j k b c here up ((str_eq_iff b.name c.name).0 same) in
            ground (arith, str_eq_iff j k)
        | inr differ ↦ differ
      ],
    )

-- The list of a sound map is storable and has the map's entries.
sort_by_name-Storable :
    (m : Map Bulb)
    → IsSound m
    → Storable (sort_by_name m) × ((k : Str) → find_id (sort_by_name m) k ≡ Assoc.get m k)
unfolding sort_by_name find_id Assoc.get
sort_by_name-Storable [] s = (tt, λ k. refl)
sort_by_name-Storable ((j, b) ∷ m) s =
    let (rest, same) = sort_by_name-Storable m (IsSound-tail j b m s) in
    let here : Assoc.get ((j, b) ∷ m) j ≡ some b = rw (str_eq_refl j) refl in
    let id : b.device_id ≡ j = s.keyed j b here in
    let differ = All-sort_by_name (Differ b) m s.distinct.1 (head_differs j b m s) in
    (
      insert_by_name-Storable b (sort_by_name m) (rw id (s.full j b here)) differ rest,
      λ k. find_id-insert_by_name b (sort_by_name m) k differ ∙ rw (id, same k) refl,
    )

or_else-none : (o : Option Bulb) → or_else o none ≡ o
or_else-none none = refl
or_else-none (some b) = refl

-- A registry that is saved and loaded again has the same bulbs, if it is valid, its names are unique
-- and no device id is empty: each is disconnected, wants nothing and has neither address nor driver,
-- and all else of it is as it was.
pub load-file_of :
    (r : Registry)
    → IsValid r
    → NamesUnique r
    → ((k : Str) (b : Bulb) → find r k ≡ some b → is_empty k ≡ false)
    → (r' : Registry) × (load (holds (file_of r)) ≡ ok r')
      × ((k : Str) → find r' k ≡ reloaded (find r k))
unfolding load file_of
load-file_of r v u full =
    let (s, same) =
      sort_by_name-Storable r.bulbs
        (record { distinct = v.distinct; keyed = v.keyed; one_owner = u.one_owner; full = full }) in
    let (m', read, has) = load_bulbs-Storable (list r) [] [] [] s (unread (list r)) in
    (
      record { bulbs = m'; saves = 0 },
      rw read refl,
      λ k.
          has k ∙ ap (λ o. or_else (reloaded o) none) (same k) ∙ or_else-none (reloaded (find r k)),
    )
