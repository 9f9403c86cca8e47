-- ===== src/Lamps/Declared.antt =====
-- cmd/haigosmartd/main.go: what declaring the configured lamps leaves in the registry.
use haigosmart.Base.{
  ◌≡◌, ◌≢◌, refl, sym, ap, ◌∙◌, ◌⊎◌, inl, inr, List, [], ◌∷◌, Bool, true, false, none, some, All,
  Option-cases, Bool-cases, Result-cases, ok, err,
}
use haigosmart.Base.Text.{
  Str, str_eq, str_eq_iff, str_eq_refl, str_eq-false_sym, is_empty, trim_space,
}
use haigosmart.Base.Assoc
use haigosmart.Base.Assoc.{get-put}
use haigosmart.Bulb.{Bulb, Status, discovered}
use haigosmart.Registry
use haigosmart.Registry.{Registry, find, declare, name_owner, declared_entry, adopt}
use haigosmart.Lamps.{Lamp, declare_lamps, is_configured}
use haigosmart.Lamps.Unique.{IsUnique, Differs}

-- A lamp that the registry holds under its configured name, and as one that was adopted.
abbrev pub Served : Registry → Lamp → Type 0
Served r l =
    (b : Bulb) × (find r l.device_id ≡ some b) × (b.name ≡ l.name) × (b.status ≢ discovered)

adopt-ne-discovered : (s : Status) → adopt s ≢ discovered
adopt-ne-discovered discovered same = cc
adopt-ne-discovered Status.disconnected same = cc
adopt-ne-discovered Status.connected same = cc

declare_own :
    (r : Registry) (id name : Str) (flags : Bool × Bool)
    → (declare r id name).1 ≡ ok flags
    → (b : Bulb) × (find (declare r id name).0 id ≡ some b)
      × (b.name ≡ name)
      × (b.status ≢ discovered)
unfolding declare
declare_own r id name flags done = elim (Bool-cases (is_empty (trim_space id))) [
  | inl e ↦
      let wrong : err Registry.empty_device_id ≡ ok flags = rw (declare, e) at done in absurd (cc)
  | inr e ↦ elim (Bool-cases (is_empty (trim_space name))) [
    | inl f ↦
        let wrong : err Registry.empty_name ≡ ok flags = rw (declare, e, f) at done in absurd (cc)
    | inr f ↦ elim (Option-cases (name_owner r.bulbs id name)) [
      | inr (owner, g) ↦
          let wrong : err (Registry.name_in_use name owner) ≡ ok flags =
            rw (declare, e, f, g) at done in
          absurd (cc)
      | inl g ↦ elim (Option-cases (find r id)) [
        | inl h ↦ (
          declared_entry id name,
          rw (declare, e, f, g, h)
              (get-put r.bulbs id id (declared_entry id name) ∙ rw (str_eq_refl id) refl),
          refl,
          λ same. cc,
        )
        | inr (b, h) ↦
            let b' : Bulb = record b { name = name; status = adopt b.status } in
            (
              b',
              rw (declare, e, f, g, h)
                  (elim (Bool-cases (str_eq b.name name)) [
                    | inl k ↦ rw k (get-put r.bulbs id id b' ∙ rw (str_eq_refl id) refl)
                    | inr k ↦ rw k (get-put r.bulbs id id b' ∙ rw (str_eq_refl id) refl)
                  ]),
              refl,
              adopt-ne-discovered b.status,
            )
      ]
    ]
  ]
]

declare_cases :
    (r : Registry) (id name : Str)
    → ((declare r id name).0 ≡ r)
      ⊎ ((b : Bulb) × ((declare r id name).0.bulbs ≡ Assoc.put r.bulbs id b))
unfolding declare
declare_cases r id name = elim (Bool-cases (is_empty (trim_space id))) [
  | inl e ↦ inl (rw (declare, e) refl)
  | inr e ↦ elim (Bool-cases (is_empty (trim_space name))) [
    | inl f ↦ inl (rw (declare, e, f) refl)
    | inr f ↦ elim (Option-cases (name_owner r.bulbs id name)) [
      | inr (owner, g) ↦ inl (rw (declare, e, f, g) refl)
      | inl g ↦ elim (Option-cases (find r id)) [
        | inl h ↦ inr (declared_entry id name, rw (declare, e, f, g, h) refl)
        | inr (b, h) ↦ inr (
          record b { name = name; status = adopt b.status },
          rw (declare, e, f, g, h)
              (elim (Bool-cases (str_eq b.name name)) [ inl k ↦ rw k refl | inr k ↦ rw k refl ]),
        )
      ]
    ]
  ]
]

declare_other :
    (r : Registry) (id name j : Str) → str_eq id j ≡ false → find (declare r id name).0 j ≡ find r j
declare_other r id name j differ = elim (declare_cases r id name) [
  | inl same ↦ ap (λ (q : Registry). find q j) same
  | inr (b, put) ↦
      ap (λ (m : Assoc.Map Bulb). Assoc.get m j) put ∙ (get-put r.bulbs id j b ∙ rw differ refl)
]

declare_lamps_other :
    (ls : List Lamp) (r r' : Registry) (j : Str)
    → All (λ (l : Lamp). str_eq l.device_id j ≡ false) ls
    → declare_lamps r ls ≡ (r', none)
    → find r' j ≡ find r j
unfolding declare_lamps
declare_lamps_other [] r r' j h done =
    let same : r ≡ r' = cc in ap (λ (q : Registry). find q j) (sym same)
declare_lamps_other (l ∷ ls) r r' j (h, hs) done =
    let first = declare r l.device_id l.name in
    elim (Result-cases first.1) [
      | inr (e, f) ↦
          let wrong : (first.0, some e) ≡ (r', none) = rw (declare_lamps, f) at done in absurd (cc)
      | inl (flags, f) ↦
          let rest : declare_lamps first.0 ls ≡ (r', none) = rw (declare_lamps, f) at done in
          declare_lamps_other ls first.0 r' j hs rest ∙ declare_other r l.device_id l.name j h
    ]

Differs-ids :
    (l : Lamp) (ls : List Lamp)
    → All (Differs l) ls
    → All (λ (k : Lamp). str_eq k.device_id l.device_id ≡ false) ls
Differs-ids l [] h = tt
Differs-ids l (k ∷ ks) (h, hs) = (str_eq-false_sym l.device_id k.device_id h.0, Differs-ids l ks hs)

-- Where the configured lamps, which differ in their ids, are declared without an error, the registry
-- holds each of them, under its configured name and as adopted.
pub declare_lamps-Served :
    (ls : List Lamp) (r r' : Registry)
    → IsUnique ls
    → declare_lamps r ls ≡ (r', none)
    → All (Served r') ls
unfolding declare_lamps
declare_lamps-Served [] r r' u done = tt
declare_lamps-Served (l ∷ ls) r r' (usable, differs, u) done =
    let first = declare r l.device_id l.name in
    elim (Result-cases first.1) [
      | inr (e, f) ↦
          let wrong : (first.0, some e) ≡ (r', none) = rw (declare_lamps, f) at done in absurd (cc)
      | inl (flags, f) ↦
          let rest : declare_lamps first.0 ls ≡ (r', none) = rw (declare_lamps, f) at done in
          let (b, found, name, adopted) = declare_own r l.device_id l.name flags f in
          let still =
            declare_lamps_other ls first.0 r' l.device_id (Differs-ids l ls differs) rest in
          ((b, still ∙ found, name, adopted), declare_lamps-Served ls first.0 r' u rest)
    ]

pub is_configured-Served :
    (ls : List Lamp) (r : Registry) (id : Str)
    → All (Served r) ls
    → is_configured ls id ≡ true
    → (b : Bulb) × (find r id ≡ some b) × (b.status ≢ discovered)
is_configured-Served [] r id h yes_listed = absurd (cc)
is_configured-Served (l ∷ ls) r id ((b, found, name, adopted), hs) listed =
    elim (Bool-cases (str_eq l.device_id id)) [
      | inl e ↦ (b, ap (find r) (sym ((str_eq_iff l.device_id id).0 e)) ∙ found, adopted)
      | inr e ↦ is_configured-Served ls r id hs (rw e at listed)
    ]
