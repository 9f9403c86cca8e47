-- ===== src/Lamps/Unique.antt =====
-- What the configured lamps have in common.
use haigosmart.Base.{
  ℕ, ◌+◌, ◌≡◌, refl, sym, ap, suc, ◌⊎◌, inl, inr, List, [], ◌∷◌, true, false, none, ok, All, arith,
  Option-cases, Bool-cases, >>=-eq-ok, length,
}
use haigosmart.Base.Text.{Str, str_eq, is_empty, trim_space, split}
use haigosmart.Base.Assoc
use haigosmart.Base.Assoc.{Map, get-put}
use haigosmart.Control.{is_verb}
use haigosmart.Lamps.{Lamp, parse_entry, check_entry, parse_entries, parse_lamps}

-- Neither the id nor the name of the lamp stands in what came before.
abbrev pub IsNew : Map ℕ → Map Str → Lamp → Type 0
IsNew by_id by_name l = (Assoc.get by_id l.device_id ≡ none) × (Assoc.get by_name l.name ≡ none)

abbrev pub IsUsable : Lamp → Type 0
IsUsable l = (is_empty l.device_id ≡ false) × (is_empty l.name ≡ false) × (is_verb l.name ≡ false)

abbrev pub Differs : Lamp → Lamp → Type 0
Differs l k = (str_eq l.device_id k.device_id ≡ false) × (str_eq l.name k.name ≡ false)

-- Usable lamps, each of which differs from every later one in id and in name.
abbrev pub IsUnique : List Lamp → Type 0
IsUnique [] = Unit
IsUnique (l ∷ ls) = IsUsable l × All (Differs l) ls × IsUnique ls

parse_entry-usable :
    (pos : ℕ) (entry : Str) (l : Lamp)
    → parse_entry pos entry ≡ ok l
    → (is_empty l.device_id ≡ false) × (is_empty l.name ≡ false)
unfolding parse_entry
parse_entry-usable pos entry l h = ground arith

check_entry-IsNew :
    (by_id : Map ℕ) (by_name : Map Str) (pos : ℕ) (l : Lamp) (u : Unit)
    → check_entry by_id by_name pos l ≡ ok u
    → IsNew by_id by_name l × (is_verb l.name ≡ false)
unfolding check_entry
check_entry-IsNew by_id by_name pos l u h = elim (Option-cases (Assoc.get by_id l.device_id)) [
  | inr (first, p) ↦ absurd (ground arith)
  | inl p ↦ elim (Option-cases (Assoc.get by_name l.name)) [
    | inr (owner, q) ↦ absurd (ground arith)
    | inl q ↦
        ((p, q), elim (Bool-cases (is_verb l.name)) [ inl v ↦ absurd (ground arith) | inr v ↦ v ])
  ]
]

-- What is new after l was recorded is new before, and differs from l.
recorded :
    (by_id : Map ℕ) (by_name : Map Str) (pos : ℕ) (l : Lamp) (ls : List Lamp)
    → All (IsNew (Assoc.put by_id l.device_id pos) (Assoc.put by_name l.name l.device_id)) ls
    → All (Differs l) ls × All (IsNew by_id by_name) ls
recorded by_id by_name pos l [] a = (tt, tt)
recorded by_id by_name pos l (k ∷ ls) (n, a) =
    let (d, b) = recorded by_id by_name pos l ls a in
    let ids = get-put by_id l.device_id k.device_id pos in
    let names = get-put by_name l.name k.name l.device_id in
    let here : Differs l k × IsNew by_id by_name k = ground arith in ((here.0, d), (here.1, b))

-- The lamp at the head of the list, with what the loop has checked of it.
head-IsUnique :
    (by_id : Map ℕ) (by_name : Map Str) (pos : ℕ) (e : Str) (l : Lamp) (u : Unit) (rest : List Lamp)
    → parse_entry pos e ≡ ok l
    → check_entry by_id by_name pos l ≡ ok u
    → IsUnique rest
    → All (IsNew (Assoc.put by_id l.device_id pos) (Assoc.put by_name l.name l.device_id)) rest
    → IsUnique (l ∷ rest) × All (IsNew by_id by_name) (l ∷ rest)
head-IsUnique by_id by_name pos e l u rest p q unique fresh =
    let (full, named) = parse_entry-usable pos e l p in
    let (new, free) = check_entry-IsNew by_id by_name pos l u q in
    let (differ, older) = recorded by_id by_name pos l rest fresh in
    (((full, named, free), differ, unique), (new, older))

parse_entries-IsUnique :
    (es : List Str) (by_id : Map ℕ) (by_name : Map Str) (pos : ℕ) (ls : List Lamp)
    → parse_entries by_id by_name pos es ≡ ok ls
    → IsUnique ls × All (IsNew by_id by_name) ls × (length ls ≡ length es)
unfolding parse_entries
parse_entries-IsUnique [] by_id by_name pos [] h = (tt, tt, refl)
parse_entries-IsUnique [] by_id by_name pos (l ∷ ls) h = cc
parse_entries-IsUnique (e ∷ es) by_id by_name pos ls h =
    let (l, p, h1) = >>=-eq-ok (parse_entry pos e) _ h in
    let (u, q, h2) = >>=-eq-ok (check_entry by_id by_name pos l) _ h1 in
    let (rest, s, h3) =
      >>=-eq-ok
        (parse_entries (Assoc.put by_id l.device_id pos) (Assoc.put by_name l.name l.device_id)
          (pos + 1) es)
        _ h2 in
    let (unique, fresh, count) =
      parse_entries-IsUnique es (Assoc.put by_id l.device_id pos)
        (Assoc.put by_name l.name l.device_id) (pos + 1) rest s in
    let (whole, news) = head-IsUnique by_id by_name pos e l u rest p q unique fresh in
    let same : l ∷ rest ≡ ls = ground arith in rw (sym same) (whole, news, ap suc count)

-- A configuration that is accepted loses no entry: it has a lamp for each, every lamp has an id and a
-- name that is no command, and no two share an id or a name.
pub parse_lamps-IsUnique :
    (s : Str) (ls : List Lamp)
    → parse_lamps s ≡ ok ls
    → IsUnique ls × ((is_empty (trim_space s) ≡ true) ⊎ (length ls ≡ length (split b',' s)))
unfolding parse_lamps
parse_lamps-IsUnique s ls h = elim (Bool-cases (is_empty (trim_space s))) [
  | inl blank ↦ (let same : [] ≡ ls = ground arith in rw (sym same) tt, inl blank)
  | inr filled ↦
      let (unique, fresh, count) =
        parse_entries-IsUnique (split b',' s) [] [] 1 ls (ground arith) in
      (unique, inr count)
]
