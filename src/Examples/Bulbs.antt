-- ===== src/Examples/Bulbs.antt =====
-- A registry with one bulb, and what happens to it.
use haigosmart.Base.{◌≡◌, refl, sym, ◌∙◌, inl, [], ◌∷◌, some, arith}
use haigosmart.Base.Text.{Str, codes, str_eq, str_eq_iff}
use haigosmart.Base.Assoc
use haigosmart.Bulb.{Bulb, discovered, zero_capabilities}
use haigosmart.Registry.{Registry, find, first_entry}
use haigosmart.Registry.Operation.{op_rename, op_touch, run, run_all}
use haigosmart.Registry.Invariant.{IsValid, run_lifecycle, Kept, run_all-discovered}
use haigosmart.Registry.Names.{NamesUnique, run-NamesUnique}

abbrev pub lamp : Bulb
lamp = first_entry (codes "A1") (codes "10.0.0.2") zero_capabilities 5

abbrev pub one_bulb : Registry
one_bulb = record { bulbs = (codes "A1", lamp) ∷ []; saves = 1 }

found : find one_bulb (codes "A1") ≡ some lamp
unfolding Assoc.get str_eq
found = refl

pub only : (k : Str) (b : Bulb) → find one_bulb k ≡ some b → (b ≡ lamp) × (k ≡ codes "A1")
unfolding Assoc.get
only k b h = ground (arith, str_eq_iff (codes "A1") k)

pub one_bulb-IsValid : IsValid one_bulb
one_bulb-IsValid = record {
  distinct = (tt, tt);
  keyed = λ k b f. let (same, key) = only k b f in rw (same, key) refl;
}

pub one_bulb-NamesUnique : NamesUnique one_bulb
one_bulb-NamesUnique = record { one_owner = λ j k a c f g p. (only j a f).1 ∙ sym (only k c g).1 }

run_lifecycle_example : Kept one_bulb (op_rename (codes "A1") (codes "desk")) (codes "A1") lamp
run_lifecycle_example =
    run_lifecycle one_bulb (op_rename (codes "A1") (codes "desk")) (codes "A1") lamp found

run_all-discovered_example :
    (b : Bulb) × (find (run_all one_bulb (op_touch (codes "A1") 9 ∷ [])) (codes "A1") ≡ some b)
    × (b.status ≡ discovered)
run_all-discovered_example =
    run_all-discovered (op_touch (codes "A1") 9 ∷ []) one_bulb (codes "A1") lamp found refl
      (inl refl, tt)

run-NamesUnique_example : NamesUnique (run one_bulb (op_rename (codes "A1") (codes "desk")))
run-NamesUnique_example =
    run-NamesUnique one_bulb (op_rename (codes "A1") (codes "desk")) one_bulb-NamesUnique tt
