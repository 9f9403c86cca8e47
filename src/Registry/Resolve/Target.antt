-- ===== src/Registry/Resolve/Target.antt =====
-- Which bulb a target stands for.
use haigosmart.Base.{
  ◌≡◌, ◌≢◌, refl, sym, ap, ◌∙◌, List, [], ◌∷◌, true, false, none, some, arith, inl, inr, Bool-cases,
  Option-cases, Result, ok,
}
use haigosmart.Base.Text.{Str, str_eq, str_eq_iff, str_eq_refl, is_empty}
use haigosmart.Base.Assoc
use haigosmart.Base.Assoc.{Map, Distinct, Fresh, get-Fresh}
use haigosmart.Bulb.{Bulb}
use haigosmart.Registry.{Registry, Error, find}
use haigosmart.Registry.Invariant.{IsValid}
use haigosmart.Registry.Names.{NamesUnique}
use haigosmart.Registry.Resolve.{by_name, by_prefix, matches, resolve, by_count}

-- A bulb that `by_name` finds is in the map and has the name; it finds none only if none has.
by_name_found :
    (m : Map Bulb) (target : Str) (b : Bulb)
    → Distinct m
    → by_name m target ≡ some b
    → (b.name ≡ target) × ((k : Str) × (Assoc.get m k ≡ some b))
unfolding by_name Assoc.get
by_name_found [] target b d e = cc
by_name_found ((j, a) ∷ m) target b (f, d) e = elim (Bool-cases (str_eq a.name target)) [
  | inl hit ↦ (ground (arith, str_eq_iff a.name target), (j, rw (str_eq_refl j) (ground arith)))
  | inr miss ↦
      let (n, (k, g)) = by_name_found m target b d (rw miss at e) in
      (n, (k, ground (arith, g, str_eq_iff j k, get-Fresh m j f)))
]

by_name-none :
    (m : Map Bulb) (target k : Str) (b : Bulb)
    → by_name m target ≡ none
    → Assoc.get m k ≡ some b
    → b.name ≢ target
unfolding by_name Assoc.get
by_name-none [] target k b e f p = cc
by_name-none ((j, a) ∷ m) target k b e f p =
    ground (arith, str_eq_iff a.name target, by_name-none m target k b)

by_prefix_none :
    (m : Map Bulb) (target k : Str) (b : Bulb)
    → by_prefix m target ≡ []
    → Assoc.get m k ≡ some b
    → matches target b ≡ false
unfolding by_prefix Assoc.get
by_prefix_none [] target k b e f = cc
by_prefix_none ((j, a) ∷ m) target k b e f = elim (Bool-cases (matches target a)) [
  | inl hit ↦ cc (rw hit at e)
  | inr miss ↦ elim (Bool-cases (str_eq j k)) [
    | inl same ↦ cc (rw same at f)
    | inr other ↦ by_prefix_none m target k b (rw miss at e) (rw other at f)
  ]
]

by_prefix_single :
    (m : Map Bulb) (target k : Str) (b c : Bulb)
    → by_prefix m target ≡ c ∷ []
    → Assoc.get m k ≡ some b
    → matches target b ≡ true
    → b ≡ c
unfolding by_prefix Assoc.get
by_prefix_single [] target k b c e f p = cc
by_prefix_single ((j, a) ∷ m) target k b c e f p = elim (Bool-cases (matches target a)) [
  | inl hit ↦
      let e' : a ∷ by_prefix m target ≡ c ∷ [] = rw hit at e in
      elim (Bool-cases (str_eq j k)) [
        | inl same ↦ let f' : some a ≡ some b = rw same at f in cc
        | inr other ↦
            let q : by_prefix m target ≡ [] = cc in
            cc (by_prefix_none m target k b q (rw other at f))
      ]
  | inr miss ↦ elim (Bool-cases (str_eq j k)) [
    | inl same ↦ let f' : some a ≡ some b = rw same at f in cc
    | inr other ↦ by_prefix_single m target k b c (rw miss at e) (rw other at f) p
  ]
]

by_prefix_head :
    (m : Map Bulb) (target : Str) (c : Bulb) (cs : List Bulb)
    → Distinct m
    → by_prefix m target ≡ c ∷ cs
    → (matches target c ≡ true) × ((k : Str) × (Assoc.get m k ≡ some c))
unfolding by_prefix Assoc.get
by_prefix_head [] target c cs d e = cc
by_prefix_head ((j, a) ∷ m) target c cs (f, d) e = elim (Bool-cases (matches target a)) [
  | inl hit ↦
      let e' : a ∷ by_prefix m target ≡ c ∷ cs = rw hit at e in
      let q : a ≡ c = cc in (rw (← q) hit, (j, rw (str_eq_refl j) (ap some q)))
  | inr miss ↦
      let (n, (k, g)) = by_prefix_head m target c cs d (rw miss at e) in
      (n, (k, ground (arith, g, str_eq_iff j k, get-Fresh m j f)))
]

-- No bulb has the name.
abbrev pub NotAName : Registry → Str → Type 0
NotAName r target = (k : Str) (b : Bulb) → find r k ≡ some b → b.name ≢ target

-- The three ways in which a target can stand for a bulb, in their order of precedence: its exact name,
-- its exact device id, or a prefix of one of these that fits no other bulb.
pub data Denotes (r : Registry) (target : Str) (b : Bulb) : Type 0 where
  exact_name : b.name ≡ target → Denotes r target b
  exact_id : NotAName r target → b.device_id ≡ target → Denotes r target b
  only_prefix :
      NotAName r target
      → find r target ≡ none
      → matches target b ≡ true
      → ((k : Str) (c : Bulb) → find r k ≡ some c → matches target c ≡ true → c ≡ b)
      → Denotes r target b

ok_some : (a b : Bulb) → ◌≡◌ {A = Result Error Bulb} (ok a) (ok b) → some a ≡ some b
ok_some a b q = cc

module _ (r : Registry) (v : IsValid r) where
  by_count_single :
      (target : Str) (bs : List Bulb) (b : Bulb) → by_count target bs ≡ ok b → bs ≡ b ∷ []
  by_count_single target [] b e = cc
  by_count_single target (c ∷ []) b e = cc
  by_count_single target (c ∷ d ∷ bs) b e = cc

  -- A target that resolves is not empty, and the bulb is one of the registry for which it stands: never
  -- a guess among several that a prefix fits.
  pub resolve_sound :
      (target : Str) (b : Bulb)
      → resolve r target ≡ ok b
      → (is_empty target ≡ false) × ((k : Str) × (find r k ≡ some b)) × Denotes r target b
  unfolding resolve
  resolve_sound target b e = elim (Bool-cases (is_empty target)) [
    | inl h ↦ cc (rw (h, resolve) at e)
    | inr h ↦ elim (Option-cases (by_name r.bulbs target)) [
      | inr (a, f) ↦
          let q : ok a ≡ ok b = rw f at (rw (h, resolve) at e) in
          let (n, at) = by_name_found r.bulbs target b v.distinct (f ∙ ok_some a b q) in
          (h, at, exact_name n)
      | inl f ↦ elim (Option-cases (find r target)) [
        | inr (a, g) ↦
            let q : ok a ≡ ok b = rw g at (rw f at (rw (h, resolve) at e)) in
            let at : find r target ≡ some b = g ∙ ok_some a b q in
            (h, (target, at), exact_id (nobody f) (v.keyed target b at))
        | inl g ↦
            let q : by_count target (by_prefix r.bulbs target) ≡ ok b =
              rw g at (rw f at (rw (h, resolve) at e)) in
            let s = by_count_single target (by_prefix r.bulbs target) b q in
            let (m, at) = by_prefix_head r.bulbs target b [] v.distinct s in
            (
              h,
              at,
              only_prefix (nobody f) g m
                  (λ k c fc mc. by_prefix_single r.bulbs target k c b s fc mc),
            )
      ]
    ]
  ]
    where
      nobody : by_name r.bulbs target ≡ none → NotAName r target
      nobody f k c g = by_name-none r.bulbs target k c f g

  -- A bulb with a name that is not empty and no other bulb's is found by that name, whatever ids and
  -- prefixes it may also fit.
  pub resolve_name :
      (k : Str) (b : Bulb)
      → NamesUnique r
      → find r k ≡ some b
      → is_empty b.name ≡ false
      → resolve r b.name ≡ ok b
  unfolding resolve
  resolve_name k b u f h = elim (Option-cases (by_name r.bulbs b.name)) [
    | inl none_named ↦ absurd (by_name-none r.bulbs b.name k b none_named f refl)
    | inr (a, found) ↦
        let (n, (j, g)) = by_name_found r.bulbs b.name a v.distinct found in
        let same : some a ≡ some b = sym g ∙ rw (u.one_owner j k a b g f n) f in
        rw (h, resolve) (rw (found, resolve) (cc same))
  ]
