-- ===== src/Registry/Names.antt =====
-- Display names: `name_owner` finds the bulb that has a name, and no two bulbs share one.
use haigosmart.Base.{
  ◌≡◌, ◌≢◌, refl, sym, ◌∙◌, [], ◌∷◌, not, ◌&&◌, Option, none, some, arith, inl, inr, Bool-cases,
  Option-cases,
}
use haigosmart.Base.Text.{Str, str_eq, str_eq_iff, str_eq_refl}
use haigosmart.Base.Assoc
use haigosmart.Base.Assoc.{Map, Distinct, get-Fresh}
use haigosmart.Bulb.{Bulb, Status}
use haigosmart.Registry.{Registry, find, name_owner}
use haigosmart.Registry.Operation.{
  Operation, op_upsert, op_declare, op_rename, op_set_state, op_set_desired, op_touch,
  op_set_firmware, op_set_capabilities, op_set_driver, op_disconnect, run, subject, given_name,
  name_of, Change, Effect, unchanged, written, Moves, stays, appears, declared, reconnects,
  attaches, named, configured, drops, IsFree,
}
use haigosmart.Registry.Effects.{effect}
use haigosmart.Registry.Invariant.{find_written}

-- `name_owner` finds nothing only if no other bulb has the name.
pub name_owner_free :
    (m : Map Bulb) (id name k : Str) (b : Bulb)
    → name_owner m id name ≡ none
    → Assoc.get m k ≡ some b
    → k ≢ id
    → b.name ≢ name
unfolding name_owner Assoc.get
name_owner_free [] id name k b e f n p = cc
name_owner_free ((j, a) ∷ m) id name k b e f n p = ground (
  arith,
  str_eq_iff j id,
  str_eq_iff j k,
  str_eq_iff a.name name,
  str_eq_iff k id,
  name_owner_free m id name k b,
)

-- The owner that `name_owner` finds is another bulb's device id, and that bulb has the name.
pub name_owner_found :
    (m : Map Bulb) (id name owner : Str)
    → Distinct m
    → name_owner m id name ≡ some owner
    → (k : Str) × (b : Bulb) × (Assoc.get m k ≡ some b)
      × (k ≢ id)
      × (b.name ≡ name)
      × (b.device_id ≡ owner)
unfolding name_owner Assoc.get
name_owner_found [] id name owner d e = cc
name_owner_found ((j, a) ∷ m) id name owner (f, d) e =
    elim (Bool-cases (not (str_eq j id) && str_eq a.name name)) [
      | inl hit ↦ (
        j,
        a,
        rw (str_eq_refl j) refl,
        λ p. ground (arith, str_eq_iff j id),
        ground (arith, str_eq_iff a.name name),
        ground arith,
      )
      | inr miss ↦
          let (k, b, g, n, p, q) = name_owner_found m id name owner d (rw miss at e) in
          (k, b, ground (arith, g, str_eq_iff j k, get-Fresh m j f), n, p, q)
    ]

-- Two entries with one name are one entry.
pub record NamesUnique (r : Registry) : Type 0 where
  pub one_owner :
      (j k : Str) (a b : Bulb) → find r j ≡ some a → find r k ≡ some b → a.name ≡ b.name → j ≡ k

-- A bulb may connect for the first time only if its id, which becomes its name, is nobody's name.
abbrev pub Allowed : Registry → Operation → Type 0
Allowed r (op_upsert id addr caps now) =
    find r id ≡ none → (k : Str) (b : Bulb) → find r k ≡ some b → b.name ≢ id
Allowed r (op_declare id name) = Unit
Allowed r (op_rename id name) = Unit
Allowed r (op_set_state id state now) = Unit
Allowed r (op_set_desired id want) = Unit
Allowed r (op_touch id now) = Unit
Allowed r (op_set_firmware id version) = Unit
Allowed r (op_set_capabilities id caps) = Unit
Allowed r (op_set_driver id d) = Unit
Allowed r (op_disconnect id who) = Unit

-- A first entry comes from `upsert`, where no name is given.
first_is_upsert :
    (r : Registry) {o : Operation} {q : Option Status} {s : Status}
    → Moves o q s
    → q ≡ none
    → given_name o ≡ none
    → Allowed r o
    → find r (subject o) ≡ none
    → (k : Str) (c : Bulb) → find r k ≡ some c
    → c.name ≢ subject o
first_is_upsert r (appears id addr caps now) e g al f k c h = al f k c h
first_is_upsert r (stays o s) e g al f k c h = cc
first_is_upsert r (declared id name) e g al f k c h = cc
first_is_upsert r (reconnects id addr caps now) e g al f k c h = cc
first_is_upsert r (attaches id d) e g al f k c h = cc
first_is_upsert r (named id name) e g al f k c h = cc
first_is_upsert r (configured id name) e g al f k c h = cc
first_is_upsert r (drops id who) e g al f k c h = cc

module _ (r : Registry) (o : Operation) (u : NamesUnique r) (al : Allowed r o) where
  -- The name that the operation leaves its subject with is no other bulb's.
  no_clash :
      (b : Bulb)
      → Change r o (find r (subject o)) b
      → (k : Str) (c : Bulb) → subject o ≢ k
      → find r k ≡ some c
      → b.name ≢ c.name
  no_clash b ch k c n f p = elim (Option-cases (given_name o)) [
    | inr (name, g) ↦
        let free : IsFree r (subject o) (some name) = rw g at ch.free in
        let bn : b.name ≡ name = rw g at ch.name in
        name_owner_free r.bulbs (subject o) name k c free f (λ q. n (sym q)) (sym p ∙ bn)
    | inl g ↦ elim (Option-cases (find r (subject o))) [
      | inr (a, e) ↦ n (u.one_owner (subject o) k a c e f (sym (rw e at (kept g)) ∙ p))
      | inl e ↦ first_is_upsert r ch.status (rw e refl) g al e k c f (sym p ∙ rw e at (kept g))
    ]
  ]
    where
      kept : given_name o ≡ none → b.name ≡ name_of (subject o) (find r (subject o))
      kept g = rw g at ch.name

  -- No operation makes two bulbs share a name, except a bulb's first connection under an id that is
  -- already another bulb's name.
  pub run-NamesUnique : NamesUnique (run r o)
  run-NamesUnique = go (effect r o)
    where
      go : Effect r o (run r o) → NamesUnique (run r o)
      go (unchanged e) = record {
        one_owner = λ j k a c f g p. u.one_owner j k a c (rw e at f) (rw e at g) p;
      }
      go (written b ch e) = record {
        one_owner = λ j k a c f g p. elim (find_written r (run r o) (subject o) b j e) [
          | inl (sj, fj) ↦ elim (find_written r (run r o) (subject o) b k e) [
            | inl (sk, fk) ↦ sym sj ∙ sk
            | inr (nk, fk) ↦ absurd (no_clash b ch k c nk (sym fk ∙ g) (cc (sym fj ∙ f, p)))
          ]
          | inr (nj, fj) ↦ elim (find_written r (run r o) (subject o) b k e) [
            | inl (sk, fk) ↦ absurd (no_clash b ch j a nj (sym fj ∙ f) (cc (sym fk ∙ g, p)))
            | inr (nk, fk) ↦ u.one_owner j k a c (sym fj ∙ f) (sym fk ∙ g) p
          ]
        ];
      }
