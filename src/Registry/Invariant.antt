-- ===== src/Registry/Invariant.antt =====
-- What holds of the registry after any history: its keys, what an operation leaves alone, and the
-- lifecycle of a bulb's status.
use haigosmart.Base.{
  ◌≡◌, ◌≢◌, refl, sym, ap, ◌∙◌, ◌⊎◌, List, [], ◌∷◌, true, Option, none, some, arith, inl, inr,
  Bool-cases, Option-cases, All,
}
use haigosmart.Base.Text.{Str, str_eq, str_eq_iff}
use haigosmart.Base.Assoc
use haigosmart.Base.Assoc.{Distinct, get-put, Distinct-put}
use haigosmart.Bulb.{Bulb, Status, discovered}
use haigosmart.Registry.{Registry, find}
use haigosmart.Registry.Operation.{
  Operation, run, run_all, subject, given_name, Change, Effect, unchanged, written, Moves, stays,
  appears, declared, reconnects, attaches, named, configured, drops, id_of,
}
use haigosmart.Registry.Effects.{effect}

-- Every key stands once, and a bulb stands under its own device id.
pub record IsValid (r : Registry) : Type 0 where
  pub distinct : Distinct r.bulbs
  pub keyed : (k : Str) (b : Bulb) → find r k ≡ some b → b.device_id ≡ k

id_of_keyed : (r : Registry) → IsValid r → (k : Str) → id_of k (find r k) ≡ k
id_of_keyed r v k = elim (Option-cases (find r k)) [
  | inl e ↦ rw e refl
  | inr (a, e) ↦ rw e (v.keyed k a e)
]

-- Reading a key after a write.
pub find_written :
    (r r' : Registry) (id : Str) (b : Bulb) (k : Str)
    → r'.bulbs ≡ Assoc.put r.bulbs id b
    → ((id ≡ k) × (find r' k ≡ some b)) ⊎ ((id ≢ k) × (find r' k ≡ find r k))
find_written r r' id b k e = elim (Bool-cases (str_eq id k)) [
  | inl same ↦ inl ((str_eq_iff id k).0 same, rw (e, get-put) (rw same refl))
  | inr other ↦ inr (λ p. ground (arith, str_eq_iff id k), rw (e, get-put) (rw other refl))
]

-- Every operation keeps the registry valid.
pub run-IsValid : (r : Registry) (o : Operation) → IsValid r → IsValid (run r o)
run-IsValid r o v = go (effect r o)
  where
    go : Effect r o (run r o) → IsValid (run r o)
    go (unchanged e) = record {
      distinct = rw e v.distinct;
      keyed = λ k b f. v.keyed k b (rw e at f);
    }
    go (written b c e) = record {
      distinct = rw e (Distinct-put r.bulbs (subject o) b v.distinct);
      keyed = λ k a f. elim (find_written r (run r o) (subject o) b k e) [
        | inl (same, g) ↦ ground (arith, c.same_id, id_of_keyed r v (subject o))
        | inr (other, g) ↦ v.keyed k a (sym g ∙ f)
      ];
    }

-- An operation on one bulb leaves the entry of every other as it is.
pub run_frame :
    (r : Registry) (o : Operation) (k : Str) → subject o ≢ k → find (run r o) k ≡ find r k
run_frame r o k n = go (effect r o)
  where
    go : Effect r o (run r o) → find (run r o) k ≡ find r k
    go (unchanged e) = rw e refl
    go (written b c e) = elim (find_written r (run r o) (subject o) b k e) [
      | inl (same, g) ↦ absurd (n same)
      | inr (other, g) ↦ g
    ]

-- The entry a of bulb k after the operation o: its status has gone one step of the lifecycle.
pub record Kept (r : Registry) (o : Operation) (k : Str) (a : Bulb) : Type 0 where
  pub after : Bulb
  pub found : find (run r o) k ≡ some after
  pub same_id : after.device_id ≡ a.device_id
  pub moved : Moves o (some a.status) after.status
  pub known : a.capabilities.known ≡ true → after.capabilities.known ≡ true

-- A bulb's status changes only along the lifecycle, by the operation that its step names; an entry
-- never goes away, keeps its device id, and never loses a known answer about its capabilities.
pub run_lifecycle :
    (r : Registry) (o : Operation) (k : Str) (a : Bulb) → find r k ≡ some a → Kept r o k a
run_lifecycle r o k a f = go (effect r o)
  where
    same : find (run r o) k ≡ some a → Kept r o k a
    same g = record {
      after = a;
      found = g;
      same_id = refl;
      moved = stays o a.status;
      known = λ h. h;
    }

    here : (b : Bulb) → Change r o (some a) b → find (run r o) k ≡ some b → Kept r o k a
    here b c g = record {
      after = b;
      found = g;
      same_id = c.same_id;
      moved = c.status;
      known = c.known;
    }

    go : Effect r o (run r o) → Kept r o k a
    go (unchanged e) = same (rw e f)
    go (written b c e) = elim (find_written r (run r o) (subject o) b k e) [
      | inl (id, g) ↦ let old : find r (subject o) ≡ some a = rw id f in here b (rw old at c) g
      | inr (other, g) ↦ same (g ∙ f)
    ]

-- The operation does not name bulb k.
abbrev pub NotNaming : Str → Operation → Type 0
NotNaming k o = (given_name o ≡ none) ⊎ (subject o ≢ k)

stays_discovered :
    {o : Operation} {q : Option Status} {t : Status}
    → Moves o q t
    → q ≡ some discovered
    → given_name o ≡ none
    → t ≡ discovered
stays_discovered (stays o s) e g = cc
stays_discovered (appears id addr caps now) e g = cc
stays_discovered (declared id name) e g = cc
stays_discovered (reconnects id addr caps now) e g = cc
stays_discovered (attaches id d) e g = cc
stays_discovered (named id name) e g = cc
stays_discovered (configured id name) e g = cc
stays_discovered (drops id who) e g = cc

-- A discovered bulb that no operation of a history names is still discovered after it: connecting,
-- reporting, disconnecting and commanding do not adopt a bulb.
pub run_all-discovered :
    (os : List Operation) (r : Registry) (k : Str) (a : Bulb)
    → find r k ≡ some a
    → a.status ≡ discovered
    → All (NotNaming k) os
    → (b : Bulb) × (find (run_all r os) k ≡ some b) × (b.status ≡ discovered)
unfolding run_all
run_all-discovered [] r k a f e h = (a, f, e)
run_all-discovered (o ∷ os) r k a f e (inr other, h) =
    run_all-discovered os (run r o) k a (run_frame r o k other ∙ f) e h
run_all-discovered (o ∷ os) r k a f e (inl plain, h) =
    let kept = run_lifecycle r o k a f in
    run_all-discovered os (run r o) k kept.after kept.found
      (stays_discovered kept.moved (ap some e) plain) h
