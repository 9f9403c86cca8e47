-- ===== src/Base/Assoc.antt =====
-- A Go map with string keys as an association list. The order of the entries stands for the order
-- in which one `range` over the map runs; nothing is proved that depends on it.
use mathlib.Core.Path.{◌≡◌, refl}
use mathlib.Core.Bool.{false}
use mathlib.Core.List.{List, [], ◌∷◌}
use mathlib.Core.Option.{Option, none, some}
use native.Mathlib.Omega.{arith}
use mathlib.Core.Logic.{inl, inr}
use haigosmart.Base.Tests.{if◌then◌else◌, Bool-cases}
use haigosmart.Base.Text.{Str, str_eq, str_eq_iff, str_eq-false_sym}

abbrev pub Map {ℓ} : Type ℓ → Type ℓ
Map V = List (Str × V)

module _ {ℓ} {V : Type ℓ} where
  -- m[k], with its `ok`
  unfoldable pub get : Map V → Str → Option V
  get [] k = none
  get ((j, v) ∷ m) k = let rest = get m k in if str_eq j k then some v else rest

  -- m[k] = v
  unfoldable pub put : Map V → Str → V → Map V
  put [] k v = (k, v) ∷ []
  put ((j, w) ∷ m) k v = let rest = put m k v in if str_eq j k then (j, v) ∷ m else (j, w) ∷ rest

  -- delete(m, k)
  unfoldable pub delete : Map V → Str → Map V
  delete [] k = []
  delete ((j, w) ∷ m) k = let rest = delete m k in if str_eq j k then rest else (j, w) ∷ rest

  pub get-put :
      (m : Map V) (k j : Str) (v : V) → get (put m k v) j ≡ (if str_eq k j then some v else get m j)
  unfolding get put
  get-put [] k j v = refl
  get-put ((i, w) ∷ m) k j v =
      ground (arith, str_eq_iff k j, str_eq_iff i k, str_eq_iff i j, get-put m k j v)

  pub get-delete :
      (m : Map V) (k j : Str) → get (delete m k) j ≡ (if str_eq k j then none else get m j)
  unfolding get delete
  get-delete [] k j = ground arith
  get-delete ((i, w) ∷ m) k j =
      ground (arith, str_eq_iff k j, str_eq_iff i k, str_eq_iff i j, get-delete m k j)

  -- No entry of m has the key k.
  abbrev pub Fresh : Str → Map V → Type 0
  Fresh k [] = Unit
  Fresh k ((j, v) ∷ m) = (str_eq j k ≡ false) × Fresh k m

  -- Every key stands once, as in a Go map.
  abbrev pub Distinct : Map V → Type 0
  Distinct [] = Unit
  Distinct ((k, v) ∷ m) = Fresh k m × Distinct m

  Fresh-put : (m : Map V) (k j : Str) (v : V) → str_eq k j ≡ false → Fresh j m → Fresh j (put m k v)
  unfolding put
  Fresh-put [] k j v h f = (h, tt)
  Fresh-put ((i, w) ∷ m) k j v h (f, fs) = ground (arith, Fresh-put m k j v h fs)

  pub Distinct-put : (m : Map V) (k : Str) (v : V) → Distinct m → Distinct (put m k v)
  unfolding put
  Distinct-put [] k v d = (tt, tt)
  Distinct-put ((i, w) ∷ m) k v (f, d) = elim (Bool-cases (str_eq i k)) [
    | inl same ↦ rw same (f, d)
    | inr other ↦ rw other (Fresh-put m k i v (str_eq-false_sym i k other) f, Distinct-put m k v d)
  ]

  pub get-Fresh : (m : Map V) (k : Str) → Fresh k m → get m k ≡ none
  unfolding get
  get-Fresh [] k f = refl
  get-Fresh ((j, v) ∷ m) k (f, fs) = rw f (get-Fresh m k fs)
