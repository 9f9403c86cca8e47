-- ===== src/Base/Errors.antt =====
-- Go's (value, error) pair: a value, or an error of the program's own.
use mathlib.Core.Path.{◌≡◌, refl}
use mathlib.Core.Logic.{◌⊎◌, inl, inr}
use mathlib.Core.Bool.{Bool, true, false}

pub data Result {ℓ} (E : Type 0) (A : Type ℓ) : Type ℓ where
  ok : A → Result E A
  err : E → Result E A

infixl 5 ◌>>=◌ ◌>>◌
abbrev pub ◌>>=◌ {ℓ κ} :
    {E : Type 0} {A : Type ℓ} {B : Type κ} → Result E A → (A → Result E B) → Result E B
ok a >>= f = f a
err e >>= f = err e

abbrev pub ◌>>◌ {ℓ} : {E : Type 0} {B : Type ℓ} → Result E (Unit {0}) → Result E B → Result E B
m >> k = m >>= λ _. k

-- `if refused { return ..., e }`
abbrev pub refuse_if : {E : Type 0} → Bool → E → Result E (Unit {0})
refuse_if true e = err e
refuse_if false e = ok tt

-- fmt.Errorf("...: %w", err)
abbrev pub wrap_error {ℓ} : {E F : Type 0} {A : Type ℓ} → (E → F) → Result E A → Result F A
wrap_error f (ok a) = ok a
wrap_error f (err e) = err (f e)

pub Result-cases {ℓ} :
    {E : Type 0} {V : Type ℓ} (out : Result E V)
    → ((value : V) × (out ≡ ok value)) ⊎ ((failure : E) × (out ≡ err failure))
Result-cases (ok value) = inl (value, refl)
Result-cases (err failure) = inr (failure, refl)

pub >>=-eq-ok {ℓ κ} :
    {E : Type 0} {V : Type ℓ} {W : Type κ} (first : Result E V) (next : V → Result E W) {w : W}
    → (first >>= next) ≡ ok w
    → (v : V) × (first ≡ ok v) × (next v ≡ ok w)
>>=-eq-ok (ok v) next done = (v, refl, done)
>>=-eq-ok (err failure) next done = cc

pub wrap_error-eq-ok {ℓ} :
    {E F : Type 0} {V : Type ℓ} (f : E → F) (m : Result E V) {v : V}
    → wrap_error f m ≡ ok v
    → m ≡ ok v
wrap_error-eq-ok f (ok v) done = cc
wrap_error-eq-ok f (err e) done = cc
