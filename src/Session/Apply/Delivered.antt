-- ===== src/Session/Apply/Delivered.antt =====
-- What has reached the bulb when Apply returns.
use haigosmart.Base.{
  ◌≡◌, refl, sym, ap, ◌∙◌, ◌⊎◌, List, [], ◌∷◌, ◌++◌, some, Result, ok, err, inl, inr, All,
}
use mathlib.Core.List.{append_assoc, append-nil}
use mathlib.Core.Path.{subst}
use haigosmart.Base.Text.{Str}
use haigosmart.Bulb.{Bulb, LightState}
use haigosmart.Protocol.Alink.{Property, changed_props}
use haigosmart.Protocol.Alink.Commands.{obey_all, obey_all-changed_props, goal}
use haigosmart.Registry
use haigosmart.Registry.{Registry}
use haigosmart.Session.Apply.{
  Failure, Reply, done, unconfirmed, failed, ApplyError, no_longer_registered, not_confirmed,
  failed_with, apply_props, apply,
}

-- The properties that were not confirmed.
abbrev pub late_of : (Property → Reply) → List Property → List Property
late_of reply [] = []
late_of reply (p ∷ ps) = elim (reply p) [
  | done ↦ late_of reply ps
  | unconfirmed ↦ p ∷ late_of reply ps
  | failed e ↦ late_of reply ps
]

-- What the loop has tried of the properties ps, where `late` were not confirmed before.
abbrev pub Report :
    (Property → Reply)
    → List Property
    → List Property
    → List Property × Result ApplyError (Unit {0})
    → Type 0
Report reply ps late (tried, ok u) = (tried ≡ ps) × (late ≡ []) × All (λ p. reply p ≡ done) ps
Report reply ps late (tried, err (not_confirmed us)) =
    (tried ≡ ps) × (us ≡ late ++ late_of reply ps)
Report reply ps late (tried, err (failed_with e)) =
    (before : List Property) × (p : Property) × (after : List Property) × (ps ≡ before ++ p ∷ after)
    × (tried ≡ before ++ p ∷ [])
    × (reply p ≡ failed e)
Report reply ps late (tried, err no_longer_registered) = ⊥

Reply-cases : (x : Reply) → (x ≡ done) ⊎ ((x ≡ unconfirmed) ⊎ ((e : Failure) × (x ≡ failed e)))
Reply-cases done = inl refl
Reply-cases unconfirmed = inr (inl refl)
Reply-cases (failed e) = inr (inr (e, refl))

module _ (reply : Property → Reply) (p : Property) (ps : List Property) where
  Report-done :
      (late : List Property) (out : List Property × Result ApplyError (Unit {0}))
      → reply p ≡ done
      → Report reply ps late out
      → Report reply (p ∷ ps) late (p ∷ out.0, out.1)
  Report-done late (tried, ok u) x (all, none_late, fine) =
      (ap (λ t. p ∷ t) all, none_late, (x, fine))
  Report-done late (tried, err (not_confirmed us)) x (all, same) =
      (ap (λ t. p ∷ t) all, rw (late_of, x) same)
  Report-done late (tried, err (failed_with e)) x (before, q, after, split, some_tried, bad) =
      (p ∷ before, q, after, ap (λ t. p ∷ t) split, ap (λ t. p ∷ t) some_tried, bad)
  Report-done late (tried, err no_longer_registered) x r = r

  Report-unconfirmed :
      (late : List Property) (out : List Property × Result ApplyError (Unit {0}))
      → reply p ≡ unconfirmed
      → Report reply ps (late ++ p ∷ []) out
      → Report reply (p ∷ ps) late (p ∷ out.0, out.1)
  Report-unconfirmed late (tried, ok u) x (all, none_late, fine) = absurd (some_late late none_late)
    where
      some_late : (l : List Property) → l ++ p ∷ [] ≡ [] → ⊥
      some_late [] e = cc
      some_late (y ∷ ys) e = cc
  Report-unconfirmed late (tried, err (not_confirmed us)) x (all, same) =
      (ap (λ t. p ∷ t) all, rw (late_of, x) (same ∙ append_assoc late (p ∷ []) (late_of reply ps)))
  Report-unconfirmed late (tried, err (failed_with e)) x
        (before, q, after, split, some_tried, bad) =
      (p ∷ before, q, after, ap (λ t. p ∷ t) split, ap (λ t. p ∷ t) some_tried, bad)
  Report-unconfirmed late (tried, err no_longer_registered) x r = r

apply_props-Report :
    (reply : Property → Reply) (ps late : List Property)
    → Report reply ps late (apply_props reply ps late)
unfolding apply_props
apply_props-Report reply [] [] = (refl, refl, tt)
apply_props-Report reply [] (u ∷ us) = (refl, rw append-nil refl)
apply_props-Report reply (p ∷ ps) late = elim (Reply-cases (reply p)) [
  | inl x ↦
      let out = apply_props reply ps late in
      let step : apply_props reply (p ∷ ps) late ≡ (p ∷ out.0, out.1) = rw (apply_props, x) refl in
      subst (λ o. Report reply (p ∷ ps) late o) (sym step)
        (Report-done reply p ps late out x (apply_props-Report reply ps late))
  | inr (inl x) ↦
      let later = late ++ p ∷ [] in
      let out = apply_props reply ps later in
      let step : apply_props reply (p ∷ ps) late ≡ (p ∷ out.0, out.1) = rw (apply_props, x) refl in
      subst (λ o. Report reply (p ∷ ps) late o) (sym step)
        (Report-unconfirmed reply p ps late out x (apply_props-Report reply ps later))
  | inr (inr (e, x)) ↦
      let step : apply_props reply (p ∷ ps) late ≡ (p ∷ [], err (failed_with e)) =
        rw (apply_props, x) refl in
      subst (λ o. Report reply (p ∷ ps) late o) (sym step) ([], p, ps, refl, refl, x)
]

-- What Apply has done for a bulb that was to go from `current` to `want`.
abbrev pub Applied :
    (Property → Reply) → Bulb → LightState → List Property × Result ApplyError (Unit {0}) → Type 0
Applied reply b want (tried, ok u) =
    All (λ p. reply p ≡ done) tried × (obey_all b.state tried ≡ goal b.state want b.capabilities)
Applied reply b want (tried, err (not_confirmed us)) =
    (us ≡ late_of reply tried) × (obey_all b.state tried ≡ goal b.state want b.capabilities)
Applied reply b want (tried, err (failed_with e)) =
    (before : List Property) × (p : Property) × (after : List Property) × (changed_props b.state
        want b.capabilities
      ≡ before ++ p ∷ after)
    × (tried ≡ before ++ p ∷ [])
    × (reply p ≡ failed e)
Applied reply b want (tried, err no_longer_registered) = ⊥

Report-Applied :
    (reply : Property → Reply) (b : Bulb) (want : LightState)
    (out : List Property × Result ApplyError (Unit {0}))
    → Report reply (changed_props b.state want b.capabilities) [] out
    → Applied reply b want out
Report-Applied reply b want (tried, ok u) (all, none_late, fine) =
    (rw all fine, rw all (obey_all-changed_props b.state want b.capabilities))
Report-Applied reply b want (tried, err (not_confirmed us)) (all, same) =
    (rw all same, rw all (obey_all-changed_props b.state want b.capabilities))
Report-Applied reply b want (tried, err (failed_with e)) r = r
Report-Applied reply b want (tried, err no_longer_registered) r = r

-- If Apply returns nil, every command was confirmed, and if it returns ErrUnconfirmed, the properties
-- that it names are those not confirmed; in both cases a bulb that obeys what it was sent ends in the
-- wanted state. On any other error the commands stop with the one that failed.
pub apply-Applied :
    (reply : Property → Reply) (r : Registry) (id : Str) (want : LightState) (b : Bulb)
    → Registry.view r id ≡ some b
    → Applied reply b want (apply reply r id want)
unfolding apply
apply-Applied reply r id want b found =
    let out = apply_props reply (changed_props b.state want b.capabilities) [] in
    let step : apply reply r id want ≡ out = rw (apply, found) refl in
    subst (λ o. Applied reply b want o) (sym step)
      (Report-Applied reply b want out
        (apply_props-Report reply (changed_props b.state want b.capabilities) []))
