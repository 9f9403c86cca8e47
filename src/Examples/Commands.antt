-- ===== src/Examples/Commands.antt =====
-- Commands to one lamp, from the terminal and from Home Assistant, and a configuration.
use haigosmart.Base.{ℕ, ◌≡◌, refl, [], ◌∷◌, true, false, Option, none, some}
use haigosmart.Base.Text.{codes}
use haigosmart.Bulb.{Bulb, LightState, Capabilities, connected, zero_state}
use haigosmart.Registry.{Registry, find, first_entry}
use haigosmart.Lights
use haigosmart.Lights.{Change, Error, Outcome, resolve, apply}
use haigosmart.Lights.Resolve.{Accepted, resolve-Accepted}
use haigosmart.Lights.Apply.{apply_reported, known_but_desired}

abbrev cct : Capabilities
cct = record { known = true; color = false; color_temp = true; min_brightness = 5 }

abbrev lamp : Bulb
lamp = record (first_entry (codes "A1") (codes "10.0.0.2") cct 5) {
  status = connected;
  driver = some 1;
}

abbrev registry : Registry
registry = record { bulbs = (codes "A1", lamp) ∷ []; saves = 0 }

abbrev dim : ℕ → Change
dim n = record { power = none; brightness = some n; color_temp = none }

abbrev dimmed : LightState
dimmed = record zero_state { power = true; brightness = 40 }

abbrev confirming : ℕ → LightState → Option Error
confirming d want = none

resolve-Accepted_example : Accepted lamp (dim 40) dimmed
unfolding resolve Lights.resolve_brightness Lights.resolve_color_temp Lights.resolve_power
resolve-Accepted_example = resolve-Accepted lamp (dim 40) dimmed refl

apply_reported_example :
    (known_but_desired
        (find (apply confirming registry 9 (codes "A1") (dim 40)).registry (codes "A1"))
      ≡ known_but_desired (find registry (codes "A1")))
    × ((apply confirming registry 9 (codes "A1") (dim 40)).registry.saves ≡ 0)
apply_reported_example = apply_reported confirming registry 9 (codes "A1") (dim 40) (codes "A1")
