-- ===== src/Lights/Resolve.antt =====
-- What a change resolves to.
use haigosmart.Base.{ℕ, ◌≤◌, ◌≡◌, ◌≢◌, Bool, true, false, none, some, ltb, arith, ok}
use haigosmart.Bulb.{Bulb, LightState, supports_color_temp}
use haigosmart.Lights.{Change, resolve, resolve_brightness, resolve_color_temp, resolve_power}

-- What the lamp is asked for when `resolve` accepts the change c.
pub record Accepted (target : Bulb) (c : Change) (want : LightState) : Type 0 where
  -- An explicit power field decides; otherwise a brightness does; otherwise it stays.
  pub power : (on : Bool) → c.power ≡ some on → want.power ≡ on
  pub implied : (pct : ℕ) → c.power ≡ none → c.brightness ≡ some pct → want.power ≡ ltb 0 pct
  pub kept : c.power ≡ none → c.brightness ≡ none → want.power ≡ target.state.power
  -- A requested brightness is a percentage, 0 or not below the lamp's floor, and is what is asked for
  -- unless it is 0.
  pub in_range :
      (pct : ℕ)
      → c.brightness ≡ some pct
      → (pct ≤ 100)
        × (pct ≢ 0 → (target.capabilities.min_brightness ≤ pct) × (want.brightness ≡ pct))
  -- A requested brightness of 0 is what is asked for, unless the power is explicitly on: then 100 is.
  pub dark : c.brightness ≡ some 0 → c.power ≡ none → want.brightness ≡ 0
  pub dark_off : c.brightness ≡ some 0 → c.power ≡ some false → want.brightness ≡ 0
  pub dark_on : c.brightness ≡ some 0 → c.power ≡ some true → want.brightness ≡ 100
  -- With none requested the lamp's own stays, unless it is 0 and the power is explicitly on.
  pub same_brightness :
      c.brightness ≡ none → c.power ≢ some true → want.brightness ≡ target.state.brightness
  pub same_lit :
      c.brightness ≡ none → target.state.brightness ≢ 0 → want.brightness ≡ target.state.brightness
  pub brought_up :
      c.brightness ≡ none
      → target.state.brightness ≡ 0
      → c.power ≡ some true
      → want.brightness ≡ 100
  -- Never on at brightness 0 by an explicit power field.
  pub lit : c.power ≡ some true → want.brightness ≢ 0
  -- A requested warmth is a percentage that the lamp supports, and is what is asked for.
  pub warmth :
      (pct : ℕ)
      → c.color_temp ≡ some pct
      → (pct ≤ 100) × (supports_color_temp target.capabilities ≡ true) × (want.color_temp ≡ pct)
  pub same_warmth : c.color_temp ≡ none → want.color_temp ≡ target.state.color_temp
  pub same_mode : want.mode ≡ target.state.mode

-- A change that `resolve` accepts satisfies all of `Accepted`: every field it has is in range and
-- supported; the state to ask for has the brightness and the warmth it names, and the lamp's own where
-- it names none, but brightness 100 where the power is explicitly on and that would be 0; the power is
-- decided by the explicit field, then by the brightness, and stays where neither is there; the mode
-- stays.
pub resolve-Accepted :
    (target : Bulb) (c : Change) (want : LightState)
    → resolve target c ≡ ok want
    → Accepted target c want
unfolding resolve resolve_brightness resolve_color_temp resolve_power
resolve-Accepted target c want h = record {
  power = λ on e. ground arith;
  implied = λ pct e f. ground arith;
  kept = λ e f. ground arith;
  in_range = λ pct e. ground arith;
  dark = λ e f. ground arith;
  dark_off = λ e f. ground arith;
  dark_on = λ e f. ground arith;
  same_brightness = λ e f. ground arith;
  same_lit = λ e f. ground arith;
  brought_up = λ e f g. ground arith;
  lit = λ e. ground arith;
  warmth = λ pct e. ground arith;
  same_warmth = λ e. ground arith;
  same_mode = ground arith;
}
