-- ===== src/Control/Execute/Change.antt =====
-- The terminal's checks of a number against those of the service.
use haigosmart.Base.{
  ℕ, ◌≤◌, ◌≡◌, ◌≢◌, ◌⊎◌, inl, inr, Result-cases, Option-cases, refl, true, Option, none, some,
  arith, ok, err,
}
use haigosmart.Base.Int.{ℤ, pos}
use haigosmart.Bulb.{Bulb, LightState, supports_color_temp}
use haigosmart.Lights
use haigosmart.Lights.{resolve, resolve_brightness, resolve_color_temp, resolve_power}
use haigosmart.Control.{
  Command, Action, action_list, action_on, action_off, action_brightness, action_color,
  action_color_temp, action_name, action_info, action_help, action_quit,
}
use haigosmart.Base.Text.{Str}
use haigosmart.Control.Execute.{checked, change_for}

-- What `checked` lets through, action by action.
checked_brightness :
    (a : Action) (target : Bulb) (i : ℤ) (text : Str) (c : Lights.Change) (n : ℕ)
    → checked a target i text ≡ ok c
    → c.brightness ≡ some n
    → (i ≡ pos n) × (n ≤ 100) × (a ≡ action_brightness)
unfolding checked
checked_brightness action_list target i text c n h e = cc
checked_brightness action_on target i text c n h e = cc
checked_brightness action_off target i text c n h e = cc
checked_brightness action_brightness target i text c n h e = ground arith
checked_brightness action_color target i text c n h e = cc
checked_brightness action_color_temp target i text c n h e = ground arith
checked_brightness action_name target i text c n h e = cc
checked_brightness action_info target i text c n h e = cc
checked_brightness action_help target i text c n h e = cc
checked_brightness action_quit target i text c n h e = cc

checked_color_temp :
    (a : Action) (target : Bulb) (i : ℤ) (text : Str) (c : Lights.Change) (n : ℕ)
    → checked a target i text ≡ ok c
    → c.color_temp ≡ some n
    → (i ≡ pos n) × (n ≤ 100) × (supports_color_temp target.capabilities ≡ true)
unfolding checked
checked_color_temp action_list target i text c n h e = cc
checked_color_temp action_on target i text c n h e = cc
checked_color_temp action_off target i text c n h e = cc
checked_color_temp action_brightness target i text c n h e = ground arith
checked_color_temp action_color target i text c n h e = cc
checked_color_temp action_color_temp target i text c n h e = ground arith
checked_color_temp action_name target i text c n h e = cc
checked_color_temp action_info target i text c n h e = cc
checked_color_temp action_help target i text c n h e = cc
checked_color_temp action_quit target i text c n h e = cc

-- The number that a change carries is the number that was typed, and a percentage: its conversion to
-- eight bits loses nothing.
pub change_for_number :
    (target : Bulb) (cmd : Command) (c : Lights.Change) (n : ℕ)
    → change_for target cmd ≡ ok c
    → (c.brightness ≡ some n) ⊎ (c.color_temp ≡ some n)
    → (cmd.number ≡ pos n) × (n ≤ 100)
unfolding change_for
change_for_number target cmd c n h (inl e) =
    let (same, small, act) = checked_brightness cmd.action target cmd.number cmd.text c n h e in
    (same, small)
change_for_number target cmd c n h (inr e) =
    let (same, small, warm) = checked_color_temp cmd.action target cmd.number cmd.text c n h e in
    (same, small)

resolve_brightness-err :
    (target : Bulb) (o : Option ℕ) (want : LightState) (e : Lights.Error)
    → ((n : ℕ) → o ≡ some n → n ≤ 100)
    → resolve_brightness target o want ≡ err e
    → (e ≡ Lights.out_of_range) × (o ≢ none)
unfolding resolve_brightness
resolve_brightness-err target none want e fits h = cc
resolve_brightness-err target (some n) want e fits h =
    let small = fits n refl in (ground arith, λ p. cc)

resolve_color_temp-err :
    (target : Bulb) (o : Option ℕ) (want : LightState) (e : Lights.Error)
    → ((n : ℕ) → o ≡ some n → (n ≤ 100) × (supports_color_temp target.capabilities ≡ true))
    → resolve_color_temp target o want ≢ err e
unfolding resolve_color_temp
resolve_color_temp-err target none want e fits h = cc
resolve_color_temp-err target (some n) want e fits h = let small = fits n refl in ground arith

-- What the terminal lets through, the service refuses for one reason only: a brightness below the
-- lamp's floor.
pub change_for-resolve :
    (target : Bulb) (cmd : Command) (c : Lights.Change) (e : Lights.Error)
    → change_for target cmd ≡ ok c
    → resolve target c ≡ err e
    → (e ≡ Lights.out_of_range) × (cmd.action ≡ action_brightness)
unfolding resolve change_for
change_for-resolve target cmd c e h f =
    elim (Result-cases (resolve_brightness target c.brightness target.state)) [
      | inr (e', p) ↦
          let (floor, asked) =
            resolve_brightness-err target c.brightness target.state e'
              (λ n q. (checked_brightness cmd.action target cmd.number cmd.text c n h q).1) p in
          elim (Option-cases c.brightness) [
            | inl q ↦ absurd (asked q)
            | inr (n, q) ↦
                (ground arith, (checked_brightness cmd.action target cmd.number cmd.text c n h q).2)
          ]
      | inl (dimmed, p) ↦ elim (Result-cases (resolve_color_temp target c.color_temp dimmed)) [
        | inr (e', q) ↦ absurd (
            resolve_color_temp-err target c.color_temp dimmed e'
              (λ n s.
                let (same, small, warm) =
                  checked_color_temp cmd.action target cmd.number cmd.text c n h s in
                (small, warm))
              q)
        | inl (tinted, q) ↦ absurd (ground arith)
      ]
    ]
