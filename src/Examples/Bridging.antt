-- ===== src/Examples/Bridging.antt =====
-- The bridge to Home Assistant, with one lamp.
use haigosmart.Base.{
  ℕ, ◌≡◌, ◌≢◌, refl, List, [], ◌∷◌, ◌++◌, Bool, true, false, Option, none, some, ok,
}
use haigosmart.Base.Text.{codes, str_eq, is_empty}
use haigosmart.Base.Assoc
use haigosmart.Bulb.{Bulb, connected, adopted, status_eq, LightState}
use haigosmart.Events
use haigosmart.Events.{Event}
use haigosmart.Registry.{Registry, find}
use haigosmart.Lights
use haigosmart.Lights.{get}
use haigosmart.Lights.Apply.{known_but_desired}
use haigosmart.Hass.Config.{default_config}
use haigosmart.Hass.Command.{device_id_from_command_topic}
use haigosmart.Hass.Bridge.{Message, new, on_command}
use haigosmart.Hass.Bridge.History.{Occasion, event, occur_all, occur_all-announced}
use haigosmart.Hass.Bridge.Retained.{retained_name}
use haigosmart.Hass.Bridge.Commands.{on_command_frame}
use haigosmart.Examples.Bulbs.{lamp, one_bulb, one_bulb-IsValid}

abbrev desk : Bulb
desk = record lamp { name = codes "desk"; status = connected }

abbrev home : Registry
home = record { bulbs = (codes "A1", desk) ∷ []; saves = 1 }

abbrev came_up : Event
came_up = record {
  at = 5;
  kind = Events.connected;
  device_id = codes "A1";
  name = codes "desk";
  changed = [];
  detail = [];
}

abbrev goes_out : Message → Bool
goes_out m = false

known_lamp : get home (codes "A1") ≡ ok desk
unfolding get Assoc.get str_eq
known_lamp = refl

-- A first event whose publications fail, and then the same event.
abbrev day : List Occasion
day = event (λ m. true) home came_up ∷ []

occur_all-announced_example :
    let after = occur_all (new default_config) (day ++ (event goes_out home came_up ∷ [])) in
    (Assoc.get after.0.announced (codes "A1") ≡ some (codes "desk"))
    × (retained_name none after.1 (codes "A1") ≡ some (codes "desk"))
unfolding adopted status_eq is_empty
occur_all-announced_example =
    occur_all-announced default_config day goes_out home came_up desk known_lamp refl refl refl refl
      (λ b. refl)

abbrev no_answer : ℕ → LightState → Option Lights.Error
no_answer d want = none

on_command_frame_example :
    let r' =
      (on_command default_config no_answer one_bulb 9 (codes "haigosmart/light/B2/set") none).0 in
    (known_but_desired (find r' (codes "A1")) ≡ known_but_desired (find one_bulb (codes "A1")))
    × (device_id_from_command_topic default_config (codes "haigosmart/light/B2/set")
          ≢ some (codes "A1")
        → find r' (codes "A1") ≡ find one_bulb (codes "A1"))
    × (r'.saves ≡ one_bulb.saves)
on_command_frame_example =
    on_command_frame default_config no_answer one_bulb 9 (codes "haigosmart/light/B2/set") none
      (codes "A1") one_bulb-IsValid
