-- ===== src/Hass/Bridge/Commands.antt =====
-- internal/hass/bridge.go: a command from Home Assistant reaches one lamp.
use haigosmart.Base.{
  ℕ, ◌≡◌, ◌≢◌, refl, ap, false, Option, some, inl, inr, Bool-cases, Option-cases, Result-cases,
}
use haigosmart.Base.Text.{Str, str_eq, str_eq_iff}
use haigosmart.Bulb.{LightState}
use haigosmart.Lights
use haigosmart.Lights.{get, apply}
use haigosmart.Lights.Apply.{apply_reported, apply_frame, known_but_desired}
use haigosmart.Registry.{Registry, find}
use haigosmart.Registry.Invariant.{IsValid}
use haigosmart.Hass.Config.{Config}
use haigosmart.Hass.Command.{CommandPayload, device_id_from_command_topic, parse_command}
use haigosmart.Hass.Bridge.{on_command}

differs : (id k : Str) → some id ≢ some k → str_eq id k ≡ false
differs id k n = elim (Bool-cases (str_eq id k)) [
  | inl same ↦ absurd (n (ap some ((str_eq_iff id k).0 same)))
  | inr other ↦ other
]

-- Whatever arrives on a topic, and whatever the driver answers, changes of the registry at most the
-- wanted state of the lamp that the topic names: nothing reported, no other lamp, and nothing to save.
pub on_command_frame :
    (c : Config) (d : ℕ → LightState → Option Lights.Error) (r : Registry) (now : ℕ) (topic : Str)
    (payload : Option CommandPayload) (k : Str)
    → IsValid r
    → let r' = (on_command c d r now topic payload).0 in
      (known_but_desired (find r' k) ≡ known_but_desired (find r k))
      × (device_id_from_command_topic c topic ≢ some k → find r' k ≡ find r k)
      × (r'.saves ≡ r.saves)
unfolding on_command
on_command_frame c d r now topic payload k v =
    elim (Option-cases (device_id_from_command_topic c topic)) [
      | inl none_named ↦ rw (on_command, none_named) (refl, λ n. refl, refl)
      | inr (id, named) ↦ elim (Result-cases (get r id)) [
        | inr (e, x) ↦ rw (on_command, named, x) (refl, λ n. refl, refl)
        | inl (lamp, x) ↦ elim (Result-cases (parse_command c payload)) [
          | inr (e, y) ↦ rw (on_command, named, x, y) (refl, λ n. refl, refl)
          | inl (change, y) ↦
              let (known, saves) = apply_reported d r now id change k in
              rw (on_command, named, x, y)
                (known, λ n. apply_frame d r now id change k v (differs id k n), saves)
        ]
      ]
    ]
