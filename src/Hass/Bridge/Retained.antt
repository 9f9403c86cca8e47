-- ===== src/Hass/Bridge/Retained.antt =====
-- internal/hass/bridge.go: the name that the broker retains for a lamp, and what keeps it known.
use haigosmart.Base.{
  ◌≡◌, refl, ◌∙◌, List, [], ◌∷◌, ◌++◌, Bool, Option, none, some, if◌then◌else◌, inl, inr,
  Bool-cases, All,
}
use haigosmart.Base.Text.{Str, str_eq}
use haigosmart.Base.Assoc
use haigosmart.Base.Assoc.{get-put, get-delete}
use haigosmart.Hass.Discovery.{DiscoveryPayload}
use haigosmart.Hass.Bridge.{
  Message, lamp_config, lamp_state, lamp_availability, bridge_config, bridge_status, Bridge,
  publish,
}

-- The name in the retained config of a lamp: its last one, if that has not removed it.
abbrev pub name_in : Option DiscoveryPayload → Option Str
name_in none = none
name_in (some p) = some p.name

abbrev pub name_after : Option Str → Message → Str → Option Str
name_after kept (lamp_config j p) id = if str_eq j id then name_in p else kept
name_after kept (lamp_state j p) id = kept
name_after kept (lamp_availability j value) id = kept
name_after kept (bridge_config p) id = kept
name_after kept (bridge_status value) id = kept

abbrev pub retained_name : Option Str → List Message → Str → Option Str
retained_name kept [] id = kept
retained_name kept (m ∷ ms) id = retained_name (name_after kept m id) ms id

pub retained_name-append :
    (kept : Option Str) (ms ns : List Message) (id : Str)
    → retained_name kept (ms ++ ns) id ≡ retained_name (retained_name kept ms id) ns id
retained_name-append kept [] ns id = refl
retained_name-append kept (m ∷ ms) ns id = retained_name-append (name_after kept m id) ms ns id

-- It is no lamp's config.
abbrev pub IsQuiet : Message → Type 0
IsQuiet (lamp_config j p) = ⊥
IsQuiet (lamp_state j p) = Unit
IsQuiet (lamp_availability j value) = Unit
IsQuiet (bridge_config p) = Unit
IsQuiet (bridge_status value) = Unit

pub retained_name-IsQuiet :
    (kept : Option Str) (ms : List Message) (id : Str)
    → All IsQuiet ms
    → retained_name kept ms id ≡ kept
retained_name-IsQuiet kept [] id h = refl
retained_name-IsQuiet kept (lamp_config j p ∷ ms) id (h, hs) = absurd h
retained_name-IsQuiet kept (lamp_state j p ∷ ms) id (h, hs) = retained_name-IsQuiet kept ms id hs
retained_name-IsQuiet kept (lamp_availability j value ∷ ms) id (h, hs) =
    retained_name-IsQuiet kept ms id hs
retained_name-IsQuiet kept (bridge_config p ∷ ms) id (h, hs) = retained_name-IsQuiet kept ms id hs
retained_name-IsQuiet kept (bridge_status value ∷ ms) id (h, hs) =
    retained_name-IsQuiet kept ms id hs

pub publish-IsQuiet :
    (fails : Message → Bool) (m : Message) → IsQuiet m → All IsQuiet (publish fails m)
publish-IsQuiet fails m h = elim (Bool-cases (fails m)) [
  | inl bad ↦ rw bad tt
  | inr good ↦ rw good (h, tt)
]

-- Each name that the bridge b takes for announced is retained.
abbrev pub IsRetained : Bridge → (Str → Option Str) → Type 0
IsRetained b kept = (id n : Str) → Assoc.get b.announced id ≡ some n → kept id ≡ some n

-- A call that leads from b to b' with the messages ms keeps this so.
abbrev pub Keeps : Bridge → Bridge × List Message → Type 0
Keeps b (b', ms) =
    (kept : Str → Option Str)
    → IsRetained b kept
    → IsRetained b' (λ id. retained_name (kept id) ms id)

pub Keeps-trans :
    (b b' b'' : Bridge) (ms ns : List Message)
    → Keeps b (b', ms)
    → Keeps b' (b'', ns)
    → Keeps b (b'', ms ++ ns)
Keeps-trans b b' b'' ms ns f g kept h id n e =
    retained_name-append (kept id) ms ns id ∙ g (λ j. retained_name (kept j) ms j) (f kept h) id n e

pub Keeps-IsQuiet :
    (b b' : Bridge) (ms : List Message)
    → b'.announced ≡ b.announced
    → All IsQuiet ms
    → Keeps b (b', ms)
Keeps-IsQuiet b b' ms same q kept h id n e =
    retained_name-IsQuiet (kept id) ms id q ∙ h id n (rw same at e)
