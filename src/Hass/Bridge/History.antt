-- ===== src/Hass/Bridge/History.antt =====
-- internal/hass/bridge.go: the bridge over any sequence of events, reconnections and removals.
use haigosmart.Base.{true, false, ok, ap, ◌∙◌, ◌≡◌, refl, List, [], ◌∷◌, ◌++◌, Bool, none, some}
use haigosmart.Base.Text.{Str, is_empty}
use haigosmart.Bulb.{Bulb, adopted}
use haigosmart.Lights.{get}
use haigosmart.Base.Assoc
use haigosmart.Events.{Event}
use haigosmart.Registry.{Registry}
use haigosmart.Hass.Config.{Config}
use haigosmart.Hass.Bridge.{Message, Bridge, new, handle, on_connect, remove}
use haigosmart.Hass.Bridge.Announced.{
  config_of, announces, handle_announced, handle-Keeps, on_connect-Keeps, remove-Keeps,
}
use haigosmart.Hass.Bridge.Retained.{retained_name, Keeps, Keeps-trans, Keeps-IsQuiet}

-- What happens to the bridge, with the registry and the failures at that time.
pub data Occasion : Type 0 where
  event : (Message → Bool) → Registry → Event → Occasion
  reconnected : (Message → Bool) → Registry → Occasion
  removed : (Message → Bool) → Str → Occasion

unfoldable pub occur : Bridge → Occasion → Bridge × List Message
occur b (event fails r e) = handle fails r b e
occur b (reconnected fails r) = on_connect fails r b
occur b (removed fails id) = remove fails b id

unfoldable pub occur_all : Bridge → List Occasion → Bridge × List Message
unfolding occur
occur_all b [] = (b, [])
occur_all b (o ∷ os) =
    let (b', ms) = occur b o in let (b'', more) = occur_all b' os in (b'', ms ++ more)

occur-Keeps : (b : Bridge) (o : Occasion) → Keeps b (occur b o)
unfolding occur
occur-Keeps b (event fails r e) = handle-Keeps fails r b e
occur-Keeps b (reconnected fails r) = on_connect-Keeps fails r b
occur-Keeps b (removed fails id) = remove-Keeps fails b id

occur_all-Keeps : (b : Bridge) (os : List Occasion) → Keeps b (occur_all b os)
unfolding occur_all
occur_all-Keeps b [] = Keeps-IsQuiet b b [] refl tt
occur_all-Keeps b (o ∷ os) =
    let (b', ms) = occur b o in
    let (b'', more) = occur_all b' os in
    Keeps-trans b b' b'' ms more (occur-Keeps b o) (occur_all-Keeps b' os)

new-none : (c : Config) (j m : Str) → Assoc.get (new c).announced j ≡ some m → none ≡ some m
unfolding new Assoc.get
new-none c j m f = cc

-- A name that the bridge takes for announced is the name in the lamp's last config that went out.
occur_all-retained :
    (c : Config) (os : List Occasion) (id n : Str)
    → Assoc.get (occur_all (new c) os).0.announced id ≡ some n
    → retained_name none (occur_all (new c) os).1 id ≡ some n
occur_all-retained c os id n e =
    occur_all-Keeps (new c) os (λ j. none) (λ j m f. new-none c j m f) id n e

occur_all-snoc :
    (b : Bridge) (os : List Occasion) (o : Occasion)
    → (occur_all b (os ++ (o ∷ []))).0 ≡ (occur (occur_all b os).0 o).0
unfolding occur_all
occur_all-snoc b [] o = refl
occur_all-snoc b (p ∷ os) o = occur_all-snoc (occur b p).0 os o

-- After any events, reconnections and removals since its start, whichever publications failed, a
-- connection, renaming or report of a lamp that is adopted under a name, and whose config can be
-- published, leaves the bridge with the lamp announced under that name, and the last config of the
-- lamp that went out has that name: a lamp whose discovery did not go out, or was removed since, or
-- that was renamed, is announced again.
pub occur_all-announced :
    (c : Config) (os : List Occasion) (fails : Message → Bool) (r : Registry) (e : Event)
    (lamp : Bulb)
    → get r e.device_id ≡ ok lamp
    → is_empty e.device_id ≡ false
    → announces e.kind ≡ true
    → adopted lamp ≡ true
    → is_empty lamp.name ≡ false
    → ((b : Bridge) → fails (config_of b lamp) ≡ false)
    → let after = occur_all (new c) (os ++ (event fails r e ∷ [])) in
      (Assoc.get after.0.announced lamp.device_id ≡ some lamp.name)
      × (retained_name none after.1 lamp.device_id ≡ some lamp.name)
unfolding occur
occur_all-announced c os fails r e lamp found named kind owned called sends =
    let b = (occur_all (new c) os).0 in
    let known : Assoc.get (occur_all (new c) (os ++ (event fails r e ∷ []))).0.announced
          lamp.device_id
        ≡ some lamp.name =
      ap (λ (x : Bridge). Assoc.get x.announced lamp.device_id)
        (occur_all-snoc (new c) os (event fails r e))
      ∙ handle_announced fails r b e lamp found named kind owned called sends in
    (known, occur_all-retained c (os ++ (event fails r e ∷ [])) lamp.device_id lamp.name known)
