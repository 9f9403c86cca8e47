-- ===== src/Protocol/Alink/Commands.antt =====
-- Which properties a command sends, and what a bulb's report does to a state.
use haigosmart.Base.{
  ℕ, ◌*◌, ◌/◌, ◌^◌, ◌≤◌, ◌≡◌, ◌≢◌, refl, List, [], ◌∷◌, ◌++◌, Bool, true, false, not, arith, ltb,
  ◌==◌, if◌then◌else◌, All, All-append, ◌&&◌, inl, inr, Bool-cases, bool_ne,
}
use native.Mathlib.Nat.{div-le_of_le-mul, mul_comm}
use haigosmart.Bulb.{LightState, Capabilities, supports_color_temp}
use haigosmart.Protocol.Alink.{
  Property, switch_to, brightness_to, color_temp_to, changed_props, Number, clamp_percent,
}

-- What a bulb makes of one property.
unfoldable pub obey : LightState → Property → LightState
obey s (switch_to n) = record s { power = not (n == 0) }
obey s (brightness_to n) = record s { brightness = n }
obey s (color_temp_to n) = record s { color_temp = n }

unfoldable pub obey_all : LightState → List Property → LightState
unfolding obey
obey_all s [] = s
obey_all s (p ∷ ps) = obey_all (obey s p) ps

-- What a command to reach `want` is to end in: a lamp that is to be on has the wanted brightness, if
-- that is not 0, and the wanted colour temperature, if it has one; a lamp that is to be off is off, and
-- keeps the rest.
abbrev pub goal : LightState → LightState → Capabilities → LightState
goal current want caps =
    if want.power
    then record current {
      power = true;
      brightness = if want.brightness == 0 then current.brightness else want.brightness;
      color_temp = if supports_color_temp caps then want.color_temp else current.color_temp;
    }
    else record current { power = false }

-- A bulb that obeys the properties of `changed_props` one after the other ends in the goal.
pub obey_all-changed_props :
    (current want : LightState) (caps : Capabilities)
    → obey_all current (changed_props current want caps) ≡ goal current want caps
unfolding obey_all changed_props
obey_all-changed_props current want caps = ground arith

-- A property that would change the state.
abbrev pub Differs : LightState → Property → Type 0
Differs s (switch_to n) = s.power ≢ not (n == 0)
Differs s (brightness_to n) = (s.brightness ≢ n) × (n ≢ 0)
Differs s (color_temp_to n) = s.color_temp ≢ n

sent_if :
    (s : LightState) (b : Bool) (p : Property)
    → (b ≡ true → Differs s p)
    → All (Differs s) (if b then p ∷ [] else [])
sent_if s true p h = (h refl, tt)
sent_if s false p h = tt

-- The brightness and the colour temperature that `changed_props` sends to a lamp that is to be on.
attributes_differ :
    (s want : LightState) (caps : Capabilities)
    → All (Differs s) (
        (if ltb 0 want.brightness && not (want.brightness == s.brightness)
          then brightness_to want.brightness ∷ []
          else [])
        ++ (if supports_color_temp caps && not (want.color_temp == s.color_temp)
            then color_temp_to want.color_temp ∷ []
            else []))
attributes_differ s want caps =
    All-append (Differs s) _ _
      (sent_if s (ltb 0 want.brightness && not (want.brightness == s.brightness)) _
        (λ h. brightness_sent (want.brightness) (s.brightness) h))
      (sent_if s (supports_color_temp caps && not (want.color_temp == s.color_temp)) _
        (λ h. temp_sent (supports_color_temp caps) (want.color_temp) (s.color_temp) h))
  where
    brightness_sent : (m n : ℕ) → ltb 0 m && not (m == n) ≡ true → (n ≢ m) × (m ≢ 0)
    brightness_sent m n h = ground arith

    temp_sent : (b : Bool) (m n : ℕ) → b && not (m == n) ≡ true → n ≢ m
    temp_sent b m n h = ground arith

-- Every property that is sent differs from what the lamp has, and no brightness of 0 is sent.
pub changed_props_differ :
    (current want : LightState) (caps : Capabilities)
    → All (Differs current) (changed_props current want caps)
unfolding changed_props
changed_props_differ current want caps =
    All-append (Differs current) _ _
      (sent_if current (want.power && bool_ne want.power current.power) (switch_to 1)
        (λ h. ground arith))
      (All-append (Differs current) _ _ lit (
        sent_if current (not want.power && bool_ne want.power current.power) (switch_to 0)
          (λ h. ground arith)))
  where
    lit : All (Differs current) (
        if want.power
        then (if ltb 0 want.brightness && not (want.brightness == current.brightness)
            then brightness_to want.brightness ∷ []
            else [])
          ++ (if supports_color_temp caps && not (want.color_temp == current.color_temp)
              then color_temp_to want.color_temp ∷ []
              else [])
        else [])
    lit = elim (Bool-cases want.power) [
      | inl on ↦ rw on (attributes_differ current want caps)
      | inr off ↦ rw off tt
    ]

share : (m d : ℕ) → m ≤ 100 * d → m / d ≤ 100
share m d h = div-le_of_le-mul d (rw (mul_comm d 100) h)

-- A percentage stays within 0 and 100.
pub clamp_percent_bound : (n : Number) → clamp_percent n ≤ 100
unfolding clamp_percent
clamp_percent_bound n = ground (arith, share n.mantissa (10 ^ n.scale))
