-- ===== src/Hass/Convert/RoundTrip.antt =====
-- What survives an exchange of values with Home Assistant.
use haigosmart.Base.{
  ℕ, ◌+◌, ◌*◌, ◌/◌, ◌≤◌, ◌<◌, ◌≡◌, refl, inl, inr, ◌⊎◌, zero, suc, ltb, leb, if◌then◌else◌, arith,
}
use haigosmart.Base.Int.{ℤ, pos, ◌+ℤ◌, ◌-ℤ◌, ◌*ℤ◌, quot}
use native.Mathlib.Nat.{div-eq_of_lt-le, mul-le-mul_right}
use haigosmart.Hass.Config.{Config, with_defaults}
use haigosmart.Hass.Convert.{
  brightness_to_ha, brightness_from_ha, kelvin_from_percent, percent_from_kelvin,
}

-- A percentage survives the way to Home Assistant and back.
pub brightness_from_ha-brightness_to_ha :
    (p : ℕ) → p ≤ 100 → brightness_from_ha (pos (brightness_to_ha p)) ≡ p
unfolding brightness_from_ha brightness_to_ha
brightness_from_ha-brightness_to_ha p h = ground arith

-- Whatever number Home Assistant sends, the lamp is asked for a percentage.
pub brightness_from_ha_bound : (v : ℤ) → brightness_from_ha v ≤ 100
unfolding brightness_from_ha
brightness_from_ha_bound v = ground arith

-- A value that Home Assistant sends settles after one exchange: the lamp's percentage, reported
-- back and sent again, is the same percentage.
pub brightness_from_ha_settles :
    (v : ℤ)
    → brightness_from_ha (pos (brightness_to_ha (brightness_from_ha v))) ≡ brightness_from_ha v
brightness_from_ha_settles v =
    brightness_from_ha-brightness_to_ha (brightness_from_ha v) (brightness_from_ha_bound v)

pos_minus : (l s : ℕ) → pos (l + s) -ℤ pos l ≡ pos s
unfolding ◌-ℤ◌
pos_minus l s = ground arith

pos_plus : (a b : ℕ) → pos a +ℤ pos b ≡ pos (a + b)
unfolding ◌+ℤ◌
pos_plus a b = ground arith

pos_times : (a b : ℕ) → pos a *ℤ pos b ≡ pos (a * b)
unfolding ◌*ℤ◌
pos_times a b = ground arith

-- The warmth p of a lamp in Kelvin above the lower end, and back.
warmth_back :
    (s p : ℕ)
    → 100 < s
    → p ≤ 100
    → let d : ℕ = (p * s + 50) / 100 in
      (if leb d 0 then 0 else if leb s d then 100 else (d * 100 + s / 2) / s) ≡ p
warmth_back s p hs hp =
    ground (arith, low p, high p hp, div-eq_of_lt-le {k = p} s {m = d * 100 + s / 2})
  where
    d : ℕ
    d = (p * s + 50) / 100

    low : (q : ℕ) → (q ≡ 0) ⊎ (s ≤ q * s)
    low zero = inl refl
    low (suc q) = inr (ground arith)

    high : (q : ℕ) → q ≤ 100 → (q ≡ 100) ⊎ (q * s + s ≤ 100 * s)
    high q h = ground (arith, mul-le-mul_right {m = q + 1} {n = 100} s)

-- With a span of more than 100 Kelvin, a warmth survives the way to Kelvin and back.
pub percent_from_kelvin-kelvin_from_percent :
    (c : Config) (lower span p : ℕ)
    → (with_defaults c).min_kelvin ≡ pos lower
    → (with_defaults c).max_kelvin ≡ pos (lower + span)
    → 100 < span
    → p ≤ 100
    → percent_from_kelvin c (kelvin_from_percent c p) ≡ p
unfolding percent_from_kelvin kelvin_from_percent quot
percent_from_kelvin-kelvin_from_percent c lower span p e1 e2 hs hp =
    let small : (if ltb 100 p then 100 else p) ≡ p = ground arith in
    rw (e1, e2, pos_minus, small, pos_times, pos_plus, pos_plus, pos_minus, pos_times, pos_plus)
      (ground (arith, warmth_back span p hs hp))
