-- ===== src/Hass/Convert.antt =====
-- internal/hass/convert.go: the units of the lamps and those of Home Assistant.
pub mod RoundTrip
use haigosmart.Base.{ℕ, ◌+◌, ◌*◌, ◌/◌, ◌%◌, ◌^◌, Bool, true, false, ltb, if◌then◌else◌}
use haigosmart.Base.Int.{ℤ, pos, pos_part, ◌+ℤ◌, ◌-ℤ◌, ◌*ℤ◌, quot, leb_ℤ}
use haigosmart.Hass.Config.{Config, with_defaults}

abbrev pub ha_brightness_max : ℕ
ha_brightness_max = 255

unfoldable pub brightness_to_ha : ℕ → ℕ
brightness_to_ha pct = (if ltb 100 pct then 100 else pct) * ha_brightness_max / 100

unfoldable pub brightness_from_ha : ℤ → ℕ
brightness_from_ha v =
    if leb_ℤ v (pos 0)
    then 0
    else if leb_ℤ (pos ha_brightness_max) v
    then 100
    else (pos_part v * 100 + ha_brightness_max / 2) / ha_brightness_max % 2 ^ 8

unfoldable pub kelvin_from_percent : Config → ℕ → ℤ
unfolding with_defaults
kelvin_from_percent c pct =
    let cfg = with_defaults c in
    let span = cfg.max_kelvin -ℤ cfg.min_kelvin in
    cfg.min_kelvin +ℤ quot (pos (if ltb 100 pct then 100 else pct) *ℤ span +ℤ pos 50) 100

-- The last division is by the span, which is positive there.
unfoldable pub percent_from_kelvin : Config → ℤ → ℕ
unfolding with_defaults quot
percent_from_kelvin c kelvin =
    let cfg = with_defaults c in
    let span = cfg.max_kelvin -ℤ cfg.min_kelvin in
    if leb_ℤ span (pos 0)
    then 0
    else if leb_ℤ kelvin cfg.min_kelvin
    then 0
    else if leb_ℤ cfg.max_kelvin kelvin
    then 100
    else pos_part (quot ((kelvin -ℤ cfg.min_kelvin) *ℤ pos 100 +ℤ quot span 2) (pos_part span))
      % 2 ^ 8
