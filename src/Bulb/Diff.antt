-- ===== src/Bulb/Diff.antt =====
-- Which fields `diff` reports, and what applying them gives.
use haigosmart.Base.{◌≡◌, ◌↔◌, List, [], ◌∷◌, arith}
use haigosmart.Bulb.{
  LightState, FieldChange, diff, power_change, brightness_change, temp_change, mode_change,
}

-- A field's new value put into a state.
unfoldable pub apply_change : LightState → FieldChange → LightState
apply_change s (power_change from to) = record s { power = to }
apply_change s (brightness_change from to) = record s { brightness = to }
apply_change s (temp_change from to) = record s { color_temp = to }
apply_change s (mode_change from to) = record s { mode = to }

unfoldable pub apply_changes : LightState → List FieldChange → LightState
unfolding apply_change
apply_changes s [] = s
apply_changes s (c ∷ cs) = apply_changes (apply_change s c) cs

-- The reported changes turn the old state into the new one, but for the time of the report.
pub apply_changes-diff :
    (s next : LightState)
    → apply_changes s (diff s next) ≡ record next { reported_at = s.reported_at }
unfolding apply_changes diff
apply_changes-diff s next = ground arith

-- `diff` reports nothing exactly if the states agree in power, brightness, colour temperature and
-- mode, so a report that only carries a new time is no change.
pub diff_empty_iff :
    (s next : LightState) → (diff s next ≡ []) ↔ (s ≡ record next { reported_at = s.reported_at })
diff_empty_iff s next = (same, none_reported)
  where
    same : diff s next ≡ [] → s ≡ record next { reported_at = s.reported_at }
    same e = unfold apply_changes in (rw e at (apply_changes-diff s next))

    none_reported : s ≡ record next { reported_at = s.reported_at } → diff s next ≡ []
    none_reported e = rw e (unfold diff in ground arith)
