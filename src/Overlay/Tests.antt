-- ===== src/Overlay/Tests.antt =====
-- The overlay at a strong upward trend.
use adviser_ai_constructor.Prelude.{◌≡◌, refl, true, not}
use adviser_ai_constructor.Float.{◌⊗◌, ◌⊑◌, ◌≐◌}
use adviser_ai_constructor.Float.Fixed.{ℤ, pos, fixed, fixed-IsOrdered}
use adviser_ai_constructor.Overlay.{
  up, flat, long, AiTrendSnapshot, AiOverlayConfig, scale_atr_multiplier,
}
use adviser_ai_constructor.Overlay.Bounds.{scale-within_envelope}

abbrev trend : AiTrendSnapshot ℤ
trend = record { direction = up; strength = pos 800000000 }

abbrev overlay : AiOverlayConfig ℤ
overlay = record {
  enabled = true;
  entry_side_lock_enabled = true;
  atr_scaling_enabled = true;
  min_strength = pos 400000000;
  atr_scale_low = pos 800000000;
  atr_scale_high = pos 1200000000;
  rsi_scaling_enabled = true;
  rsi_max_shift = 5;
}

abbrev base : ℤ
base = pos 2000000000

scale-within_envelope_example :
    let (value, decision) = scale_atr_multiplier base trend overlay long in
    (((base ⊗ overlay.atr_scale_low) ⊑ value) ≡ true)
    × ((value ⊑ (base ⊗ overlay.atr_scale_high)) ≡ true)
    × (decision.changed ≡ not (value ≐ base))
scale-within_envelope_example =
    scale-within_envelope fixed-IsOrdered base trend overlay long refl refl

abbrev calm : AiTrendSnapshot ℤ
calm = record { direction = flat; strength = pos 800000000 }

-- A stand-in for the rounding: every shift is one of four points.
abbrev four : ℤ → ℤ
four x = pos 4
