-- ===== src/Overlay/Rsi.antt =====
-- app/services/auto_trade/ai_overlay/scaler.py: `scale_rsi_thresholds`. The thresholds are natural
-- numbers; `round` is Python's `int(round(x))`, an argument since it depends on the floats.
pub mod Band
use adviser_ai_constructor.Prelude.{
  ℕ, suc, ◌+◌, ◌-◌, Bool, true, false, not, ◌&&◌, ◌||◌, ltb, ◌==◌, if◌then◌else◌,
}
use adviser_ai_constructor.Float.{Float, ◌⊗◌, ◌⊑◌, of_ℕ, neg}
use adviser_ai_constructor.Float.Fixed.{ℤ, pos, negsuc}
use adviser_ai_constructor.Overlay.{
  TrendDirection, up, down, flat, AiTrendSnapshot, AiOverlayConfig, OverlayReason, overlay_disabled,
  below_min_strength_or_flat, shift_rounded_to_zero, clamped_no_op, trend_up_shift,
  trend_down_shift, OverlayDecision, unchanged, effective_strength,
}

-- `max(0, min(100, threshold + shift))`: the subtraction of natural numbers stops at 0.
shift_by : ℤ → ℕ → ℕ
shift_by (pos n) threshold = if ltb 100 (threshold + n) then 100 else threshold + n
shift_by (negsuc n) threshold = if ltb 100 (threshold - suc n) then 100 else threshold - suc n

abbrev is_zero : ℤ → Bool
is_zero (pos n) = n == 0
is_zero (negsuc n) = false

shift_reason : TrendDirection → OverlayReason
shift_reason up = trend_up_shift
shift_reason _ = trend_down_shift

shift_thresholds : ℤ → ℕ → ℕ → OverlayReason → ℕ × ℕ × OverlayDecision
unfolding shift_by
shift_thresholds shift oversold overbought why =
    if is_zero shift
    then (oversold, overbought, unchanged shift_rounded_to_zero)
    else if (shift_by shift oversold == oversold) && (shift_by shift overbought == overbought)
    then (oversold, overbought, unchanged clamped_no_op)
    else (
      shift_by shift oversold,
      shift_by shift overbought,
      record { changed = true; reason = why },
    )

module _ {F : Type 0} ⦃fl : Float F⦄ where
  sign_of : TrendDirection → F
  sign_of up = of_ℕ 1
  sign_of _ = neg (of_ℕ 1)

  pub scale_rsi_thresholds :
      (F → ℤ) → ℕ → ℕ → AiTrendSnapshot F → AiOverlayConfig F → ℕ × ℕ × OverlayDecision
  unfolding shift_thresholds shift_reason sign_of effective_strength
  scale_rsi_thresholds round oversold overbought snapshot overlay =
      let effective = effective_strength snapshot overlay in
      if not overlay.enabled || not overlay.rsi_scaling_enabled
      then (oversold, overbought, unchanged overlay_disabled)
      else if (effective ⊑ of_ℕ 0) || (overlay.rsi_max_shift == 0)
      then (oversold, overbought, unchanged below_min_strength_or_flat)
      else shift_thresholds
          (round (sign_of snapshot.direction ⊗ effective ⊗ of_ℕ overlay.rsi_max_shift)) oversold
          overbought (shift_reason snapshot.direction)
