-- ===== src/Overlay/Rsi/Band.antt =====
-- The neutral band between the thresholds under a shift.
use adviser_ai_constructor.Prelude.{ℕ, ◌+◌, ◌≤◌, arith}
use adviser_ai_constructor.Float.{Float, ◌⊗◌, of_ℕ}
use adviser_ai_constructor.Float.Fixed.{ℤ, pos, negsuc}
use adviser_ai_constructor.Overlay.{
  AiTrendSnapshot, AiOverlayConfig, OverlayReason, effective_strength,
}
use adviser_ai_constructor.Overlay.Rsi.{
  shift_by, shift_thresholds, shift_reason, sign_of, scale_rsi_thresholds,
}

shift_by-band :
    (shift : ℤ) (oversold overbought : ℕ)
    → oversold ≤ overbought
    → overbought ≤ 100
    → (shift_by shift overbought ≤ 100)
      × (shift_by shift oversold ≤ shift_by shift overbought)
      × (shift_by shift overbought + oversold ≤ overbought + shift_by shift oversold)
unfolding shift_by
shift_by-band (pos n) oversold overbought h k = ground arith
shift_by-band (negsuc n) oversold overbought h k = ground arith

shift_thresholds-band :
    (shift : ℤ) (oversold overbought : ℕ) (why : OverlayReason)
    → oversold ≤ overbought
    → overbought ≤ 100
    → let (new_oversold, new_overbought, decision) =
        shift_thresholds shift oversold overbought why in
      (new_overbought ≤ 100)
      × (new_oversold ≤ new_overbought)
      × (new_overbought + oversold ≤ overbought + new_oversold)
unfolding shift_thresholds
shift_thresholds-band shift oversold overbought why h k =
    ground (arith, shift_by-band shift oversold overbought h k)

module _ {F : Type 0} ⦃fl : Float F⦄ where
  -- Thresholds in order and at most 100 stay in order and at most 100, whatever the trend and the
  -- rounding, and the neutral band between them never gets wider.
  pub scale_rsi-band :
      (round : F → ℤ) (oversold overbought : ℕ) (snapshot : AiTrendSnapshot F)
      (overlay : AiOverlayConfig F)
      → oversold ≤ overbought
      → overbought ≤ 100
      → let (new_oversold, new_overbought, decision) =
          scale_rsi_thresholds round oversold overbought snapshot overlay in
        (new_overbought ≤ 100)
        × (new_oversold ≤ new_overbought)
        × (new_overbought + oversold ≤ overbought + new_oversold)
  unfolding scale_rsi_thresholds
  scale_rsi-band round oversold overbought snapshot overlay h k =
      let shift = round (
        sign_of snapshot.direction
        ⊗ effective_strength snapshot overlay
        ⊗ of_ℕ overlay.rsi_max_shift) in
      ground (
        arith,
        shift_thresholds-band shift oversold overbought (shift_reason snapshot.direction) h k,
      )
