-- ===== src/Overlay.antt =====
-- app/services/auto_trade/ai_overlay/scaler.py: how the trend that the AI sees blocks an entry and
-- scales the ATR multiplier of a stop. Its child Rsi has the scaling of the RSI thresholds.
pub mod Rsi
mod Bounds
mod Tests
use adviser_ai_constructor.Prelude.{ℕ, Bool, true, false, not, ◌&&◌, ◌||◌, if◌then◌else◌}
use adviser_ai_constructor.Float.{Float, ◌⊕◌, ◌⊖◌, ◌⊗◌, ◌⊏◌, ◌⊑◌, ◌≐◌, of_ℕ, max_f, min_f}

pub data TrendDirection : Type 0 where
  up down flat : TrendDirection

pub data OverlaySide : Type 0 where
  long short : OverlaySide

-- app/schemas/ai_overlay.py: the fields that are read here, the scale range as its two ends
pub record AiTrendSnapshot (F : Type 0) : Type 0 where
  pub direction : TrendDirection
  pub strength : F

pub record AiOverlayConfig (F : Type 0) : Type 0 where
  pub enabled : Bool
  pub entry_side_lock_enabled : Bool
  pub atr_scaling_enabled : Bool
  pub min_strength : F
  pub atr_scale_low : F
  pub atr_scale_high : F
  pub rsi_scaling_enabled : Bool
  pub rsi_max_shift : ℕ

pub data OverlayReason : Type 0 where
  overlay_disabled below_min_strength_or_flat no_op : OverlayReason
  ai_trend_up_blocks_short ai_trend_down_blocks_long side_aligned_with_ai_trend : OverlayReason
  trend_aligned_widen trend_opposed_tighten : OverlayReason
  shift_rounded_to_zero clamped_no_op trend_up_shift trend_down_shift : OverlayReason

pub record OverlayDecision : Type 0 where
  pub changed : Bool
  pub reason : OverlayReason

abbrev pub unchanged : OverlayReason → OverlayDecision
unchanged why = record { changed = false; reason = why }

-- The side that the direction speaks for.
abbrev pub is_aligned : TrendDirection → OverlaySide → Bool
is_aligned up long = true
is_aligned down short = true
is_aligned _ _ = false

side_verdict : TrendDirection → OverlaySide → Bool × OverlayReason
side_verdict up short = (true, ai_trend_up_blocks_short)
side_verdict down long = (true, ai_trend_down_blocks_long)
side_verdict _ _ = (false, side_aligned_with_ai_trend)

scale_reason : Bool → OverlayReason
scale_reason true = trend_aligned_widen
scale_reason false = trend_opposed_tighten

module _ {F : Type 0} ⦃fl : Float F⦄ where
  pub effective_strength : AiTrendSnapshot F → AiOverlayConfig F → F
  effective_strength snapshot overlay = elim snapshot.direction [
    | flat ↦ of_ℕ 0
    | up ↦ if snapshot.strength ⊏ overlay.min_strength then of_ℕ 0 else snapshot.strength
    | down ↦ if snapshot.strength ⊏ overlay.min_strength then of_ℕ 0 else snapshot.strength
  ]

  pub should_block_entry :
      OverlaySide → AiTrendSnapshot F → AiOverlayConfig F → Bool × OverlayReason
  unfolding effective_strength side_verdict
  should_block_entry side snapshot overlay =
      if not overlay.enabled || not overlay.entry_side_lock_enabled
      then (false, overlay_disabled)
      else if effective_strength snapshot overlay ⊑ of_ℕ 0
      then (false, below_min_strength_or_flat)
      else side_verdict snapshot.direction side

  factor_of : Bool → F → AiOverlayConfig F → F
  factor_of true effective overlay = of_ℕ 1 ⊕ (effective ⊗ (overlay.atr_scale_high ⊖ of_ℕ 1))
  factor_of false effective overlay = of_ℕ 1 ⊖ (effective ⊗ (of_ℕ 1 ⊖ overlay.atr_scale_low))

  -- `max(base * low, min(base * high, scaled))`
  clamp : F → AiOverlayConfig F → F → F
  clamp base overlay scaled =
      max_f (base ⊗ overlay.atr_scale_low) (min_f (base ⊗ overlay.atr_scale_high) scaled)

  settle_scale : F → F → OverlayReason → F × OverlayDecision
  settle_scale base scaled why =
      if scaled ≐ base
      then (base, unchanged no_op)
      else (scaled, record { changed = true; reason = why })

  pub scale_atr_multiplier :
      F → AiTrendSnapshot F → AiOverlayConfig F → OverlaySide → F × OverlayDecision
  unfolding effective_strength factor_of clamp settle_scale scale_reason
  scale_atr_multiplier base snapshot overlay side =
      let effective = effective_strength snapshot overlay in
      let aligned = is_aligned snapshot.direction side in
      if not overlay.enabled || not overlay.atr_scaling_enabled
      then (base, unchanged overlay_disabled)
      else if effective ⊑ of_ℕ 0
      then (base, unchanged below_min_strength_or_flat)
      else settle_scale base (clamp base overlay (base ⊗ factor_of aligned effective overlay))
          (scale_reason aligned)
