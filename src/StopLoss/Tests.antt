-- ===== src/StopLoss/Tests.antt =====
-- Stops at concrete prices: a long of entry 100 whose trailing stop stands at 114.
use adviser_ai_constructor.Prelude.{
  ◌≡◌, refl, true, false, inl, inr, some, none, List, ◌∷◌, [], Member,
}
use adviser_ai_constructor.Float.Fixed.{ℤ, pos, fixed, fixed-IsOrdered}
use adviser_ai_constructor.StopLoss.{
  long, Source, watcher, trailing, breakeven, volatility, SlAdjustmentResult, set_highest,
  PositionContext, adjusted, evaluate, evaluate_source, evaluate_trailing, evaluate_volatility,
  adjust, Tick, on_ticks, trail, or_price, raise_to,
}
use adviser_ai_constructor.StopLoss.Order.{is_tighter, is_no_looser}
use adviser_ai_constructor.StopLoss.Strongest.{evaluate-strongest}
use adviser_ai_constructor.StopLoss.Protects.{on_ticks-protects, breakeven-loosens}

abbrev usd : ℤ
usd = pos 1000000000

-- Trailing at 5 per cent, with the high at 120, and breakeven at a ratio of 1.
abbrev trailed : PositionContext ℤ
trailed = record {
  side = long;
  entry_price = pos 100000000000;
  current_sl_price = pos 114000000000;
  trailing_enabled = true;
  trailing_callback_rate = some (pos 5000000000);
  trailing_highest_price = some (pos 120000000000);
  trailing_lowest_price = none;
  breakeven_enabled = true;
  breakeven_trigger_rr = usd;
  breakeven_activated = false;
  volatility_sl_enabled = false;
  volatility_atr_multiplier = pos 2000000000;
  volatility_last_atr = none;
  adjustment_priority = watcher ∷ trailing ∷ breakeven ∷ volatility ∷ [];
}

abbrev trailing_only : PositionContext ℤ
trailing_only = record trailed { breakeven_enabled = false }

-- The price is 116: the stop falls from 114 to 100.
breakeven-loosens_example :
    ((adjust (pos 116000000000) none trailed).current_sl_price ≡ pos 100000000000)
    × (is_tighter long (adjust (pos 116000000000) none trailed).current_sl_price (pos 114000000000)
        ≡ true)
unfolding evaluate_trailing trail or_price raise_to evaluate_volatility
breakeven-loosens_example =
    breakeven-loosens (pos 116000000000) none trailed refl refl refl refl refl refl refl refl refl

abbrev ticks : List (Tick ℤ)
ticks = (pos 130000000000, none) ∷ (pos 90000000000, some usd) ∷ []

on_ticks-protects_example :
    is_no_looser long (pos 114000000000) (on_ticks ticks trailing_only).current_sl_price ≡ true
on_ticks-protects_example = on_ticks-protects fixed-IsOrdered ticks trailing_only (inl refl)

abbrev new_high : SlAdjustmentResult ℤ
new_high = adjusted (pos 123500000000) trailing (set_highest (pos 130000000000))

evaluate-strongest_example :
    ((from : Source) × (Member from trailing_only.adjustment_priority)
      × (evaluate_source from trailing_only (pos 130000000000) none ≡ some new_high))
    × (is_no_looser long new_high.new_sl_price new_high.new_sl_price ≡ true)
unfolding evaluate evaluate_source evaluate_trailing
evaluate-strongest_example =
    evaluate-strongest fixed-IsOrdered trailing_only (pos 130000000000) none new_high refl trailing
      new_high (inr (inl refl)) refl
