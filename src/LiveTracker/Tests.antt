-- ===== src/LiveTracker/Tests.antt =====
-- A tick at a concrete price, for a long with a trailing stop.
use adviser_ai_constructor.Prelude.{
  ℕ, ◌≡◌, inl, refl, true, false, Option, none, some, List, [], ◌∷◌,
}
use adviser_ai_constructor.Float.{of_ℕ}
use adviser_ai_constructor.Float.Fixed.{ℤ, fixed, fixed-IsOrdered}
use adviser_ai_constructor.Text.{codes, text_eq}
use adviser_ai_constructor.StopLoss.{
  long, trailing, set_highest, SlAdjustmentResult, adjusted, PositionContext, evaluate,
}
use adviser_ai_constructor.Position.Fsm.{open_}
use adviser_ai_constructor.Position.Queue.Task.{Value, num, bool, text, Format}
use adviser_ai_constructor.LiveTracker.{
  KlineEvent, open_time, timestamp, open_price, high, low, close, volume, is_closed, Bar, Tracked,
  RealtimeSlAdjuster, Environment, cooldown_elapsed, evaluate_pipeline, tick_position,
  tick_positions,
}
use adviser_ai_constructor.LiveTracker.Ticks.{
  IsProtected, tick_position-throttles, tick_positions-protects,
}
use adviser_ai_constructor.LiveTracker.Unsent.{LaterTick, later_ticks, tick_position-unsent}

abbrev print_value : Value ℤ → List ℕ
print_value (text t) = t
print_value _ = codes "?"

-- A stand-in for the formats of Python, which reads no text as a number.
instance abbrev plain_format : Format ℤ
plain_format = record { format_10g = λ x. codes "?"; show = print_value; parse_float = λ t. none }

abbrev to_int : Value ℤ → Option ℤ
to_int (num x) = some x
to_int _ = none

-- A stand-in for what the adjuster calls: no ATR, and a handler that does nothing.
abbrev quiet : Environment ℤ
quiet = record {
  to_int = to_int;
  atr_of = λ period bars. [];
  mean = λ xs. of_ℕ 0;
  client_order_id_factory = λ id kind. id;
  kill_switch_handler = λ p signal. p;
}

abbrev adjuster : RealtimeSlAdjuster ℤ
adjuster = record {
  symbol = codes "BTC";
  buffer_bars = 2;
  throttle_seconds = of_ℕ 3;
  has_handler = true;
  buffer = [];
  last_adjustment_at = λ id. none;
  last_kill_switch_at = λ id. none;
}

-- Entry 100, stop 90, trailing at 5 per cent.
abbrev context : PositionContext ℤ
context = record {
  side = long;
  entry_price = of_ℕ 100;
  current_sl_price = of_ℕ 90;
  trailing_enabled = true;
  trailing_callback_rate = some (of_ℕ 5);
  trailing_highest_price = none;
  trailing_lowest_price = none;
  breakeven_enabled = false;
  breakeven_trigger_rr = of_ℕ 1;
  breakeven_activated = false;
  volatility_sl_enabled = false;
  volatility_atr_multiplier = of_ℕ 2;
  volatility_last_atr = none;
  adjustment_priority = trailing ∷ [];
}

abbrev trailed : Tracked ℤ
trailed = record {
  position_id = codes "7";
  symbol = codes "BTC";
  state = open_;
  context = context;
  volatility_atr_period = 14;
  sl_exchange_order_id = codes "sl-1";
  current_quantity = of_ℕ 1;
  kill_switch_enabled = false;
  kill_switch_cooldown_seconds = none;
  kill_switch_atr_spike_mult = none;
  kill_switch_atr_period = none;
  kill_switch_price_move_pct = none;
}

abbrev unprotected : Tracked ℤ
unprotected = record trailed { sl_exchange_order_id = [] }

abbrev event : KlineEvent ℤ
event open_time = some (num (of_ℕ 60))
event timestamp = none
event open_price = some (num (of_ℕ 119))
event high = some (num (of_ℕ 121))
event low = some (num (of_ℕ 118))
event close = some (num (of_ℕ 120))
event volume = none
event is_closed = some (bool true)

abbrev bar : Bar ℤ
bar = record {
  open_time = of_ℕ 60;
  open_price = of_ℕ 119;
  high = of_ℕ 121;
  low = of_ℕ 118;
  close = of_ℕ 120;
  volume = of_ℕ 0;
  is_closed = true;
}

-- The stop moves to 114.
abbrev raised : SlAdjustmentResult ℤ
raised = adjusted (of_ℕ 114) trailing (set_highest (of_ℕ 120))

tick_position-throttles_example :
    let s' = (tick_position quiet (of_ℕ 10) (of_ℕ 120) adjuster trailed).0 in
    let p' = (tick_position quiet (of_ℕ 10) (of_ℕ 120) adjuster trailed).1 in
    (p'.context.current_sl_price ≡ of_ℕ 114)
    × (tick_position quiet (of_ℕ 12) (of_ℕ 130) s' p' ≡ (s', p', []))
unfolding evaluate_pipeline evaluate cooldown_elapsed text_eq
tick_position-throttles_example =
    tick_position-throttles quiet (of_ℕ 10) (of_ℕ 12) (of_ℕ 120) (of_ℕ 130) adjuster trailed raised
      refl refl refl refl

tick_positions-protects_example :
    IsProtected
      (trailed ∷ unprotected ∷ [])
      (tick_positions quiet (of_ℕ 10) (of_ℕ 120) [] adjuster (trailed ∷ unprotected ∷ [])).1
tick_positions-protects_example =
    tick_positions-protects quiet fixed-IsOrdered (of_ℕ 10) (of_ℕ 120) [] adjuster
      (trailed ∷ unprotected ∷ []) refl (inl refl, (inl refl, tt))

abbrev later : List (LaterTick ℤ)
later =
    record { now = of_ℕ 20; price = of_ℕ 119; adjuster = adjuster; order = [] }
    ∷ record { now = of_ℕ 30; price = of_ℕ 120; adjuster = adjuster; order = codes "sl-2" }
    ∷ []

tick_position-unsent_example :
    let p' = (tick_position quiet (of_ℕ 10) (of_ℕ 120) adjuster unprotected).1 in
    (p'.context.current_sl_price ≡ of_ℕ 114)
    × ((tick_position quiet (of_ℕ 10) (of_ℕ 120) adjuster unprotected).2 ≡ [])
    × ((later_ticks quiet later p').0.context.current_sl_price ≡ of_ℕ 114)
    × ((later_ticks quiet later p').1 ≡ [])
unfolding evaluate_pipeline evaluate cooldown_elapsed text_eq
tick_position-unsent_example =
    tick_position-unsent quiet fixed-IsOrdered (of_ℕ 10) (of_ℕ 120) adjuster unprotected raised
      later (refl, refl, refl) refl (refl, (refl, tt)) refl refl refl refl
