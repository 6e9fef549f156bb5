-- ===== src/Watchers/Bus/Tests.antt =====
-- A stop at 90 that an event tightens to 97.
use adviser_ai_constructor.Prelude.{◌≡◌, refl, true, false, none, some, [], ◌∷◌}
use adviser_ai_constructor.Float.{of_ℕ}
use adviser_ai_constructor.Float.Fixed.{ℤ, fixed}
use adviser_ai_constructor.Text.{codes, text_eq}
use adviser_ai_constructor.StopLoss.{long, trailing}
use adviser_ai_constructor.Position.Fsm.{open_}
use adviser_ai_constructor.Position.Queue.Task.{
  num as task_num, Format, sl_adjustment, replace_sl, OrderTask,
}
use adviser_ai_constructor.Position.Queue.Execute.{execute_task, snapshot}
use adviser_ai_constructor.Position.Queue.Execute.Emergency.{places}
use adviser_ai_constructor.Position.Queue.Loop.{emergency_task}
use adviser_ai_constructor.Signal.{num, empty, field, get_field}
use adviser_ai_constructor.LiveTracker.{Tracked}
use adviser_ai_constructor.Watchers.{to_number}
use adviser_ai_constructor.Watchers.Bus.{
  WatcherEvent, tighten_sl, Stamp, compute_tightened_sl, sl_params, new_task, move_stop, tighten_by,
  tighten, handle_watcher_event,
}
use adviser_ai_constructor.Watchers.Bus.Orders.{
  safe_params, handle_watcher_event-safe, watcher_stop-unescalated,
}

-- A stand-in for the formats of Python, which reads no text as a number.
instance abbrev plain_format : Format ℤ
plain_format = record {
  format_10g = λ x. codes "?";
  show = λ v. codes "?";
  parse_float = λ t. none;
}

abbrev position : Tracked ℤ
position = record {
  position_id = codes "7";
  symbol = codes "BTC";
  state = open_;
  context = record {
    side = long;
    entry_price = of_ℕ 100;
    current_sl_price = of_ℕ 90;
    trailing_enabled = false;
    trailing_callback_rate = none;
    trailing_highest_price = none;
    trailing_lowest_price = none;
    breakeven_enabled = false;
    breakeven_trigger_rr = of_ℕ 1;
    breakeven_activated = false;
    volatility_sl_enabled = false;
    volatility_atr_multiplier = of_ℕ 2;
    volatility_last_atr = none;
    adjustment_priority = trailing ∷ [];
  };
  volatility_atr_period = 14;
  sl_exchange_order_id = codes "sl-1";
  current_quantity = of_ℕ 1;
  kill_switch_enabled = false;
  kill_switch_cooldown_seconds = none;
  kill_switch_atr_spike_mult = none;
  kill_switch_atr_period = none;
  kill_switch_price_move_pct = none;
}

abbrev event : WatcherEvent ℤ
event = record {
  position_id = codes "7";
  indicator = codes "RSI";
  condition = codes "> 70";
  current_value = num (of_ℕ 80);
  action = tighten_sl;
  action_params = field (codes "current_atr") (num (of_ℕ 2)) empty;
  market_price = none;
}

abbrev at : Stamp ℤ
at = record { now = of_ℕ 5; millis = codes "5000" }

-- The mark price is not positive, so the entry price of 100 counts.
abbrev moved : OrderTask ℤ
moved = new_task at position sl_adjustment replace_sl (sl_params at event position (of_ℕ 97))

event-moves : handle_watcher_event true at (some (of_ℕ 0)) event position ≡ some moved
unfolding handle_watcher_event tighten tighten_by move_stop compute_tightened_sl new_task get_field
    to_number text_eq
event-moves = refl

handle_watcher_event-safe_example : safe_params position moved.action moved.params ≡ true
handle_watcher_event-safe_example =
    handle_watcher_event-safe true at (some (of_ℕ 0)) event position moved event-moves

watcher_stop-unescalated_example :
    places (
      execute_task
        (emergency_task (of_ℕ 9) (codes "failed") moved)
        (codes "e")
        (snapshot (task_num (of_ℕ 1))))
    ≡ false
unfolding new_task
watcher_stop-unescalated_example =
    watcher_stop-unescalated true at (some (of_ℕ 0)) event position moved (of_ℕ 9) (codes "failed")
      (codes "e") (snapshot (task_num (of_ℕ 1))) event-moves refl
