-- ===== src/MultiTp/Tests.antt =====
-- The engine at a concrete input: a long position of ten with two levels.
use adviser_ai_constructor.Prelude.{ℕ, ◌+◌, ◌≡◌, inl, refl, true, none, some, List, [], ◌∷◌}
use adviser_ai_constructor.Float.{◌⊑◌, of_ℕ}
use adviser_ai_constructor.Float.Fixed.{ℤ, fixed, fixed-IsOrdered, fixed-IsCancelling}
use adviser_ai_constructor.Text.{codes}
use adviser_ai_constructor.StopLoss.{long}
use adviser_ai_constructor.Position.Fsm.{open_, closed}
use adviser_ai_constructor.Position.Queue.Task.{Value, num, text, Format}
use adviser_ai_constructor.Position.Queue.Execute.{raised, snapshot, LiveReply}
use adviser_ai_constructor.Position.Queue.State.{mem_id, OrderExecutionQueue, empty}
use adviser_ai_constructor.MultiTp.Shift.{TpLevel, waiting, TpPosition}
use adviser_ai_constructor.MultiTp.{Moment, fill, advance, dispatch_sl_shift, handle_tp_triggered}
use adviser_ai_constructor.Position.Queue.State.Dict.{IsOnce}
use adviser_ai_constructor.MultiTp.Once.{levels_of, handle-fresh}
use adviser_ai_constructor.MultiTp.Events.Final.{handle_tp_triggered-final}
use adviser_ai_constructor.MultiTp.Events.{TpEvent, run_events, run_events-IsOnce}
use adviser_ai_constructor.MultiTp.Closes.{handle-last_level}

-- A whole number, in units of one billionth.
abbrev whole : ℕ → ℤ
whole n = of_ℕ n

abbrev print_value : Value ℤ → List ℕ
print_value (text t) = t
print_value _ = codes "?"

-- A stand-in for the formats of Python, which reads no text as a number.
instance abbrev plain_format : Format ℤ
plain_format = record { format_10g = λ x. codes "?"; show = print_value; parse_float = λ t. none }

abbrev decimal : ℕ → List ℕ
decimal n = (b'0' + n) ∷ []

abbrev moment : Moment ℤ
moment = record { now = whole 1; stamp = codes "1000"; iso = "now"; partial_reason = "partial" }

abbrev level_at : ℕ → ℕ → List ℕ → TpLevel ℤ
level_at n price move_sl_to = record {
  level = n;
  close_pct = whole 50;
  trigger_price = whole price;
  status = waiting;
  exchange_order_id = none;
  move_sl_to = some move_sl_to;
  sl_lock_pct = none;
}

abbrev first_level : TpLevel ℤ
first_level = level_at 1 110 (codes "breakeven")

abbrev two_levels : TpPosition ℤ
two_levels = record {
  position_id = codes "7";
  symbol = codes "BTC";
  side = long;
  entry_price = whole 100;
  original_quantity = whole 10;
  current_quantity = whole 10;
  current_sl_price = whole 90;
  sl_exchange_order_id = none;
  tp_levels = first_level ∷ level_at 2 120 (codes "tp1") ∷ [];
  tp_history = [];
  dispatched_sl_levels = [];
  state_machine = record {
    position_id = "7";
    state = open_;
    pre_reconnect_state = none;
    transition_log = [];
  };
  state = open_;
}

abbrev one_level : TpPosition ℤ
one_level = record two_levels { tp_levels = first_level ∷ [] }

abbrev live : LiveReply ℤ
live = snapshot (num (whole 10))

abbrev filled : TpPosition ℤ × OrderExecutionQueue ℤ
filled = (
  advance moment (fill moment 0 first_level two_levels),
  dispatch_sl_shift decimal moment 0 first_level live (fill moment 0 first_level two_levels) empty,
)

abbrev events : List (TpEvent ℤ)
events = (moment, 0, live) ∷ (moment, 0, live) ∷ (moment, 1, raised) ∷ []

handle_tp_triggered-final_example :
    handle_tp_triggered decimal moment 0 live (run_events decimal events filled)
    ≡ some (run_events decimal events filled)
unfolding mem_id
handle_tp_triggered-final_example =
    handle_tp_triggered-final decimal moment moment 0 live live events two_levels filled.0 empty
      filled.1 (handle-fresh decimal moment 0 live two_levels empty first_level refl refl)

run_events-IsOnce_example :
    let p' = (run_events decimal events (two_levels, empty)).0 in
    (IsOnce (levels_of p'.tp_history)) × ((of_ℕ 0 ⊑ p'.current_quantity) ≡ true)
run_events-IsOnce_example =
    run_events-IsOnce decimal fixed-IsOrdered events two_levels empty refl refl

handle-last_level_example :
    (p' : TpPosition ℤ) × (handle_tp_triggered decimal moment 0 live (one_level, empty)
      ≡ some (p', empty))
    × (p'.current_quantity ≡ of_ℕ 0)
    × (p'.state ≡ closed)
unfolding mem_id
handle-last_level_example =
    handle-last_level decimal fixed-IsOrdered fixed-IsCancelling moment 0 live one_level empty
      first_level refl refl refl (inl refl)
