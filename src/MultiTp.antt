-- ===== src/MultiTp.antt =====
-- app/services/sl_tp/multi_tp.py: `MultiTPEngine`. Its state is the position and the order queue. The
-- clock is an argument, `Moment`, one reading for each call; a level's index is a natural number, and
-- a negative one raises as one past the end does. Audit events and the parameter
-- `mark_price_at_dispatch`, which only an audit event reads, are left out, and so are the callbacks of
-- the tasks. A call runs to its end before the next: the lock of its caller is taken as given.
pub mod Shift
pub mod Once
pub mod Events
mod Closes
mod Tests
use adviser_ai_constructor.Prelude.{
  ℕ, suc, ◌+◌, ◌-◌, Bool, true, false, not, ◌&&◌, ◌||◌, Option, none, some, List, [], ◌∷◌, ◌++◌,
  String, ◌==◌, if◌then◌else◌, length, get_elem?, set,
}
use adviser_ai_constructor.Float.{Float, ◌⊖◌, ◌⊗◌, ◌⊘◌, ◌⊏◌, ◌⊑◌, of_ℕ, max_f, abs}
use adviser_ai_constructor.Text.{codes}
use adviser_ai_constructor.StopLoss.{PositionSide, long, short}
use adviser_ai_constructor.Position.Fsm.{
  PositionState, closing, TransitionTrigger, tp_triggered, partial_close, all_closed,
  PositionStateMachine, can_transition, transition,
}
use adviser_ai_constructor.Position.Queue.Task.{
  OrderSide, buy, sell, Value, bool, num, text, order_side, ParamKey, symbol, side, quantity,
  trigger_price, new_trigger_price, new_quantity, full_quantity, existing_order_id, level,
  client_order_id, reduce_only, close_position, reason, Params, Format, new_conditional,
  sl_adjustment, Action, place_tp, replace_sl, OrderTask,
}
use adviser_ai_constructor.Position.Queue.Execute.{LiveReply}
use adviser_ai_constructor.Position.Queue.State.{mem_id, OrderExecutionQueue, enqueue}
use adviser_ai_constructor.MultiTp.Shift.{
  TpLevel, LevelStatus, waiting, open_, triggered, other_status, TpHistoryEntry, TpPosition,
  SlShift, skipped, moved, decide_shift,
}

-- `time.time()`, the same in milliseconds as a text, `datetime.now(UTC).isoformat()`, and the reason
-- of a partial close, which holds the printed quantity.
pub record Moment (F : Type 0) : Type 0 where
  pub now : F
  pub stamp : List ℕ
  pub iso : String
  pub partial_reason : String

-- The status is in `{"pending", "open"}`.
abbrev is_remaining : LevelStatus → Bool
is_remaining waiting = true
is_remaining open_ = true
is_remaining _ = false

abbrev pub is_triggered : LevelStatus → Bool
is_triggered triggered = true
is_triggered _ = false

-- `_tp_order_side`, and the closing side of a stop-loss
abbrev pub closing_side : PositionSide → OrderSide
closing_side short = buy
closing_side _ = sell

any_remaining : {F : Type 0} → List (TpLevel F) → Bool
any_remaining [] = false
any_remaining (l ∷ levels) = if is_remaining l.status then true else any_remaining levels

-- `machine.transition(...)` behind a test that it can
try_transition : String → TransitionTrigger → String → PositionStateMachine → PositionStateMachine
try_transition now trigger why m = elim (transition now trigger why m) [
  | none ↦ m
  | some next ↦ next
]

abbrev is_closing : PositionState → Bool
is_closing closing = true
is_closing _ = false

transition_partial_close : String → String → PositionStateMachine → PositionStateMachine
unfolding try_transition
transition_partial_close now why m =
    if can_transition partial_close m
    then (let m' = try_transition now partial_close why m in
        if is_closing m'.state then try_transition now partial_close why m' else m')
    else if can_transition tp_triggered m
    then try_transition now partial_close why (try_transition now tp_triggered why m)
    else m

transition_all_closed : String → PositionStateMachine → PositionStateMachine
unfolding try_transition
transition_all_closed now m =
    let why : String = "All TP levels completed" in
    let m' = try_transition now tp_triggered why m in
    if can_transition all_closed m
    then try_transition now all_closed why m
    else if can_transition all_closed m'
    then try_transition now all_closed why m'
    else if can_transition partial_close m'
    then try_transition now all_closed why (try_transition now partial_close why m')
    else m'

-- `or ""` and `or "active-sl"`
text_or : Option (List ℕ) → List ℕ → List ℕ
text_or none default = default
text_or (some []) default = default
text_or (some (c ∷ t)) default = c ∷ t

module _ {F : Type 0} ⦃fl : Float F⦄ ⦃py : Format F⦄ where
  -- `_build_client_order_id`
  client_id : TpPosition F → List ℕ → List ℕ → List ℕ
  client_id position kind stamp = position.position_id ++ (b'-' ∷ (kind ++ (b'-' ∷ stamp)))

  -- The parameters of a placement; `index` is the text of the level's index and one.
  place_params : Moment F → TpPosition F → List ℕ → TpLevel F → Params F
  unfolding client_id
  place_params moment position index l level = some (num (of_ℕ l.level))
  place_params moment position index l symbol = some (text position.symbol)
  place_params moment position index l side = some (order_side (closing_side position.side))
  place_params moment position index l quantity =
      some (num (position.original_quantity ⊗ (l.close_pct ⊘ of_ℕ 100)))
  place_params moment position index l trigger_price = some (num l.trigger_price)
  place_params moment position index l client_order_id =
      some (text (client_id position (codes "tp-l" ++ index) moment.stamp))
  place_params moment position index l reduce_only = some (bool true)
  place_params moment position index l _ = none

  place_task : Moment F → TpPosition F → List ℕ → TpLevel F → OrderTask F
  unfolding place_params
  place_task moment position index l = record {
    priority = new_conditional;
    created_at = moment.now;
    position_id = position.position_id;
    action = place_tp;
    params = place_params moment position index l;
    retry_count = 0;
    max_retries = 3;
  }

  -- The loop of `initialize_tp_levels` from the index `i`; `decimal` is `str` of an int.
  place_levels :
      (ℕ → List ℕ)
      → Moment F
      → TpPosition F
      → ℕ
      → List (TpLevel F)
      → OrderExecutionQueue F
      → OrderExecutionQueue F
  unfolding place_task
  place_levels decimal moment position i [] q = q
  place_levels decimal moment position i (l ∷ levels) q =
      place_levels decimal moment position (i + 1) levels (elim l.status [
        | waiting ↦ enqueue (place_task moment position (decimal (i + 1)) l) q
        | _ ↦ q
      ])

  pub initialize_tp_levels :
      (ℕ → List ℕ) → Moment F → TpPosition F → OrderExecutionQueue F → OrderExecutionQueue F
  unfolding place_levels
  initialize_tp_levels decimal moment position q =
      place_levels decimal moment position 0 position.tp_levels q

  -- `_enqueue_sl_replace`
  replace_params : (ℕ → List ℕ) → Moment F → TpPosition F → ℕ → F → Params F
  unfolding client_id text_or
  replace_params decimal moment position i price symbol = some (text position.symbol)
  replace_params decimal moment position i price existing_order_id =
      some (text (text_or position.sl_exchange_order_id (codes "active-sl")))
  replace_params decimal moment position i price new_trigger_price = some (num price)
  replace_params decimal moment position i price trigger_price = some (num price)
  replace_params decimal moment position i price new_quantity = some (num position.current_quantity)
  replace_params decimal moment position i price full_quantity =
      some (num position.current_quantity)
  replace_params decimal moment position i price side =
      some (order_side (closing_side position.side))
  replace_params decimal moment position i price client_order_id =
      some (text (client_id position (codes "sl") moment.stamp))
  replace_params decimal moment position i price close_position = some (bool true)
  replace_params decimal moment position i price reason =
      some (text (codes "tp" ++ (decimal (i + 1) ++ codes "_hit_sl_adjustment")))
  replace_params decimal moment position i price _ = none

  unfoldable pub replace_task : (ℕ → List ℕ) → Moment F → TpPosition F → ℕ → F → OrderTask F
  unfolding replace_params
  replace_task decimal moment position i price = record {
    priority = sl_adjustment;
    created_at = moment.now;
    position_id = position.position_id;
    action = replace_sl;
    params = replace_params decimal moment position i price;
    retry_count = 0;
    max_retries = 3;
  }

  -- `position.current_quantity` less what the level closes: on the last level, all.
  close_qty : Bool → TpPosition F → TpLevel F → F
  close_qty true position l = position.current_quantity
  close_qty false position l = position.original_quantity ⊗ (l.close_pct ⊘ of_ℕ 100)

  remaining_quantity : F → F → F
  remaining_quantity current closed =
      let rest = current ⊖ closed in
      max_f (if (rest ⊏ of_ℕ 0) && (abs rest ⊑ fl.ratio 1 1000000000) then of_ℕ 0 else rest)
        (of_ℕ 0)

  history_entry : Moment F → ℕ → TpLevel F → TpHistoryEntry F
  unfolding text_or
  history_entry moment i l = record {
    timestamp = moment.iso;
    tp_level = i;
    old_price = l.trigger_price;
    new_price = l.trigger_price;
    close_pct = l.close_pct;
    exchange_order_id = text_or l.exchange_order_id [];
  }

  abbrev pub is_last_level : ℕ → TpPosition F → Bool
  is_last_level i position = suc i == length position.tp_levels

  -- Up to the move of the stop-loss: the level is dispatched and triggered, and its part is closed.
  pub fill : Moment F → ℕ → TpLevel F → TpPosition F → TpPosition F
  unfolding close_qty remaining_quantity history_entry
  fill moment i l position = record position {
    dispatched_sl_levels = position.dispatched_sl_levels ++ i ∷ [];
    current_quantity =
        remaining_quantity position.current_quantity
          (close_qty (is_last_level i position) position l);
    tp_history = position.tp_history ++ history_entry moment i l ∷ [];
    tp_levels = set position.tp_levels i (record l { status = triggered });
  }

  -- The queue after `_dispatch_sl_shift`
  pub dispatch_sl_shift :
      (ℕ → List ℕ)
      → Moment F
      → ℕ
      → TpLevel F
      → LiveReply F
      → TpPosition F
      → OrderExecutionQueue F
      → OrderExecutionQueue F
  unfolding replace_task
  dispatch_sl_shift decimal moment i l live position q =
      elim (decide_shift (is_last_level i position) l live position) [
        | skipped why ↦ q
        | moved price ↦ enqueue (replace_task decimal moment position i price) q
      ]

  pub advance : Moment F → TpPosition F → TpPosition F
  unfolding any_remaining transition_all_closed transition_partial_close
  advance moment position =
      let m =
        if not (any_remaining position.tp_levels) || (position.current_quantity ⊑ of_ℕ 0)
        then transition_all_closed moment.iso position.state_machine
        else transition_partial_close moment.iso moment.partial_reason position.state_machine in
      record position { state_machine = m; state = m.state }

  -- `handle_tp_triggered`: `none` for its IndexError.
  pub handle_tp_triggered :
      (ℕ → List ℕ)
      → Moment F
      → ℕ
      → LiveReply F
      → TpPosition F × OrderExecutionQueue F
      → Option (TpPosition F × OrderExecutionQueue F)
  unfolding fill dispatch_sl_shift advance
  handle_tp_triggered decimal moment i live (position, q) = elim (get_elem? position.tp_levels i) [
    | none ↦ none
    | some l ↦ some (
        if is_triggered l.status || mem_id i position.dispatched_sl_levels then (position, q) else (
          advance moment (fill moment i l position),
          dispatch_sl_shift decimal moment i l live (fill moment i l position) q,
        ))
  ]
