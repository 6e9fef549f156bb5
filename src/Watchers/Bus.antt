-- ===== src/Watchers/Bus.antt =====
-- app/services/watchers/event_bus.py and service.py: the handler of the event bus. What the database,
-- Redis and the exchange answer is an argument; the notification of an alert is left out.
mod Orders
mod Tests
use adviser_ai_constructor.Prelude.{
  ℕ, Bool, true, ◌||◌, Option, none, some, List, [], ◌∷◌, ◌++◌, if◌then◌else◌,
}
use adviser_ai_constructor.Float.{Float, ◌⊕◌, ◌⊖◌, ◌⊗◌, ◌⊘◌, ◌⊏◌, ◌⊑◌, of_ℕ, min_f}
use adviser_ai_constructor.Text.{codes, text_eq}
use adviser_ai_constructor.StopLoss.{PositionSide, long, short, both, PositionContext}
use adviser_ai_constructor.Position.Queue.Task.{
  OrderSide, buy, sell, num, text, order_side, ParamKey, symbol, side, quantity, existing_order_id,
  new_trigger_price, new_quantity, client_order_id, reason, Params, Format, sl_adjustment,
  partial_close_priority, Action, replace_sl, partial_close, OrderPriority, OrderTask,
}
use adviser_ai_constructor.Signal.{Json, null, bool, object, Fields, empty, field, get_field}
use adviser_ai_constructor.LiveTracker.{Tracked}
use adviser_ai_constructor.Watchers.{to_number}

pub data WatcherAction : Type 0 where
  tighten_sl close_partial alert : WatcherAction
  unsupported : List ℕ → WatcherAction

pub record WatcherEvent (F : Type 0) : Type 0 where
  pub position_id : List ℕ
  pub indicator : List ℕ
  pub condition : List ℕ
  pub current_value : Json F
  pub action : WatcherAction
  pub action_params : Fields F
  pub market_price : Option F

-- `time.time()`, and the same in milliseconds as a text
pub record Stamp (F : Type 0) : Type 0 where
  pub now : F
  pub millis : List ℕ

-- `_claim_trigger`: the ttl is positive, and Redis has claimed the key, has it already, or fails.
pub claim_trigger : Bool → Option Bool → Bool
claim_trigger true (some claimed) = claimed
claim_trigger _ _ = true

-- `_closing_order_side`
pub closing_order_side : PositionSide → OrderSide
closing_order_side short = buy
closing_order_side _ = sell

module _ {F : Type 0} ⦃fl : Float F⦄ where
  first_positive : List (Option F) → Option F
  first_positive [] = none
  first_positive (none ∷ candidates) = first_positive candidates
  first_positive (some x ∷ candidates) =
      let rest = first_positive candidates in if of_ℕ 0 ⊏ x then some x else rest

  -- `_coerce_float` of `params.get(key, default)`: a bool prints as a word that is no number.
  coerce_float : ⦃py : Format F⦄ → F → Json F → F
  unfolding to_number
  coerce_float default (bool b) = default
  coerce_float default v = elim (to_number v) [ none ↦ default | some x ↦ x ]

  pub compute_tightened_sl : Tracked F → F → F → F → Option F
  compute_tightened_sl p current atr multiplier =
      if (atr ⊑ of_ℕ 0) || (multiplier ⊑ of_ℕ 0) then none else elim p.context.side [
        | short ↦
            let candidate = current ⊕ (atr ⊗ multiplier) in
            if p.context.current_sl_price ⊑ candidate then none else some candidate
        | long ↦
            let candidate = current ⊖ (atr ⊗ multiplier) in
            if candidate ⊑ p.context.current_sl_price then none else some candidate
        | both ↦
            let candidate = current ⊖ (atr ⊗ multiplier) in
            if candidate ⊑ p.context.current_sl_price then none else some candidate
      ]

  positive_or : Option F → F → F
  positive_or none default = default
  positive_or (some x) default = if of_ℕ 0 ⊏ x then x else default

  -- `resolve_current_price`, of the mark price of the snapshot
  resolve_current_price : Tracked F → Option F → F
  unfolding positive_or
  resolve_current_price p mark = positive_or mark p.context.entry_price

  client_id : Stamp F → Tracked F → List ℕ → List ℕ
  client_id at p kind = p.position_id ++ (b'-' ∷ (kind ++ (b'-' ∷ at.millis)))

  why : WatcherEvent F → List ℕ
  why event = codes "indicator:" ++ (event.indicator ++ (b':' ∷ event.condition))

  sl_params : Stamp F → WatcherEvent F → Tracked F → F → Params F
  unfolding client_id why
  sl_params at event p new_sl symbol = some (text p.symbol)
  sl_params at event p new_sl existing_order_id = some (text p.sl_exchange_order_id)
  sl_params at event p new_sl new_trigger_price = some (num new_sl)
  sl_params at event p new_sl new_quantity = some (num p.current_quantity)
  sl_params at event p new_sl client_order_id = some (text (client_id at p (codes "watcher-sl")))
  sl_params at event p new_sl reason = some (text (why event))
  sl_params at event p new_sl _ = none

  close_params : Stamp F → WatcherEvent F → Tracked F → F → Params F
  unfolding client_id why closing_order_side
  close_params at event p close_qty symbol = some (text p.symbol)
  close_params at event p close_qty side = some (order_side (closing_order_side p.context.side))
  close_params at event p close_qty quantity = some (num close_qty)
  close_params at event p close_qty client_order_id =
      some (text (client_id at p (codes "watcher-close")))
  close_params at event p close_qty reason = some (text (why event))
  close_params at event p close_qty _ = none

  new_task : Stamp F → Tracked F → OrderPriority → Action → Params F → OrderTask F
  new_task at p how act ps = record {
    priority = how;
    created_at = at.now;
    position_id = p.position_id;
    action = act;
    params = ps;
    retry_count = 0;
    max_retries = 3;
  }

  -- The task for a new stop, if the position has a stop-loss order.
  move_stop : Stamp F → WatcherEvent F → Tracked F → Option F → Option (OrderTask F)
  unfolding new_task sl_params
  move_stop at event p none = none
  move_stop at event p (some new_sl) =
      if text_eq p.sl_exchange_order_id []
      then none
      else some (new_task at p sl_adjustment replace_sl (sl_params at event p new_sl))

  module _ ⦃py : Format F⦄ where
    extract_atr_value : Tracked F → WatcherEvent F → Option F
    unfolding first_positive to_number get_field
    extract_atr_value p event = first_positive (
        to_number (get_field (codes "current_atr") event.action_params)
        ∷ (if text_eq event.indicator (codes "ATR") then to_number event.current_value else none)
        ∷ p.context.volatility_last_atr
        ∷ [])

    -- `action_params.get(key, default)`, as a number
    param_or : List ℕ → F → WatcherEvent F → F
    unfolding coerce_float get_field
    param_or key default event = coerce_float default (get_field key event.action_params)

    -- The branch `tighten_sl`, once there is an ATR: the task that is enqueued.
    tighten_by : Stamp F → Option F → WatcherEvent F → Tracked F → Option F → Option (OrderTask F)
    unfolding positive_or resolve_current_price param_or move_stop compute_tightened_sl
    tighten_by at mark event p none = none
    tighten_by at mark event p (some atr) = move_stop at event p (
        compute_tightened_sl p (positive_or event.market_price (resolve_current_price p mark)) atr
          (param_or (codes "sl_offset_atr") (fl.ratio 15 10) event))

    tighten : Stamp F → Option F → WatcherEvent F → Tracked F → Option (OrderTask F)
    unfolding extract_atr_value tighten_by
    tighten at mark event p = tighten_by at mark event p (extract_atr_value p event)

    -- The branch `close_partial`
    close_part : Stamp F → WatcherEvent F → Tracked F → Option (OrderTask F)
    unfolding param_or new_task close_params
    close_part at event p =
        let close_pct = param_or (codes "close_pct") (of_ℕ 25) event in
        let close_qty = (p.current_quantity ⊗ min_f close_pct (of_ℕ 100)) ⊘ of_ℕ 100 in
        if (close_pct ⊑ of_ℕ 0) || (close_qty ⊑ of_ℕ 0)
        then none
        else some
            (new_task at p partial_close_priority partial_close (close_params at event p close_qty))

    -- `handle_watcher_event`: the task that is enqueued. `claimed` is the result of `_claim_trigger`.
    pub handle_watcher_event :
        Bool → Stamp F → Option F → WatcherEvent F → Tracked F → Option (OrderTask F)
    unfolding tighten close_part
    handle_watcher_event claimed at mark event p = elim event.action [
      | tighten_sl ↦ if claimed then tighten at mark event p else none
      | close_partial ↦ if claimed then close_part at event p else none
      | alert ↦ none
      | unsupported name ↦ none
    ]
