-- ===== src/Watchers/Bus/Orders.antt =====
-- app/services/watchers/event_bus.py: what the tasks of the watchers do to a position.
use adviser_ai_constructor.Prelude.{
  ℕ, ◌≡◌, refl, Bool, true, false, not, ◌&&◌, Option, none, some, List, [], arith,
}
use adviser_ai_constructor.Float.{Float, ◌⊏◌, of_ℕ}
use adviser_ai_constructor.Text.{text_eq}
use adviser_ai_constructor.StopLoss.{PositionSide, long, short, both}
use adviser_ai_constructor.StopLoss.Order.{is_tighter}
use adviser_ai_constructor.Position.Queue.Task.{
  buy, sell, Value, num, order_side, side, quantity, new_trigger_price, Params, Format, Action,
  replace_sl, partial_close, OrderTask, null, get,
}
use adviser_ai_constructor.Position.Queue.Execute.{LiveReply, execute_task}
use adviser_ai_constructor.Position.Queue.Execute.Emergency.{places, emergency_without_side}
use adviser_ai_constructor.Position.Queue.Loop.{emergency_params, emergency_task}
use adviser_ai_constructor.LiveTracker.{Tracked}
use adviser_ai_constructor.Watchers.Bus.{
  WatcherEvent, Stamp, closing_order_side, compute_tightened_sl, sl_params, close_params, new_task,
  extract_atr_value, move_stop, tighten_by, tighten, close_part, handle_watcher_event,
}

abbrev reduces : {F : Type 0} → PositionSide → Option (Value F) → Bool
reduces short (some (order_side buy)) = true
reduces long (some (order_side sell)) = true
reduces both (some (order_side sell)) = true
reduces _ _ = false

module _ {F : Type 0} ⦃fl : Float F⦄ where
  -- The value is a stop that is tighter than the current one.
  abbrev tightens : Tracked F → Option (Value F) → Bool
  tightens p (some (num x)) = is_tighter p.context.side p.context.current_sl_price x
  tightens p _ = false

  abbrev positive : Option (Value F) → Bool
  positive (some (num x)) = of_ℕ 0 ⊏ x
  positive _ = false

  abbrev pub safe_params : Tracked F → Action → Params F → Bool
  safe_params p replace_sl ps =
      not (text_eq p.sl_exchange_order_id []) && tightens p (ps new_trigger_price)
  safe_params p partial_close ps = reduces p.context.side (ps side) && positive (ps quantity)
  safe_params p _ ps = false

  tightened-tighter :
      (p : Tracked F) (current atr multiplier x : F)
      → compute_tightened_sl p current atr multiplier ≡ some x
      → is_tighter p.context.side p.context.current_sl_price x ≡ true
  unfolding compute_tightened_sl is_tighter
  tightened-tighter p current atr multiplier x h = ground arith

module _ {F : Type 0} ⦃fl : Float F⦄ ⦃py : Format F⦄ where
  move_stop-safe :
      (at : Stamp F) (event : WatcherEvent F) (p : Tracked F) (t : OrderTask F) (o : Option F)
      → ((x : F) → o ≡ some x → is_tighter p.context.side p.context.current_sl_price x ≡ true)
      → move_stop at event p o ≡ some t
      → safe_params p t.action t.params ≡ true
  unfolding move_stop new_task sl_params
  move_stop-safe at event p t none tighter h = ground arith
  move_stop-safe at event p t (some x) tighter h = ground (arith, tighter x refl)

  tighten-safe :
      (at : Stamp F) (mark : Option F) (event : WatcherEvent F) (p : Tracked F) (t : OrderTask F)
      (atr : Option F)
      → tighten_by at mark event p atr ≡ some t
      → safe_params p t.action t.params ≡ true
  unfolding tighten_by
  tighten-safe at mark event p t none h = ground arith
  tighten-safe at mark event p t (some atr) h =
      move_stop-safe at event p t _ (tightened-tighter p _ atr _) h

  close_part-safe :
      (at : Stamp F) (event : WatcherEvent F) (p : Tracked F) (t : OrderTask F)
      → close_part at event p ≡ some t
      → safe_params p t.action t.params ≡ true
  unfolding close_part new_task close_params closing_order_side
  close_part-safe at event p t h = ground arith

  -- A task that the handler of watcher events enqueues is safe: it moves an existing stop-loss order to
  -- a strictly tighter price, or it closes a positive quantity of the position on its closing side.
  pub handle_watcher_event-safe :
      (claimed : Bool) (at : Stamp F) (mark : Option F) (event : WatcherEvent F) (p : Tracked F)
      (t : OrderTask F)
      → handle_watcher_event claimed at mark event p ≡ some t
      → safe_params p t.action t.params ≡ true
  unfolding handle_watcher_event tighten
  handle_watcher_event-safe claimed at mark event p t h = ground (
    arith,
    tighten-safe at mark event p t (extract_atr_value p event),
    close_part-safe at event p t,
  )

  tighten-sideless :
      (at : Stamp F) (mark : Option F) (event : WatcherEvent F) (p : Tracked F) (t : OrderTask F)
      → tighten at mark event p ≡ some t
      → get t.params side ≡ null
  unfolding tighten tighten_by move_stop new_task sl_params
  tighten-sideless at mark event p t h = ground arith

  close_part-partial :
      (at : Stamp F) (event : WatcherEvent F) (p : Tracked F) (t : OrderTask F)
      → close_part at event p ≡ some t
      → t.action ≡ partial_close
  unfolding close_part new_task
  close_part-partial at event p t h = ground arith

  -- A stop-loss task of the watchers names no side: the emergency task into which the queue escalates it,
  -- once it has failed for good, places no order, whatever the exchange replies.
  pub watcher_stop-unescalated :
      (claimed : Bool) (at : Stamp F) (mark : Option F) (event : WatcherEvent F) (p : Tracked F)
      (t : OrderTask F) (now : F) (why emergency_id : List ℕ) (live : LiveReply F)
      → handle_watcher_event claimed at mark event p ≡ some t
      → t.action ≡ replace_sl
      → places (execute_task (emergency_task now why t) emergency_id live) ≡ false
  unfolding handle_watcher_event emergency_task emergency_params
  watcher_stop-unescalated claimed at mark event p t now why emergency_id live h act =
      emergency_without_side (emergency_task now why t) emergency_id live refl
        (ground (arith, tighten-sideless at mark event p t, close_part-partial at event p t))
