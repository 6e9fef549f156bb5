-- ===== src/LiveTracker.antt =====
-- app/services/sl_tp/live_tracker.py: `RealtimeSLAdjuster`, with the bars of one symbol and the clocks
-- of its positions. The clock is an argument, one reading for each tick; the client order ids, the
-- handler of the kill switch, and the ATR and the mean of pandas are arguments too. The memo of the
-- ATR is left out: it is cleared whenever the bars change. Saving a position is left out.
pub mod Buffer
pub mod Ticks
mod Unsent
mod Tests
use adviser_ai_constructor.Prelude.{
  ℕ, zero, suc, ◌+◌, ◌-◌, Bool, true, false, not, ◌&&◌, ◌||◌, Option, none, some, List, [], ◌∷◌,
  ◌++◌, length, ltb, ◌==◌, if◌then◌else◌,
}
use adviser_ai_constructor.Float.{Float, ◌⊖◌, ◌⊗◌, ◌⊘◌, ◌⊏◌, ◌⊑◌, ◌≐◌, of_ℕ}
use adviser_ai_constructor.Text.{codes, text_eq}
use adviser_ai_constructor.StopLoss.{
  PositionSide, short, Source, watcher, trailing, breakeven, volatility, other_source,
  SlAdjustmentResult, PositionContext, evaluate, apply_state_changes,
}
use adviser_ai_constructor.StopLoss.KillSwitch.{KillSwitchSignal, detect_volatility_spike}
use adviser_ai_constructor.Position.Fsm.{PositionState, open_}
use adviser_ai_constructor.Position.Queue.Task.{
  OrderSide, buy, sell, Value, null, bool, num, text, order_side, ParamKey, symbol,
  existing_order_id, new_trigger_price, trigger_price, new_quantity, full_quantity, side,
  client_order_id, close_position, reason, Params, Format, truthy, to_float, sl_adjustment,
  replace_sl, OrderTask,
}
use adviser_ai_constructor.Position.Queue.State.{mem_key}

-- The keys of a kline event.
pub data EventKey : Type 0 where
  open_time timestamp open_price high low close volume is_closed : EventKey

abbrev pub KlineEvent : Type 0 → Type 0
KlineEvent F = EventKey → Option (Value F)

pub record Bar (F : Type 0) : Type 0 where
  pub open_time : F
  pub open_price : F
  pub high : F
  pub low : F
  pub close : F
  pub volume : F
  pub is_closed : Bool

-- A position, in the fields that a tick reads or writes; no order id is the empty text.
pub record Tracked (F : Type 0) : Type 0 where
  pub position_id : List ℕ
  pub symbol : List ℕ
  pub state : PositionState
  pub context : PositionContext F
  pub volatility_atr_period : ℕ
  pub sl_exchange_order_id : List ℕ
  pub current_quantity : F
  pub kill_switch_enabled : Bool
  pub kill_switch_cooldown_seconds : Option F
  pub kill_switch_atr_spike_mult : Option F
  pub kill_switch_atr_period : Option ℕ
  pub kill_switch_price_move_pct : Option F

-- A dict from the ids of positions to times
abbrev pub Clocks : Type 0 → Type 0
Clocks F = List ℕ → Option F

pub record RealtimeSlAdjuster (F : Type 0) : Type 0 where
  pub symbol : List ℕ
  pub buffer_bars : ℕ
  pub throttle_seconds : F
  pub has_handler : Bool
  pub buffer : List (Bar F)
  pub last_adjustment_at : Clocks F
  pub last_kill_switch_at : Clocks F

-- What the adjuster calls.
pub record Environment (F : Type 0) : Type 0 where
  -- `int(v)`, `none` for a TypeError or ValueError
  pub to_int : Value F → Option F
  -- The ATR series of a period without its gaps, empty where there is none.
  pub atr_of : ℕ → List (Bar F) → List F
  pub mean : List F → F
  pub client_order_id_factory : List ℕ → List ℕ → List ℕ
  pub kill_switch_handler : Tracked F → KillSwitchSignal F → Tracked F

abbrev pub set_clock : {F : Type 0} → List ℕ → F → Clocks F → Clocks F
set_clock id now clocks j = if text_eq j id then some now else clocks j

abbrev pop_clock : {F : Type 0} → List ℕ → Clocks F → Clocks F
pop_clock id clocks j = if text_eq j id then none else clocks j

discard_position : {F : Type 0} → List ℕ → RealtimeSlAdjuster F → RealtimeSlAdjuster F
discard_position id s = record s {
  last_adjustment_at = pop_clock id s.last_adjustment_at;
  last_kill_switch_at = pop_clock id s.last_kill_switch_at;
}

-- `del buffer[:n]`
drop : {A : Type 0} → ℕ → List A → List A
drop zero xs = xs
drop (suc n) [] = []
drop (suc n) (x ∷ xs) = drop n xs

-- `series.iloc[-1]` and `series.iloc[:-1]`
pub last_of : {A : Type 0} → List A → Option A
last_of [] = none
last_of (x ∷ []) = some x
last_of (x ∷ (y ∷ xs)) = last_of (y ∷ xs)

init_of : {A : Type 0} → List A → List A
init_of [] = []
init_of (x ∷ []) = []
init_of (x ∷ (y ∷ xs)) = x ∷ init_of (y ∷ xs)

abbrev pub is_open_state : PositionState → Bool
is_open_state open_ = true
is_open_state _ = false

-- `needs_pipeline` and `needs_realtime_monitoring`
abbrev pub needs_pipeline : {F : Type 0} → Tracked F → Bool
needs_pipeline p =
    p.context.trailing_enabled || p.context.breakeven_enabled || p.context.volatility_sl_enabled

abbrev needs_realtime_monitoring : {F : Type 0} → Tracked F → Bool
needs_realtime_monitoring p = needs_pipeline p || p.kill_switch_enabled

abbrev pub is_position_eligible : {F : Type 0} → RealtimeSlAdjuster F → Tracked F → Bool
is_position_eligible s p = text_eq p.symbol s.symbol && is_open_state p.state && needs_pipeline p

-- The name of a rule
source_name : Source → List ℕ
source_name watcher = codes "watcher"
source_name trailing = codes "trailing"
source_name breakeven = codes "breakeven"
source_name volatility = codes "volatility"
source_name (other_source name) = name

-- `kill_switch_atr_period or volatility_atr_period or 14`
period_or : Option ℕ → ℕ → ℕ
period_or (some (suc n)) p = suc n
period_or _ (suc p) = suc p
period_or _ zero = 14

module _ {F : Type 0} ⦃fl : Float F⦄ where
  put_bar : Bar F → List (Bar F) → List (Bar F)
  put_bar bar [] = bar ∷ []
  put_bar bar (b ∷ []) = if b.open_time ≐ bar.open_time then bar ∷ [] else b ∷ bar ∷ []
  put_bar bar (b ∷ (c ∷ bars)) = b ∷ put_bar bar (c ∷ bars)

  -- `update_buffer`, of a bar
  pub store_bar : Bar F → RealtimeSlAdjuster F → RealtimeSlAdjuster F
  unfolding put_bar drop
  store_bar bar s =
      let bars = put_bar bar s.buffer in
      record s { buffer = drop (length bars - s.buffer_bars) bars }

  -- `clocks.get(id, 0.0)`
  clock_of : List ℕ → Clocks F → F
  clock_of id clocks = elim (clocks id) [ none ↦ of_ℕ 0 | some t ↦ t ]

  -- `_cooldown_elapsed`
  pub cooldown_elapsed : F → List ℕ → RealtimeSlAdjuster F → Bool
  unfolding clock_of
  cooldown_elapsed now id s = s.throttle_seconds ⊑ (now ⊖ clock_of id s.last_adjustment_at)

  window_of : Option F → F → F
  window_of none throttle = throttle
  window_of (some cooldown) throttle = cooldown

  kill_switch_cooldown_elapsed : F → Tracked F → RealtimeSlAdjuster F → Bool
  unfolding clock_of window_of
  kill_switch_cooldown_elapsed now p s =
      window_of p.kill_switch_cooldown_seconds s.throttle_seconds
      ⊑ (now ⊖ clock_of p.position_id s.last_kill_switch_at)

  module _ (env : Environment F) where
    -- `_atr_series`, empty for its `None`
    atr_series : ℕ → RealtimeSlAdjuster F → List F
    atr_series period s =
        if period == 0 || ltb (length s.buffer) (period + 1) then [] else env.atr_of period s.buffer

    compute_atr : ℕ → RealtimeSlAdjuster F → Option F
    unfolding atr_series last_of
    compute_atr period s = last_of (atr_series period s)

    -- `_atr_current_and_baseline`
    current_and_baseline : List F → Option F × Option F
    unfolding last_of init_of
    current_and_baseline series =
        if ltb (length series) 2 || (env.mean (init_of series) ⊑ of_ℕ 0)
        then (none, none)
        else (last_of series, some (env.mean (init_of series)))

    -- The ATR values of a position with a spike multiple.
    spike_atr : Tracked F → RealtimeSlAdjuster F → Option F × Option F
    unfolding current_and_baseline atr_series period_or
    spike_atr p s = elim p.kill_switch_atr_spike_mult [
      | none ↦ (none, none)
      | some mult ↦
          current_and_baseline
            (atr_series (period_or p.kill_switch_atr_period p.volatility_atr_period) s)
    ]

    bar_move : Bar F → Option F
    bar_move bar =
        if of_ℕ 0 ⊏ bar.open_price
        then some ((bar.close ⊖ bar.open_price) ⊘ bar.open_price ⊗ of_ℕ 100)
        else none

    pub spike_signal : Bar F → RealtimeSlAdjuster F → Tracked F → KillSwitchSignal F
    unfolding spike_atr bar_move
    spike_signal bar s p =
        let (current, baseline) = spike_atr p s in
        detect_volatility_spike current baseline p.kill_switch_atr_spike_mult (bar_move bar)
          p.kill_switch_price_move_pct

    -- The four `continue` tests, and the signal.
    pub is_killed : F → Bar F → RealtimeSlAdjuster F → Tracked F → Bool
    unfolding spike_signal kill_switch_cooldown_elapsed
    is_killed now bar s p =
        text_eq p.symbol s.symbol
        && is_open_state p.state
        && p.kill_switch_enabled
        && kill_switch_cooldown_elapsed now p s
        && (spike_signal bar s p).should_close

    mark : Bool → F → List ℕ → RealtimeSlAdjuster F → RealtimeSlAdjuster F
    mark true now id s = record s { last_kill_switch_at = set_clock id now s.last_kill_switch_at }
    mark false now id s = s

    -- `_check_kill_switch`: the adjuster, the positions and the ids that were handed off.
    pub check_kill_switch :
        F
        → Bar F
        → RealtimeSlAdjuster F
        → List (Tracked F)
        → RealtimeSlAdjuster F × List (Tracked F) × List (List ℕ)
    unfolding is_killed mark
    check_kill_switch now bar s [] = (s, [], [])
    check_kill_switch now bar s (p ∷ positions) =
        let hit = s.has_handler && is_killed now bar s p in
        let (s', rest, killed) =
          check_kill_switch now bar (mark hit now p.position_id s) positions in
        (
          s',
          (if hit then env.kill_switch_handler p (spike_signal bar s p) else p) ∷ rest,
          (if hit then p.position_id ∷ killed else killed),
        )

    module _ ⦃py : Format F⦄ where
      replace_params : Tracked F → SlAdjustmentResult F → Params F
      unfolding source_name
      replace_params p r symbol = some (text p.symbol)
      replace_params p r existing_order_id = some (text p.sl_exchange_order_id)
      replace_params p r new_trigger_price = some (num r.new_sl_price)
      replace_params p r trigger_price = some (num r.new_sl_price)
      replace_params p r new_quantity = some (num p.current_quantity)
      replace_params p r full_quantity = some (num p.current_quantity)
      replace_params p r side = some (order_side (elim p.context.side [ short ↦ buy | _ ↦ sell ]))
      replace_params p r client_order_id =
          some (text (env.client_order_id_factory p.position_id (codes "rt-sl")))
      replace_params p r close_position = some (bool false)
      replace_params p r reason = some (text (codes "realtime_pipeline:" ++ source_name r.reason))
      replace_params p r _ = none

      pub replace_task : F → Tracked F → SlAdjustmentResult F → OrderTask F
      unfolding replace_params
      replace_task now p r = record {
        priority = sl_adjustment;
        created_at = now;
        position_id = p.position_id;
        action = replace_sl;
        params = replace_params p r;
        retry_count = 0;
        max_retries = 3;
      }

      -- `_dispatch_replace_sl`: the task that is enqueued.
      pub dispatch_replace_sl : F → Tracked F → SlAdjustmentResult F → List (OrderTask F)
      unfolding replace_task
      dispatch_replace_sl now p r =
          if text_eq p.sl_exchange_order_id [] || (p.current_quantity ⊑ of_ℕ 0)
          then []
          else replace_task now p r ∷ []

      -- `_evaluate_pipeline`
      pub evaluate_pipeline : F → RealtimeSlAdjuster F → Tracked F → Option (SlAdjustmentResult F)
      unfolding compute_atr
      evaluate_pipeline price s p =
          evaluate p.context price (
            if p.context.volatility_sl_enabled then compute_atr p.volatility_atr_period s else none)

      -- A round of the loop of `on_tick`, for a position that was not handed off.
      pub tick_position :
          F
          → F
          → RealtimeSlAdjuster F
          → Tracked F
          → RealtimeSlAdjuster F × Tracked F × List (OrderTask F)
      unfolding evaluate_pipeline dispatch_replace_sl cooldown_elapsed
      tick_position now price s p =
          if is_position_eligible s p && cooldown_elapsed now p.position_id s
          then elim (evaluate_pipeline price s p) [
            | none ↦ (s, p, [])
            | some r ↦
                let p' = record p { context = apply_state_changes r p.context } in
                (
                  record s {
                    last_adjustment_at = set_clock p.position_id now s.last_adjustment_at;
                  },
                  p',
                  dispatch_replace_sl now p' r,
                )
          ]
          else (s, p, [])

      pub tick_unless :
          Bool
          → F
          → F
          → RealtimeSlAdjuster F
          → Tracked F
          → RealtimeSlAdjuster F × Tracked F × List (OrderTask F)
      unfolding tick_position
      tick_unless true now price s p = (s, p, [])
      tick_unless false now price s p = tick_position now price s p

      pub tick_positions :
          F
          → F
          → List (List ℕ)
          → RealtimeSlAdjuster F
          → List (Tracked F)
          → RealtimeSlAdjuster F × List (Tracked F) × List (OrderTask F)
      unfolding tick_unless
      tick_positions now price killed s [] = (s, [], [])
      tick_positions now price killed s (p ∷ positions) =
          let (s', p', tasks) = tick_unless (mem_key p.position_id killed) now price s p in
          let (s'', rest, tasks') = tick_positions now price killed s' positions in
          (s'', p' ∷ rest, tasks ++ tasks')

      opening : KlineEvent F → Option F
      opening event = elim (event open_time) [
        | some null ↦ some (of_ℕ 0)
        | some v ↦ env.to_int v
        | none ↦ elim (event timestamp) [
          | none ↦ some (of_ℕ 0)
          | some null ↦ some (of_ℕ 0)
          | some v ↦ env.to_int v
        ]
      ]

      -- `float(event[key])`, `none` for its errors
      number : KlineEvent F → EventKey → Option F
      number event key = elim (event key) [ none ↦ none | some v ↦ to_float v ]

      -- `float(event.get("volume") or 0.0)`
      volume_of : KlineEvent F → Option F
      volume_of event = elim (event volume) [
        | none ↦ some (of_ℕ 0)
        | some v ↦ if truthy v then to_float v else some (of_ℕ 0)
      ]

      -- `_extract_bar`
      pub extract_bar : KlineEvent F → Option (Bar F)
      unfolding opening number volume_of
      extract_bar event = elim (opening event) [
        | none ↦ none
        | some t ↦ elim (number event open_price) [
          | none ↦ none
          | some o ↦ elim (number event high) [
            | none ↦ none
            | some h ↦ elim (number event low) [
              | none ↦ none
              | some l ↦ elim (number event close) [
                | none ↦ none
                | some c ↦ elim (volume_of event) [
                  | none ↦ none
                  | some v ↦ some (record {
                    open_time = t;
                    open_price = o;
                    high = h;
                    low = l;
                    close = c;
                    volume = v;
                    is_closed = elim (event is_closed) [ none ↦ false | some b ↦ truthy b ];
                  })
                ]
              ]
            ]
          ]
        ]
      ]

      -- `on_tick`: the adjuster, the positions, and the tasks in the order in which they are enqueued.
      pub on_tick :
          F
          → KlineEvent F
          → RealtimeSlAdjuster F
          → List (Tracked F)
          → RealtimeSlAdjuster F × List (Tracked F) × List (OrderTask F)
      unfolding extract_bar store_bar check_kill_switch tick_positions
      on_tick now event s positions = elim (extract_bar event) [
        | none ↦ (s, positions, [])
        | some bar ↦
            let s' = store_bar bar s in
            let (s'', handed, killed) = check_kill_switch now bar s' positions in
            if bar.close ⊑ of_ℕ 0
            then (s', positions, [])
            else tick_positions now bar.close killed s'' handed
      ]
