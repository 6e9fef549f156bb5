-- ===== src/StopLoss.antt =====
-- The adjustment of a live stop-loss: app/services/sl_tp/trailing.py, breakeven.py, volatility.py and
-- pipeline.py, and the part of `on_tick` of app/services/sl_tp/live_tracker.py that applies a result
-- to the position. The text `detail` of a result is left out.
pub mod KillSwitch
pub mod Order
mod Strongest
pub mod Protects
pub mod Trailing
mod Tests
use adviser_ai_constructor.Prelude.{
  ℕ, Bool, true, false, not, ◌||◌, Option, none, some, List, [], ◌∷◌, if◌then◌else◌,
}
use adviser_ai_constructor.Float.{Float, ◌⊕◌, ◌⊖◌, ◌⊗◌, ◌⊘◌, ◌⊏◌, ◌⊑◌, ◌≐◌, of_ℕ, max_f, min_f, abs}

-- app/services/position/context.py
pub data PositionSide : Type 0 where
  long short both : PositionSide

-- An entry of `adjustment_priority`, which is also the `reason` of a result.
pub data Source : Type 0 where
  watcher trailing breakeven volatility : Source
  other_source : List ℕ → Source

-- The one entry of `update_tracking`.
pub data Tracking (F : Type 0) : Type 0 where
  set_highest set_lowest set_last_atr : F → Tracking F
  set_breakeven : Tracking F

pub record SlAdjustmentResult (F : Type 0) : Type 0 where
  pub new_sl_price : F
  pub reason : Source
  pub is_valid : Bool
  pub update_tracking : Tracking F

-- The fields of `PositionContext` that the adjustment reads or writes.
pub record PositionContext (F : Type 0) : Type 0 where
  pub side : PositionSide
  pub entry_price : F
  pub current_sl_price : F
  pub trailing_enabled : Bool
  pub trailing_callback_rate : Option F
  pub trailing_highest_price : Option F
  pub trailing_lowest_price : Option F
  pub breakeven_enabled : Bool
  pub breakeven_trigger_rr : F
  pub breakeven_activated : Bool
  pub volatility_sl_enabled : Bool
  pub volatility_atr_multiplier : F
  pub volatility_last_atr : Option F
  pub adjustment_priority : List Source

abbrev pub adjusted : {F : Type 0} → F → Source → Tracking F → SlAdjustmentResult F
adjusted x why tracking = record {
  new_sl_price = x;
  reason = why;
  is_valid = true;
  update_tracking = tracking;
}

module _ {F : Type 0} ⦃fl : Float F⦄ where
  -- `a or b` for a price
  or_price : Option F → F → F
  or_price none b = b
  or_price (some a) b = if a ≐ of_ℕ 0 then b else a

  -- The result, unless the new stop is not above (below, for a short) the current one.
  raise_to : F → SlAdjustmentResult F → Option (SlAdjustmentResult F)
  raise_to current r = if r.new_sl_price ⊑ current then none else some r

  lower_to : F → SlAdjustmentResult F → Option (SlAdjustmentResult F)
  lower_to current r = if current ⊑ r.new_sl_price then none else some r

  trail : PositionSide → PositionContext F → F → F → Option (SlAdjustmentResult F)
  unfolding or_price raise_to lower_to
  trail long position rate price =
      let new_high = max_f (or_price position.trailing_highest_price position.entry_price) price in
      raise_to position.current_sl_price
        (adjusted (new_high ⊗ (of_ℕ 1 ⊖ rate ⊘ of_ℕ 100)) trailing (set_highest new_high))
  trail short position rate price =
      let new_low = min_f (or_price position.trailing_lowest_price position.entry_price) price in
      lower_to position.current_sl_price
        (adjusted (new_low ⊗ (of_ℕ 1 ⊕ rate ⊘ of_ℕ 100)) trailing (set_lowest new_low))
  trail both position rate price = none

  pub evaluate_trailing : PositionContext F → F → Option (SlAdjustmentResult F)
  unfolding trail
  evaluate_trailing position price =
      if not position.trailing_enabled then none else elim position.trailing_callback_rate [
        | none ↦ none
        | some rate ↦ if rate ⊑ of_ℕ 0 then none else trail position.side position rate price
      ]

  -- Whether the price has moved by `required` in favour of the position.
  has_moved : PositionSide → F → F → F → Bool
  has_moved long entry required price = not (price ⊏ (entry ⊕ required))
  has_moved short entry required price = not ((entry ⊖ required) ⊏ price)
  has_moved both entry required price = false

  pub evaluate_breakeven : PositionContext F → F → Option (SlAdjustmentResult F)
  unfolding has_moved
  evaluate_breakeven position price =
      let required =
        abs (position.entry_price ⊖ position.current_sl_price) ⊗ position.breakeven_trigger_rr in
      if not position.breakeven_enabled || position.breakeven_activated
      then none
      else if has_moved position.side position.entry_price required price
      then some (adjusted position.entry_price breakeven set_breakeven)
      else none

  by_volatility : PositionSide → PositionContext F → F → Option (SlAdjustmentResult F)
  unfolding raise_to lower_to
  by_volatility long position atr = raise_to position.current_sl_price (
      adjusted (position.entry_price ⊖ (atr ⊗ position.volatility_atr_multiplier)) volatility
        (set_last_atr atr))
  by_volatility short position atr = lower_to position.current_sl_price (
      adjusted (position.entry_price ⊕ (atr ⊗ position.volatility_atr_multiplier)) volatility
        (set_last_atr atr))
  by_volatility both position atr = none

  pub evaluate_volatility : PositionContext F → Option F → Option (SlAdjustmentResult F)
  unfolding by_volatility
  evaluate_volatility position none = none
  evaluate_volatility position (some atr) =
      if not position.volatility_sl_enabled then none else by_volatility position.side position atr

  -- `_evaluate_source`; the ATR is what `indicators.get("ATR")` gives.
  pub evaluate_source : Source → PositionContext F → F → Option F → Option (SlAdjustmentResult F)
  unfolding evaluate_trailing evaluate_breakeven evaluate_volatility
  evaluate_source watcher position price atr = none
  evaluate_source trailing position price atr = evaluate_trailing position price
  evaluate_source breakeven position price atr = evaluate_breakeven position price
  evaluate_source volatility position price atr = evaluate_volatility position atr
  evaluate_source (other_source name) position price atr = none

  -- `candidates.append(result)`, if there is a valid result
  keep_valid :
      Option (SlAdjustmentResult F) → List (SlAdjustmentResult F) → List (SlAdjustmentResult F)
  keep_valid none rest = rest
  keep_valid (some r) rest = if r.is_valid then r ∷ rest else rest

  pub candidates : List Source → PositionContext F → F → Option F → List (SlAdjustmentResult F)
  unfolding evaluate_source keep_valid
  candidates [] position price atr = []
  candidates (source ∷ sources) position price atr =
      keep_valid (evaluate_source source position price atr) (candidates sources position price atr)

  -- `max` and `min` by `new_sl_price`: the first of equal candidates
  highest : SlAdjustmentResult F → List (SlAdjustmentResult F) → SlAdjustmentResult F
  highest r [] = r
  highest r (s ∷ rest) = highest (if r.new_sl_price ⊏ s.new_sl_price then s else r) rest

  lowest : SlAdjustmentResult F → List (SlAdjustmentResult F) → SlAdjustmentResult F
  lowest r [] = r
  lowest r (s ∷ rest) = lowest (if s.new_sl_price ⊏ r.new_sl_price then s else r) rest

  pick : PositionSide → List (SlAdjustmentResult F) → Option (SlAdjustmentResult F)
  unfolding highest lowest
  pick side [] = none
  pick short (r ∷ rest) = some (lowest r rest)
  pick side (r ∷ rest) = some (highest r rest)

  -- `SLAdjustmentPipeline.evaluate`
  unfoldable pub evaluate : PositionContext F → F → Option F → Option (SlAdjustmentResult F)
  unfolding candidates pick
  evaluate position price atr =
      pick position.side (candidates position.adjustment_priority position price atr)

  -- `_apply_state_changes`
  pub track : Tracking F → PositionContext F → PositionContext F
  track (set_highest x) position = record position { trailing_highest_price = some x }
  track (set_lowest x) position = record position { trailing_lowest_price = some x }
  track (set_last_atr x) position = record position { volatility_last_atr = some x }
  track set_breakeven position = record position { breakeven_activated = true }

  pub apply_state_changes : SlAdjustmentResult F → PositionContext F → PositionContext F
  unfolding track
  apply_state_changes result position = record (track result.update_tracking position) {
    current_sl_price = result.new_sl_price;
  }

  -- `on_tick` for one position that is eligible and whose cooldown has elapsed
  pub adjust : F → Option F → PositionContext F → PositionContext F
  unfolding evaluate apply_state_changes
  adjust price atr position =
      if price ⊑ of_ℕ 0 then position else elim (evaluate position price atr) [
        | none ↦ position
        | some result ↦ apply_state_changes result position
      ]

-- The price of a tick, and the ATR at that tick.
abbrev pub Tick : Type 0 → Type 0
Tick F = F × Option F

module _ {F : Type 0} ⦃fl : Float F⦄ where
  pub on_ticks : List (Tick F) → PositionContext F → PositionContext F
  unfolding adjust
  on_ticks [] position = position
  on_ticks ((price, atr) ∷ ticks) position = on_ticks ticks (adjust price atr position)
