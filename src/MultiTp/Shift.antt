-- ===== src/MultiTp/Shift.antt =====
-- app/services/sl_tp/multi_tp.py: the state of a position with take-profit levels, and the decision of
-- `_dispatch_sl_shift` on where the stop-loss moves after a level is filled.
pub mod Bounds
use adviser_ai_constructor.Prelude.{
  ℕ, zero, suc, ◌+◌, ◌-◌, ◌*◌, Bool, true, false, not, ◌&&◌, ◌||◌, Option, none, some, List, [],
  ◌∷◌, String, leb, ◌==◌, if◌then◌else◌, get_elem?,
}
use adviser_ai_constructor.Float.{Float, ◌⊕◌, ◌⊖◌, ◌⊗◌, ◌⊘◌, ◌⊏◌, ◌⊑◌, ◌≐◌, of_ℕ, max_f, abs}
use adviser_ai_constructor.Text.{codes, text_eq, starts_with, strip, lower}
use adviser_ai_constructor.StopLoss.{PositionSide, long, short, both}
use adviser_ai_constructor.Position.Fsm.{PositionState, PositionStateMachine}
use adviser_ai_constructor.Position.Queue.Task.{Format, Value, to_float}
use adviser_ai_constructor.Position.Queue.Execute.{
  LiveReply, raised, no_position, snapshot, other_object,
}

-- app/services/position/context.py
pub data LevelStatus : Type 0 where
  waiting open_ triggered : LevelStatus
  other_status : List ℕ → LevelStatus

pub record TpLevel (F : Type 0) : Type 0 where
  pub level : ℕ
  pub close_pct : F
  pub trigger_price : F
  pub status : LevelStatus
  pub exchange_order_id : Option (List ℕ)
  pub move_sl_to : Option (List ℕ)
  pub sl_lock_pct : Option F

-- The reason, a text that holds the number of the level, is left out.
pub record TpHistoryEntry (F : Type 0) : Type 0 where
  pub timestamp : String
  pub tp_level : ℕ
  pub old_price : F
  pub new_price : F
  pub close_pct : F
  pub exchange_order_id : List ℕ

-- The fields of `PositionContext` that the engine reads or writes.
pub record TpPosition (F : Type 0) : Type 0 where
  pub position_id : List ℕ
  pub symbol : List ℕ
  pub side : PositionSide
  pub entry_price : F
  pub original_quantity : F
  pub current_quantity : F
  pub current_sl_price : F
  pub sl_exchange_order_id : Option (List ℕ)
  pub tp_levels : List (TpLevel F)
  pub tp_history : List (TpHistoryEntry F)
  pub dispatched_sl_levels : List ℕ
  pub state_machine : PositionStateMachine
  pub state : PositionState

-- The reason of a skipped move, and the price of a move.
pub data SlSkip : Type 0 where
  last_level position_closing lock_pct_null no_change : SlSkip
  would_trigger_immediately position_already_flat : SlSkip

pub data SlShift (F : Type 0) : Type 0 where
  skipped : SlSkip → SlShift F
  moved : F → SlShift F

abbrev is_digit : ℕ → Bool
is_digit c = leb b'0' c && leb c b'9'

-- `int(t)` if `t.isdigit()`, for ASCII digits; `value` is that of the digits before.
digits_onto : ℕ → List ℕ → Option ℕ
digits_onto value [] = some value
digits_onto value (c ∷ t) =
    let rest = digits_onto (10 * value + (c - b'0')) t in if is_digit c then rest else none

parse_digits : List ℕ → Option ℕ
unfolding digits_onto
parse_digits [] = none
parse_digits (c ∷ t) = digits_onto 0 (c ∷ t)

-- `t.replace("tp", "", 1)` of a text that starts so
drop_tp : List ℕ → List ℕ
drop_tp (t ∷ (p ∷ rest)) = rest
drop_tp t = t

module _ {F : Type 0} ⦃fl : Float F⦄ where
  -- `_sl_prices_equal`
  sl_prices_equal : F → F → Bool
  sl_prices_equal a b =
      if a ≐ b
      then true
      else abs (a ⊖ b) ⊑ max_f (max_f (abs a) (abs b) ⊗ fl.ratio 1 1000000) (fl.ratio 1 1000000000)

  -- The trigger price of the level with this number, counted from 1.
  price_of_level : Option ℕ → List (TpLevel F) → Option F
  price_of_level none levels = none
  price_of_level (some zero) levels = none
  price_of_level (some (suc i)) levels = elim (get_elem? levels i) [
    | none ↦ none
    | some l ↦ some l.trigger_price
  ]

  named_target : List ℕ → TpPosition F → Option F
  unfolding parse_digits drop_tp price_of_level
  named_target name position =
      if text_eq name (codes "none")
      then none
      else if text_eq name (codes "breakeven")
      then some position.entry_price
      else if starts_with (codes "tp") name
      then price_of_level (parse_digits (drop_tp name)) position.tp_levels
      else none

  -- `_resolve_sl_shift_target`
  pub resolve_sl_shift_target : TpLevel F → TpPosition F → Option F
  unfolding named_target
  resolve_sl_shift_target l position = elim l.sl_lock_pct [
    | some pct ↦
        if (position.entry_price ⊑ of_ℕ 0) || (l.trigger_price ⊑ of_ℕ 0)
        then none
        else some
            (position.entry_price ⊕ ((l.trigger_price ⊖ position.entry_price) ⊗ (pct ⊘ of_ℕ 100)))
    | none ↦ elim l.move_sl_to [ none ↦ none | some t ↦ named_target (lower (strip t)) position ]
  ]

  -- The target is beyond the price that the level has just filled at.
  is_beyond : PositionSide → F → F → Bool
  is_beyond long price trigger = trigger ⊏ price
  is_beyond short price trigger = price ⊏ trigger
  is_beyond both price trigger = false

  module _ ⦃py : Format F⦄ where
    -- No position, or one without size; a size that is no number is not judged.
    pub is_flat_position : LiveReply F → Bool
    unfolding to_float
    is_flat_position raised = true
    is_flat_position no_position = true
    is_flat_position (snapshot v) = elim (to_float v) [
      | none ↦ false
      | some x ↦ abs x ⊑ fl.ratio 1 1000000000
    ]
    is_flat_position other_object = false

    decide_price : F → TpLevel F → LiveReply F → TpPosition F → SlShift F
    unfolding sl_prices_equal is_beyond is_flat_position
    decide_price price l live position =
        if sl_prices_equal price position.current_sl_price
        then skipped no_change
        else if is_beyond position.side price l.trigger_price
        then skipped would_trigger_immediately
        else if is_flat_position live
        then skipped position_already_flat
        else moved price

    unfoldable pub decide_shift : Bool → TpLevel F → LiveReply F → TpPosition F → SlShift F
    unfolding decide_price resolve_sl_shift_target
    decide_shift is_last l live position =
        if is_last
        then skipped last_level
        else if position.current_quantity ⊑ of_ℕ 0
        then skipped position_closing
        else elim (resolve_sl_shift_target l position) [
          | none ↦ skipped lock_pct_null
          | some price ↦ decide_price price l live position
        ]
