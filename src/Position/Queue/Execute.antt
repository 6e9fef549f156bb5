-- ===== src/Position/Queue/Execute.antt =====
-- app/services/position/order_queue.py: `_execute_task`, which turns a task into one call of the
-- exchange adapter, with the conversions of its parameters and the emergency close.
pub mod Emergency
mod Tests
use adviser_ai_constructor.Prelude.{
  ℕ, Bool, true, false, not, ◌&&◌, Option, none, some, List, [], ◌∷◌, if◌then◌else◌,
}
use adviser_ai_constructor.Float.{Float, ◌⊏◌, ◌⊑◌, of_ℕ, min_f, abs}
use adviser_ai_constructor.Text.{codes, text_eq, strip, lower}
use adviser_ai_constructor.Position.Queue.Task.{
  OrderSide, buy, sell, Value, null, bool, num, text, order_side, ParamKey, symbol, side, quantity,
  trigger_price, new_trigger_price, new_quantity, full_quantity, existing_order_id, order_id,
  client_order_id, reduce_only, close_position, limit_price, order_type, price, Params, Format,
  Action, place_sl, replace_sl, place_tp, replace_tp, partial_close, emergency_market_close,
  cancel_order, other_action, OrderTask, get_default, get, is_null, to_float, truthy,
}

-- `err` is the ValueError of a parameter that is missing or invalid, or of an unknown action.
pub data Result (A : Type 0) : Type 0 where
  ok : A → Result A
  err : Result A

infixl 5 ◌>>=◌
abbrev pub ◌>>=◌ : {A B : Type 0} → Result A → (A → Result B) → Result B
ok a >>= f = f a
err >>= f = err

-- What the task makes the adapter do; `skip` is the return of None without a call.
pub data Call (F : Type 0) : Type 0 where
  place_stop_loss :
      (symbol : List ℕ) (side : OrderSide) (quantity trigger_price : F) (client_order_id : List ℕ)
      (reduce_only close_position : Bool)
      → Call F
  cancel_and_replace_sl :
      (symbol existing_order_id : List ℕ) (new_trigger_price new_quantity : F)
      (client_order_id : List ℕ) (close_position : Bool)
      → Call F
  place_take_profit :
      (symbol : List ℕ) (side : OrderSide) (quantity trigger_price : F) (client_order_id : List ℕ)
      (reduce_only : Bool) (limit_price : Option F)
      → Call F
  cancel_and_replace_tp :
      (symbol existing_order_id : List ℕ) (new_trigger_price new_quantity : F)
      (client_order_id : List ℕ) (limit_price : Option F)
      → Call F
  close_part :
      (symbol : List ℕ) (side : OrderSide) (quantity : F) (client_order_id order_type : List ℕ)
      (price : Option F)
      → Call F
  cancel_conditional_order : (symbol order_id : List ℕ) → Call F
  skip : Call F

-- What `adapter.get_position` does: it raises, or returns None, a snapshot with its size, or an
-- object of another class.
pub data LiveReply (F : Type 0) : Type 0 where
  raised no_position : LiveReply F
  snapshot : Value F → LiveReply F
  other_object : LiveReply F

one_of : List ℕ → List (List ℕ) → Bool
one_of t [] = false
one_of t (w ∷ words) = if text_eq t w then true else one_of t words

-- The str that an `OrderSide`, a `str` enum, is.
side_text : OrderSide → List ℕ
side_text buy = codes "buy"
side_text sell = codes "sell"

module _ {F : Type 0} ⦃fl : Float F⦄ ⦃py : Format F⦄ where
  -- `_require_str`
  require_str_value : Value F → Result (List ℕ)
  unfolding side_text
  require_str_value (text (c ∷ t)) = ok (c ∷ t)
  require_str_value (order_side s) = ok (side_text s)
  require_str_value _ = err

  require_str : Params F → ParamKey → Result (List ℕ)
  unfolding require_str_value
  require_str params key = require_str_value (get params key)

  require_str_or : Params F → ParamKey → List ℕ → Result (List ℕ)
  unfolding require_str_value
  require_str_or params key default = require_str_value (get_default params key (text default))

  -- `_require_float` and `_optional_float`
  require_float : Params F → ParamKey → Result F
  unfolding to_float
  require_float params key = elim (to_float (get params key)) [ some x ↦ ok x | none ↦ err ]

  optional_float : Params F → ParamKey → Result (Option F)
  unfolding require_float
  optional_float params key =
      if is_null (get params key) then ok none else (require_float params key >>= λ x. ok (some x))

  -- `_require_side`
  side_of_value : Value F → Result OrderSide
  side_of_value (order_side s) = ok s
  side_of_value (text t) =
      if text_eq (lower (strip t)) (codes "buy")
      then ok buy
      else if text_eq (lower (strip t)) (codes "sell")
      then ok sell
      else err
  side_of_value _ = err

  require_side : Params F → ParamKey → Result OrderSide
  unfolding side_of_value
  require_side params key = side_of_value (get params key)

  -- `_require_bool`
  bool_of_value : Value F → Bool
  unfolding one_of truthy
  bool_of_value (bool b) = b
  bool_of_value (text t) =
      let word = lower (strip t) in
      if one_of word (codes "1" ∷ codes "true" ∷ codes "yes" ∷ codes "y" ∷ codes "on" ∷ [])
      then true
      else if one_of word (codes "0" ∷ codes "false" ∷ codes "no" ∷ codes "n" ∷ codes "off" ∷ [])
      then false
      else truthy {F = F} (text t)
  bool_of_value v = truthy v

  require_bool : Params F → ParamKey → Bool → Bool
  unfolding bool_of_value
  require_bool params key default = bool_of_value (get_default params key (bool default))

  -- `_has_positive_emergency_quantity`
  is_positive : Value F → Bool
  unfolding to_float
  is_positive v = elim (to_float v) [ some x ↦ of_ℕ 0 ⊏ x | none ↦ false ]

  unfoldable pub has_positive_emergency_quantity : Params F → Bool
  unfolding is_positive
  has_positive_emergency_quantity params =
      if is_positive (get params full_quantity)
      then true
      else if is_positive (get params quantity)
      then true
      else is_positive (get params new_quantity)

  -- `_resolve_emergency_quantity`: `later` is the rest of the loop over the keys.
  first_positive : Value F → Result F → Result F
  unfolding to_float
  first_positive v later =
      if is_null v
      then later
      else elim (to_float v) [ none ↦ err | some x ↦ if of_ℕ 0 ⊏ x then ok x else later ]

  resolve_emergency_quantity : Params F → Result F
  unfolding first_positive
  resolve_emergency_quantity params = first_positive (get params full_quantity) (
      first_positive (get params quantity) (first_positive (get params new_quantity) (ok (of_ℕ 0))))

  -- `EMERGENCY_CLOSE_DUST_EPSILON`
  abbrev pub emergency_close_dust_epsilon : F
  emergency_close_dust_epsilon = fl.ratio 1 1000000

  -- `live_size`: `none` where the size is unknown.
  unfoldable pub live_size : LiveReply F → Option F
  unfolding to_float
  live_size (snapshot v) = elim (to_float v) [ none ↦ none | some x ↦ some (abs x) ]
  live_size _ = none

  -- The first two tests of the emergency close: no position, or dust.
  unfoldable pub is_flat : LiveReply F → Bool
  unfolding live_size
  is_flat raised = true
  is_flat no_position = true
  is_flat (snapshot v) = elim (live_size (snapshot v)) [
    | none ↦ false
    | some x ↦ x ⊑ emergency_close_dust_epsilon
  ]
  is_flat other_object = false

  -- The quantity to close, `none` for a skip.
  unfoldable pub close_quantity : F → Option F → Option F
  close_quantity requested none = if requested ⊑ of_ℕ 0 then none else some requested
  close_quantity requested (some live) =
      some (if requested ⊑ of_ℕ 0 then live else min_f requested live)

  close_at_market : List ℕ → Params F → List ℕ → F → Result (Call F)
  close_at_market symbol_name params emergency_id qty = do
    closing_side ← require_side params side
    client ← require_str_or params client_order_id emergency_id
    ok (close_part symbol_name closing_side qty client (codes "market") none)

  -- The branch `emergency_market_close`. `emergency_id` is what
  -- `_build_emergency_client_order_id` makes of the account, the position and the clock.
  execute_emergency : Params F → List ℕ → LiveReply F → Result (Call F)
  execute_emergency params emergency_id live = do
    symbol_name ← require_str params symbol
    if is_flat live then ok skip else (do
      requested ← resolve_emergency_quantity params
      elim (close_quantity requested (live_size live)) [
        | none ↦ ok skip
        | some qty ↦ close_at_market symbol_name params emergency_id qty
      ])

  execute_action : Action → Params F → List ℕ → LiveReply F → Result (Call F)
  execute_action place_sl params emergency_id live = do
    s ← require_str params symbol
    d ← require_side params side
    q ← require_float params quantity
    t ← require_float params trigger_price
    c ← require_str params client_order_id
    ok (
        place_stop_loss s d q t c (require_bool params reduce_only true)
          (require_bool params close_position false))
  execute_action replace_sl params emergency_id live = do
    s ← require_str params symbol
    o ← require_str params existing_order_id
    t ← require_float params new_trigger_price
    q ← require_float params new_quantity
    c ← require_str params client_order_id
    ok (cancel_and_replace_sl s o t q c (require_bool params close_position true))
  execute_action place_tp params emergency_id live = do
    s ← require_str params symbol
    d ← require_side params side
    q ← require_float params quantity
    t ← require_float params trigger_price
    c ← require_str params client_order_id
    l ← optional_float params limit_price
    ok (place_take_profit s d q t c (require_bool params reduce_only true) l)
  execute_action replace_tp params emergency_id live = do
    s ← require_str params symbol
    o ← require_str params existing_order_id
    t ← require_float params new_trigger_price
    q ← require_float params new_quantity
    c ← require_str params client_order_id
    l ← optional_float params limit_price
    ok (cancel_and_replace_tp s o t q c l)
  execute_action partial_close params emergency_id live = do
    s ← require_str params symbol
    d ← require_side params side
    q ← require_float params quantity
    c ← require_str params client_order_id
    k ← require_str_or params order_type (codes "market")
    p ← optional_float params price
    ok (close_part s d q c k p)
  execute_action emergency_market_close params emergency_id live =
      execute_emergency params emergency_id live
  execute_action cancel_order params emergency_id live = do
    s ← require_str params symbol
    o ← require_str params order_id
    ok (cancel_conditional_order s o)
  execute_action (other_action name) params emergency_id live = err

  -- `_execute_task`
  pub execute_task : OrderTask F → List ℕ → LiveReply F → Result (Call F)
  execute_task task emergency_id live = execute_action task.action task.params emergency_id live
