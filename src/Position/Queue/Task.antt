-- ===== src/Position/Queue/Task.antt =====
-- app/services/position/order_queue.py: a queue item, its parameters (a dict of dynamic values),
-- their conversions, and the key under which equal tasks are merged.
pub mod Key
use adviser_ai_constructor.Prelude.{
  ℕ, ◌≡◌, Bool, true, false, not, ◌&&◌, ◌||◌, Option, none, some, List, [], ◌∷◌, ◌++◌, ltb,
  if◌then◌else◌,
}
use adviser_ai_constructor.Float.{Float, ◌⊏◌, ◌≐◌, of_ℕ}
use adviser_ai_constructor.Text.{codes, text_eq, starts_with, contains, strip, lower}

-- app/services/exchange/adapter.py
pub data OrderSide : Type 0 where
  buy sell : OrderSide

-- The values that a `params` dict holds. An int is a `num`.
pub data Value (F : Type 0) : Type 0 where
  null : Value F
  bool : Bool → Value F
  num : F → Value F
  text : List ℕ → Value F
  order_side : OrderSide → Value F

-- The keys that the queue reads or writes.
pub data ParamKey : Type 0 where
  symbol side quantity trigger_price new_trigger_price new_quantity : ParamKey
  full_quantity existing_order_id order_id level client_order_id : ParamKey
  reduce_only close_position limit_price order_type price reason : ParamKey

-- `none` at a key that the dict has not.
abbrev pub Params : Type 0 → Type 0
Params F = ParamKey → Option (Value F)

-- Conversions of Python itself between numbers and text, which depend on the floats.
pub record Format (F : Type 0) : Type 0 where
  -- `f"{x:.10g}"`
  pub format_10g : F → List ℕ
  -- `str(v)`
  pub show : Value F → List ℕ
  -- `float(s)` of a str, `none` for its ValueError
  pub parse_float : List ℕ → Option F

pub data OrderPriority : Type 0 where
  emergency_sl emergency_close sl_adjustment tp_adjustment : OrderPriority
  partial_close_priority new_conditional cancel_order_priority : OrderPriority

unfoldable pub rank : OrderPriority → ℕ
rank emergency_sl = 0
rank emergency_close = 1
rank sl_adjustment = 10
rank tp_adjustment = 20
rank partial_close_priority = 30
rank new_conditional = 40
rank cancel_order_priority = 50

pub data Action : Type 0 where
  place_sl replace_sl place_tp replace_tp : Action
  partial_close emergency_market_close cancel_order : Action
  other_action : List ℕ → Action

unfoldable pub action_name : Action → List ℕ
action_name place_sl = codes "place_sl"
action_name replace_sl = codes "replace_sl"
action_name place_tp = codes "place_tp"
action_name replace_tp = codes "replace_tp"
action_name partial_close = codes "partial_close"
action_name emergency_market_close = codes "emergency_market_close"
action_name cancel_order = codes "cancel_order"
action_name (other_action name) = name

-- `action in {"place_sl", "replace_sl"}`
abbrev pub is_sl : Action → Bool
is_sl place_sl = true
is_sl replace_sl = true
is_sl _ = false

-- The actions that `_execute_task` knows.
abbrev pub is_known : Action → Bool
is_known (other_action name) = false
is_known _ = true

-- `on_success` is left out: what it does is an outcome of the execution.
pub record OrderTask (F : Type 0) : Type 0 where
  pub priority : OrderPriority
  pub created_at : F
  pub position_id : List ℕ
  pub action : Action
  pub params : Params F
  pub retry_count : ℕ
  pub max_retries : ℕ

-- `params.get(key)` and `params.get(key, default)`
abbrev pub get_default : {F : Type 0} → Params F → ParamKey → Value F → Value F
get_default params key default = elim (params key) [ none ↦ default | some v ↦ v ]

abbrev pub get : {F : Type 0} → Params F → ParamKey → Value F
get params key = get_default params key null

abbrev pub is_null : {F : Type 0} → Value F → Bool
is_null null = true
is_null _ = false

-- `f"{position_id}:{action}"`
abbrev pub base_key : List ℕ → Action → List ℕ
base_key position_id action = position_id ++ (b':' ∷ action_name action)

module _ {F : Type 0} ⦃fl : Float F⦄ ⦃py : Format F⦄ where
  -- `bool(v)`
  unfoldable pub truthy : Value F → Bool
  truthy null = false
  truthy (bool b) = b
  truthy (num x) = not (x ≐ of_ℕ 0)
  truthy (text []) = false
  truthy (text (c ∷ t)) = true
  truthy (order_side s) = true

  -- `float(v)`, `none` for a TypeError or ValueError
  unfoldable pub to_float : Value F → Option F
  to_float null = none
  to_float (bool b) = some (if b then of_ℕ 1 else of_ℕ 0)
  to_float (num x) = some x
  to_float (text t) = py.parse_float t
  to_float (order_side s) = none

  unfoldable pub format_target : Value F → List ℕ
  unfolding to_float
  format_target v = elim (to_float v) [ some x ↦ py.format_10g x | none ↦ py.show v ]

  target_key : List ℕ → Value F → List ℕ
  unfolding format_target
  target_key base target =
      if is_null target then base else base ++ (codes ":target:" ++ format_target target)

  -- `_task_key`
  unfoldable pub task_key : List ℕ → Action → Params F → List ℕ
  unfolding target_key truthy
  task_key position_id place_tp params =
      if is_null (get params level)
      then base_key position_id place_tp
      else base_key position_id place_tp ++ (codes ":level:" ++ py.show (get params level))
  task_key position_id replace_tp params =
      if truthy (get params existing_order_id)
      then base_key position_id replace_tp
        ++ (codes ":order:" ++ py.show (get params existing_order_id))
      else base_key position_id replace_tp
  task_key position_id place_sl params =
      target_key (base_key position_id place_sl)
        (get_default params new_trigger_price (get params trigger_price))
  task_key position_id replace_sl params =
      target_key (base_key position_id replace_sl)
        (get_default params new_trigger_price (get params trigger_price))
  task_key position_id cancel_order params =
      if truthy (get params order_id)
      then base_key position_id cancel_order ++ (codes ":order:" ++ py.show (get params order_id))
      else base_key position_id cancel_order
  task_key position_id action params = base_key position_id action

  abbrev pub key_of : OrderTask F → List ℕ
  key_of task = task_key task.position_id task.action task.params

-- `_is_multi_tp_reason`
unfoldable pub is_multi_tp_reason : {F : Type 0} → Value F → Bool
is_multi_tp_reason (text t) = starts_with (codes "tp") t && contains (codes "sl_adjustment") t
is_multi_tp_reason _ = false
