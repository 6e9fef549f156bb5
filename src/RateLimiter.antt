-- ===== src/RateLimiter.antt =====
-- app/services/exchange/rate_limiter.py: `AdaptiveRateLimiter`. A dict with fixed keys is a record of
-- options; a counter is the float of its int, and `int` of a float is an argument, `truncate`. The
-- clock is an argument of each call.
pub mod Pacing
mod Tests
use adviser_ai_constructor.Prelude.{
  ℕ, Bool, true, false, not, ◌&&◌, ◌||◌, Option, none, some, List, [], ◌∷◌, ◌++◌, if◌then◌else◌,
}
use adviser_ai_constructor.Float.{Float, ◌⊕◌, ◌⊖◌, ◌⊘◌, ◌⊏◌, ◌⊑◌, of_ℕ, max_f, min_f}
use adviser_ai_constructor.Text.{codes, text_eq, strip, lower}
use adviser_ai_constructor.Position.Queue.Task.{Value, null, Format}

pub data Exchange : Type 0 where
  binance bybit : Exchange

pub record Counters (F : Type 0) : Type 0 where
  pub order_count_10s : Option F
  pub order_count_1m : Option F
  pub weight_used_1m : Option F
  pub remaining : Option F

pub record ResetTimes (F : Type 0) : Type 0 where
  pub main : Option F
  pub retry_after : Option F

-- The limits are the literals of the constructor.
pub record AdaptiveRateLimiter (F : Type 0) : Type 0 where
  pub exchange : Exchange
  pub counters : Counters F
  pub reset_times : ResetTimes F

abbrev pub start : {F : Type 0} → Exchange → AdaptiveRateLimiter F
start exchange = record {
  exchange = exchange;
  counters = record {
    order_count_10s = none;
    order_count_1m = none;
    weight_used_1m = none;
    remaining = none;
  };
  reset_times = record { main = none; retry_after = none };
}

-- `__init__`, `none` for its ValueError
new_limiter : {F : Type 0} → List ℕ → Option (AdaptiveRateLimiter F)
new_limiter name =
    let normalized = lower (strip name) in
    if text_eq normalized (codes "binance")
    then some (start binance)
    else if text_eq normalized (codes "bybit")
    then some (start bybit)
    else none

-- The value of a name once the names are in lower case: of equal names the last counts.
find_header : {F : Type 0} → List ℕ → List (List ℕ × Value F) → Option (Value F)
find_header name [] = none
find_header name ((k, v) ∷ headers) = elim (find_header name headers) [
  | some later ↦ some later
  | none ↦ if text_eq (lower k) name then some v else none
]

-- `headers.get(name)`
pub header : {F : Type 0} → List ℕ → List (List ℕ × Value F) → Value F
unfolding find_header
header name headers = elim (find_header name headers) [ none ↦ null | some v ↦ v ]

abbrev or_old : {A : Type 0} → Option A → Option A → Option A
or_old none old = old
or_old (some x) old = some x

-- The values that are there.
abbrev present : {A : Type 0} → Option A → List A → List A
present none xs = xs
present (some x) xs = x ∷ xs

module _ {F : Type 0} ⦃fl : Float F⦄ where
  -- `max(ratios)` and `min(waits)` of a list that starts so
  abbrev max_of : F → List F → F
  max_of x [] = x
  max_of x (y ∷ ys) = max_of (max_f x y) ys

  abbrev min_of : F → List F → F
  min_of x [] = x
  min_of x (y ∷ ys) = min_of (min_f x y) ys

  abbrev pub within_unit : F → F
  within_unit x = max_f (of_ℕ 0) (min_f x (of_ℕ 1))

  ratio_10s : F → F
  ratio_10s count =
      let ratio = count ⊘ of_ℕ 300 in if ratio ⊏ fl.ratio 98 100 then count ⊘ of_ℕ 350 else ratio

  over : F → Option F → Option F
  over limit none = none
  over limit (some count) = some (count ⊘ limit)

  pub ratios : Counters F → List F
  unfolding ratio_10s over
  ratios c =
      present (elim c.order_count_10s [ none ↦ none | some count ↦ some (ratio_10s count) ])
        (present (over (of_ℕ 1200) c.order_count_1m)
          (present (over (of_ℕ 2400) c.weight_used_1m) []))

  usage_of : List F → F
  usage_of [] = of_ℕ 0
  usage_of (r ∷ rs) = within_unit (max_of r rs)

  -- `_get_usage_pct`
  pub get_usage_pct : AdaptiveRateLimiter F → F
  unfolding ratios usage_of
  get_usage_pct s = elim s.exchange [
    | binance ↦ usage_of (ratios s.counters)
    | bybit ↦ elim s.counters.remaining [
      | none ↦ of_ℕ 0
      | some r ↦ within_unit (max_f (of_ℕ 0) (of_ℕ 100 ⊖ max_f (of_ℕ 0) r) ⊘ of_ℕ 100)
    ]
  ]

  -- The waits until the reset times that are still to come.
  positive_waits : F → List F → List F
  positive_waits now [] = []
  positive_waits now (t ∷ ts) =
      let rest = positive_waits now ts in
      let wait = max_f (of_ℕ 0) (t ⊖ now) in if of_ℕ 0 ⊏ wait then wait ∷ rest else rest

  -- Without a reset time to come: `int(300 * 0.98)` is 294, `max(1, int(100 * 0.1))` is 10.
  default_wait : AdaptiveRateLimiter F → F
  default_wait s = elim s.exchange [
    | binance ↦ elim s.counters.order_count_10s [
      | none ↦ of_ℕ 0
      | some count ↦ if of_ℕ 294 ⊑ count then of_ℕ 1 else of_ℕ 0
    ]
    | bybit ↦ elim s.counters.remaining [
      | none ↦ of_ℕ 0
      | some r ↦ if r ⊑ of_ℕ 10 then of_ℕ 1 else of_ℕ 0
    ]
  ]

  -- `_time_until_reset`
  pub time_until_reset : F → AdaptiveRateLimiter F → F
  unfolding positive_waits default_wait
  time_until_reset now s =
      elim (positive_waits now
        (present s.reset_times.main (present s.reset_times.retry_after []))) [
          | [] ↦ default_wait s
          | wait ∷ waits ↦ min_of wait waits
        ]

  -- The clock is read only where the flow is throttled.
  unfoldable pub can_proceed : Bool → F → AdaptiveRateLimiter F → Bool × F
  unfolding get_usage_pct time_until_reset
  can_proceed is_sl now s =
      if is_sl
      then (true, of_ℕ 0)
      else if fl.ratio 9 10 ⊑ get_usage_pct s
      then (false, time_until_reset now s)
      else if fl.ratio 7 10 ⊑ get_usage_pct s
      then (true, fl.ratio 2 10)
      else (true, of_ℕ 0)

  module _ ⦃py : Format F⦄ (truncate : F → F) where
    -- `_to_float` and `_to_int`
    to_optional_float : Value F → Option F
    to_optional_float null = none
    to_optional_float v = py.parse_float (strip (py.show v))

    pub to_optional_int : Value F → Option F
    unfolding to_optional_float
    to_optional_int v = elim (to_optional_float v) [ none ↦ none | some x ↦ some (truncate x) ]

    retry_at : F → Value F → Option F
    unfolding to_optional_float
    retry_at now v = elim (to_optional_float v) [
      | none ↦ none
      | some x ↦ if of_ℕ 0 ⊏ x then some (now ⊕ x) else none
    ]

    parse_binance_headers :
        F → List (List ℕ × Value F) → AdaptiveRateLimiter F → AdaptiveRateLimiter F
    unfolding to_optional_int retry_at
    parse_binance_headers now headers s = record s {
      counters = record s.counters {
        order_count_10s =
            or_old (to_optional_int (header (codes "x-mbx-order-count-10s") headers))
              s.counters.order_count_10s;
        order_count_1m =
            or_old (to_optional_int (header (codes "x-mbx-order-count-1m") headers))
              s.counters.order_count_1m;
        weight_used_1m =
            or_old (to_optional_int (header (codes "x-mbx-used-weight-1m") headers))
              s.counters.weight_used_1m;
      };
      reset_times = record s.reset_times {
        retry_after =
            or_old (retry_at now (header (codes "retry-after") headers)) s.reset_times.retry_after;
      };
    }

    seconds : Option F → Option F
    seconds none = none
    seconds (some ms) = some (ms ⊘ of_ℕ 1000)

    parse_bybit_headers :
        F → List (List ℕ × Value F) → AdaptiveRateLimiter F → AdaptiveRateLimiter F
    unfolding to_optional_int retry_at seconds
    parse_bybit_headers now headers s = record s {
      counters = record s.counters {
        remaining =
            or_old (to_optional_int (header (codes "x-bapi-limit-status") headers))
              s.counters.remaining;
      };
      reset_times = record {
        main =
            or_old
              (seconds (to_optional_float (header (codes "x-bapi-limit-reset-timestamp") headers)))
              s.reset_times.main;
        retry_after =
            or_old (retry_at now (header (codes "retry-after") headers)) s.reset_times.retry_after;
      };
    }

    -- No headers change nothing, as any list without the names that count.
    pub update_from_headers :
        F → List (List ℕ × Value F) → AdaptiveRateLimiter F → AdaptiveRateLimiter F
    unfolding parse_binance_headers parse_bybit_headers
    update_from_headers now headers s = elim s.exchange [
      | binance ↦ parse_binance_headers now headers s
      | bybit ↦ parse_bybit_headers now headers s
    ]
