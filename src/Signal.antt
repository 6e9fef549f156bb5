-- ===== src/Signal.antt =====
-- app/services/auto_trade/signal.py: the symbols of markets, and the parsing of a signal. A payload
-- is a JSON object; the parsing of an ISO timestamp is an argument, and so are the timestamps of the
-- history as texts. What raises a ValueError gives `none`.
pub mod Symbols
pub mod Parse
mod Tests
use adviser_ai_constructor.Prelude.{
  ℕ, ◌+◌, Bool, true, false, not, ◌&&◌, ◌||◌, Option, none, some, List, [], ◌∷◌, ◌++◌, leb, length,
  if◌then◌else◌,
}
use adviser_ai_constructor.Float.{Float, ◌⊗◌, ◌⊏◌, ◌⊑◌, ◌≐◌, of_ℕ}
use adviser_ai_constructor.Text.{codes, text_eq, strip, upper, split_once}
use adviser_ai_constructor.Position.Queue.Task.{Format}

-- Values of JSON, but for arrays, which no branch reads.
mutual
  pub data Json (F : Type 0) : Type 0 where
    null : Json F
    bool : Bool → Json F
    num : F → Json F
    text : List ℕ → Json F
    object : Fields F → Json F

  pub data Fields (F : Type 0) : Type 0 where
    empty : Fields F
    field : List ℕ → Json F → Fields F → Fields F

pub data SignalTrend : Type 0 where
  long short neutral : SignalTrend

pub record ParsedAutoTradeSignal (F : Type 0) (T : Type 0) : Type 0 where
  pub schema_version : List ℕ
  pub symbol : List ℕ
  pub trend : SignalTrend
  pub confidence_pct : F
  pub price_current : F
  pub generated_at : T

-- `payload.get(key)`, null for a missing one, and `key in payload`
unfoldable pub get_field : {F : Type 0} → List ℕ → Fields F → Json F
get_field key empty = null
get_field key (field k v rest) = if text_eq k key then v else get_field key rest

has : {F : Type 0} → List ℕ → Fields F → Bool
has key empty = false
has key (field k v rest) = if text_eq k key then true else has key rest

has_all : {F : Type 0} → List (List ℕ) → Fields F → Bool
unfolding has
has_all [] payload = true
has_all (k ∷ ks) payload = has k payload && has_all ks payload

-- `re.sub(r"[^A-Z0-9]", "", raw)`
is_letter : ℕ → Bool
is_letter c = leb b'A' c && leb c b'Z'

compact_of : List ℕ → List ℕ
unfolding is_letter
compact_of [] = []
compact_of (c ∷ t) =
    let rest = compact_of t in if is_letter c || (leb b'0' c && leb c b'9') then c ∷ rest else rest

all_letters : List ℕ → Bool
unfolding is_letter
all_letters [] = true
all_letters (c ∷ t) = is_letter c && all_letters t

-- What stands before a suffix, if the text ends with it.
before_suffix : List ℕ → List ℕ → Option (List ℕ)
before_suffix suffix [] = none
before_suffix suffix (c ∷ t) =
    let rest = before_suffix suffix t in
    if text_eq (c ∷ t) suffix then some [] else elim rest [ none ↦ none | some s ↦ some (c ∷ s) ]

abbrev is_empty : List ℕ → Bool
is_empty [] = true
is_empty (c ∷ t) = false

abbrev known_quotes : List (List ℕ)
known_quotes =
    codes "USDT"
    ∷ codes "USDC"
    ∷ codes "USD"
    ∷ codes "BTC"
    ∷ codes "ETH"
    ∷ codes "EUR"
    ∷ codes "BUSD"
    ∷ []

abbrev default_quote : List ℕ
default_quote = codes "USDT"

-- `compact.isalpha() and 2 <= len(compact) <= 10`
is_bare : List ℕ → Bool
unfolding all_letters
is_bare compact = all_letters compact && leb 2 (length compact) && leb (length compact) 10

-- The quote of a pair, up to a colon
quote_of : List ℕ → List ℕ
quote_of t = elim (split_once b':' t) [ none ↦ strip t | some parts ↦ strip parts.0 ]

-- `any(compact.endswith(quote) and len(compact) > len(quote) ...)`
ends_with_quote : List (List ℕ) → List ℕ → Bool
unfolding before_suffix
ends_with_quote [] compact = false
ends_with_quote (q ∷ quotes) compact = elim (before_suffix q compact) [
  | none ↦ ends_with_quote quotes compact
  | some base ↦ if is_empty base then ends_with_quote quotes compact else true
]

key_of_pair : List ℕ × List ℕ → Option (List ℕ)
unfolding quote_of
key_of_pair (left, right) =
    if is_empty (strip left) || is_empty (quote_of right)
    then none
    else some (strip left ++ quote_of right)

key_of_compact : List ℕ → Option (List ℕ)
unfolding ends_with_quote is_bare
key_of_compact compact =
    if is_empty compact
    then none
    else if ends_with_quote known_quotes compact
    then some compact
    else if is_bare compact
    then some (compact ++ default_quote)
    else none

-- `symbol_market_key`
pub symbol_market_key : List ℕ → Option (List ℕ)
unfolding key_of_pair key_of_compact compact_of
symbol_market_key symbol =
    let raw = upper (strip symbol) in
    if is_empty raw then none else elim (split_once b'/' raw) [
      | some parts ↦ key_of_pair parts
      | none ↦ key_of_compact (compact_of raw)
    ]

-- `f"{base}/{quote}:{quote}"`
abbrev pub linear : List ℕ → List ℕ → List ℕ
linear base quote = base ++ (b'/' ∷ (quote ++ (b':' ∷ quote)))

linear_of_pair : List ℕ × List ℕ → Option (List ℕ)
unfolding quote_of
linear_of_pair (left, right) =
    if is_empty (strip left) || is_empty (quote_of right)
    then none
    else some (linear (strip left) (quote_of right))

linear_of_quotes : List (List ℕ) → List ℕ → Option (List ℕ)
unfolding before_suffix
linear_of_quotes [] compact = none
linear_of_quotes (q ∷ quotes) compact = elim (before_suffix q compact) [
  | none ↦ linear_of_quotes quotes compact
  | some base ↦ if is_empty base then linear_of_quotes quotes compact else some (linear base q)
]

linear_of_compact : List ℕ → Option (List ℕ)
unfolding linear_of_quotes is_bare
linear_of_compact compact = elim (linear_of_quotes known_quotes compact) [
  | some t ↦ some t
  | none ↦ if is_bare compact then some (linear compact default_quote) else none
]

-- `to_linear_perp_symbol`
pub to_linear_perp_symbol : List ℕ → Option (List ℕ)
unfolding linear_of_pair linear_of_compact compact_of
to_linear_perp_symbol symbol =
    let raw = upper (strip symbol) in
    if is_empty raw then none else elim (split_once b'/' raw) [
      | some parts ↦ linear_of_pair parts
      | none ↦ linear_of_compact (compact_of raw)
    ]

-- `to_chart_symbol`
to_chart_symbol : List ℕ → Option (List ℕ)
unfolding to_linear_perp_symbol
to_chart_symbol symbol = elim (to_linear_perp_symbol symbol) [
  | none ↦ none
  | some t ↦ elim (split_once b'/' t) [
    | none ↦ none
    | some (base, quote_part) ↦ elim (split_once b':' quote_part) [
      | none ↦ some (base ++ (b'/' ∷ quote_part))
      | some parts ↦ some (base ++ (b'/' ∷ parts.0))
    ]
  ]
]

-- `value.replace("Z", "+00:00")`
replace_z : List ℕ → List ℕ
replace_z [] = []
replace_z (c ∷ t) =
    if text_eq (c ∷ []) (codes "Z") then codes "+00:00" ++ replace_z t else c ∷ replace_z t

module _ {F : Type 0} ⦃fl : Float F⦄ ⦃py : Format F⦄ where
  -- `a or b`
  or_json : Json F → Json F → Json F
  or_json null b = b
  or_json (bool false) b = b
  or_json (bool true) b = bool true
  or_json (num x) b = if x ≐ of_ℕ 0 then b else num x
  or_json (text []) b = b
  or_json (text (c ∷ t)) b = text (c ∷ t)
  or_json (object empty) b = b
  or_json (object (field k v rest)) b = object (field k v rest)

  -- `float(value)` of an int, float or str that is no bool
  number_of : Json F → Option F
  number_of (num x) = some x
  number_of (text t) = py.parse_float t
  number_of _ = none

  json_of : Option (List ℕ) → Json F
  json_of none = null
  json_of (some t) = text t

  -- `_normalize_trend_from_bias`
  normalize_trend : Json F → Json F
  normalize_trend (text t) =
      let name = upper (strip t) in
      if text_eq name (codes "LONG") || text_eq name (codes "BULLISH")
      then text (codes "LONG")
      else if text_eq name (codes "SHORT") || text_eq name (codes "BEARISH")
      then text (codes "SHORT")
      else if text_eq name (codes "NEUTRAL") || text_eq name (codes "FLAT")
      then text (codes "NEUTRAL")
      else null
  normalize_trend _ = null

  -- `_normalize_confidence_pct`
  normalize_confidence : Json F → Json F
  unfolding number_of
  normalize_confidence v = elim (number_of v) [
    | none ↦ null
    | some x ↦ num (if x ⊑ of_ℕ 1 then x ⊗ of_ℕ 100 else x)
  ]

  adapted : Fields F → Option (List ℕ) → Option (List ℕ) → Option (List ℕ) → Fields F
  unfolding or_json json_of normalize_trend normalize_confidence get_field
  adapted analysis history_symbol core_completed_at history_created_at =
      field (codes "schema_version") (text (codes "legacy-analysisStructured-v1")) (
        field (codes "symbol")
          (or_json (get_field (codes "symbol") analysis) (json_of history_symbol))
          (field (codes "trend") (normalize_trend (get_field (codes "bias") analysis)) (
            field (codes "confidence_pct")
              (normalize_confidence (get_field (codes "confidence") analysis))
              (field (codes "price")
                (object (field (codes "current") (get_field (codes "currentPrice") analysis) empty))
                (field (codes "generated_at")
                  (or_json (get_field (codes "timestamp") analysis)
                    (or_json (json_of core_completed_at) (json_of history_created_at)))
                  empty)))))

  -- `adapt_legacy_analysis_structured_payload` of a dict
  pub adapt_legacy : Fields F → Option (List ℕ) → Option (List ℕ) → Option (List ℕ) → Fields F
  unfolding adapted has_all
  adapt_legacy payload history_symbol core_completed_at history_created_at =
      if has_all
        (codes "schema_version"
          ∷ codes "symbol"
          ∷ codes "trend"
          ∷ codes "confidence_pct"
          ∷ codes "price"
          ∷ codes "generated_at"
          ∷ [])
        payload
      then payload
      else elim (get_field (codes "analysisStructured") payload) [
        | object analysis ↦ adapted analysis history_symbol core_completed_at history_created_at
        | _ ↦ payload
      ]

  -- The text without blanks around it, `none` if nothing is left or it is no text.
  stripped : Json F → Option (List ℕ)
  stripped (text t) = if is_empty (strip t) then none else some (strip t)
  stripped _ = none

  trend_of : Json F → Option SignalTrend
  trend_of (text t) =
      let name = upper (strip t) in
      if text_eq name (codes "LONG")
      then some long
      else if text_eq name (codes "SHORT")
      then some short
      else if text_eq name (codes "NEUTRAL")
      then some neutral
      else none
  trend_of _ = none

  confidence_of : Json F → Option F
  unfolding number_of
  confidence_of v = elim (number_of v) [
    | none ↦ none
    | some x ↦
        let c = if (of_ℕ 0 ⊏ x) && (x ⊑ of_ℕ 1) then x ⊗ of_ℕ 100 else x in
        if (c ⊏ of_ℕ 0) || (of_ℕ 100 ⊏ c) then none else some c
  ]

  price_of : Json F → Option F
  unfolding number_of get_field
  price_of (object price) = elim (number_of (get_field (codes "current") price)) [
    | none ↦ none
    | some x ↦ if x ⊑ of_ℕ 0 then none else some x
  ]
  price_of _ = none

  module _ {T : Type 0} (fromisoformat : List ℕ → Option T) where
    time_of : Json F → Option T
    unfolding replace_z
    time_of (text t) = if is_empty (strip t) then none else fromisoformat (replace_z t)
    time_of _ = none

    -- `parse_auto_trade_signal` of a dict
    pub parse_auto_trade_signal : Fields F → Option (ParsedAutoTradeSignal F T)
    unfolding stripped trend_of confidence_of price_of time_of
    parse_auto_trade_signal payload = elim (stripped (get_field (codes "schema_version") payload)) [
      | none ↦ none
      | some version ↦ elim (stripped (get_field (codes "symbol") payload)) [
        | none ↦ none
        | some symbol ↦ elim (trend_of (get_field (codes "trend") payload)) [
          | none ↦ none
          | some trend ↦ elim (confidence_of (get_field (codes "confidence_pct") payload)) [
            | none ↦ none
            | some confidence ↦ elim (price_of (get_field (codes "price") payload)) [
              | none ↦ none
              | some price ↦ elim (time_of (get_field (codes "generated_at") payload)) [
                | none ↦ none
                | some time ↦ some (record {
                  schema_version = version;
                  symbol = symbol;
                  trend = trend;
                  confidence_pct = confidence;
                  price_current = price;
                  generated_at = time;
                })
              ]
            ]
          ]
        ]
      ]
    ]
