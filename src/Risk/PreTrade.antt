-- ===== src/Risk/PreTrade.antt =====
-- app/services/auto_trade/risk/engine.py: `check_pre_trade`. The rows of the table of positions are a
-- list, and the queries are counts, sums and tests over it; the sum is taken in the order of the
-- list. The texts and the payload of a decision are left out.

pub mod Limits
use adviser_ai_constructor.Prelude.{
  ℕ, ◌+◌, Bool, true, false, not, ◌&&◌, ◌||◌, Option, none, some, List, [], ◌∷◌, ltb, leb, ◌==◌,
  if◌then◌else◌,
}
use adviser_ai_constructor.Float.{Float, ◌⊕◌, ◌⊗◌, ◌⊘◌, ◌⊏◌, ◌⊑◌, of_ℕ, max_f, neg}
use adviser_ai_constructor.Text.{text_eq}
use adviser_ai_constructor.Risk.{AutoTradeRiskConfig, ConflictPolicy, off, block_opposite}

pub data Side : Type 0 where
  long short : Side

-- `signal.trend`
pub data Trend : Type 0 where
  side_trend : Side → Trend
  no_side : Trend

-- A row of `auto_trade_positions`.
pub record AutoTradePosition (F : Type 0) : Type 0 where
  pub user_id : ℕ
  pub is_open : Bool
  pub symbol : List ℕ
  pub side : Side
  pub position_size_usdt : F

pub record AutoTradeConfig (F : Type 0) : Type 0 where
  pub user_id : ℕ
  pub leverage : ℕ
  pub position_size_usdt : F

pub data Rule : Type 0 where
  leverage max_open max_open_per_symbol conflicting_signal exposure daily_loss daily_loss_pct : Rule

-- `warning`: the advisory that the percent rule was skipped.
pub record RiskDecision : Type 0 where
  pub allowed : Bool
  pub rule : Option Rule
  pub warning : Bool

abbrev pub allow : Bool → RiskDecision
allow warned = record { allowed = true; rule = none; warning = warned }

abbrev pub block : Rule → RiskDecision
block why = record { allowed = false; rule = some why; warning = false }

abbrev pub same_side : Side → Side → Bool
same_side long long = true
same_side short short = true
same_side _ _ = false

abbrev pub opposite : Side → Side
opposite long = short
opposite short = long

-- `limit is not None and ...`
abbrev pub breaks : {A : Type 0} → Option A → (A → Bool) → Bool
breaks none test = false
breaks (some limit) test = test limit

module _ {F : Type 0} ⦃fl : Float F⦄ where
  -- `AutoTradePosition.user_id == user, AutoTradePosition.status == "open"`
  abbrev pub is_open_of : ℕ → AutoTradePosition F → Bool
  is_open_of user row = (row.user_id == user) && row.is_open

  pub count_rows : (AutoTradePosition F → Bool) → List (AutoTradePosition F) → ℕ
  count_rows test [] = 0
  count_rows test (row ∷ rows) =
      let rest = count_rows test rows in if test row then rest + 1 else rest

  pub exists_row : (AutoTradePosition F → Bool) → List (AutoTradePosition F) → Bool
  exists_row test [] = false
  exists_row test (row ∷ rows) = if test row then true else exists_row test rows

  -- The sum of the posted margins, 0.0 if there is none.
  pub sum_sizes : (AutoTradePosition F → Bool) → List (AutoTradePosition F) → F
  sum_sizes test [] = of_ℕ 0
  sum_sizes test (row ∷ rows) =
      let rest = sum_sizes test rows in if test row then rest ⊕ row.position_size_usdt else rest

  abbrev pub open_count : ℕ → List (AutoTradePosition F) → ℕ
  unfolding count_rows
  open_count user rows = count_rows (is_open_of user) rows

  abbrev pub symbol_count : ℕ → List ℕ → List (AutoTradePosition F) → ℕ
  unfolding count_rows
  symbol_count user name rows =
      count_rows (λ row. is_open_of user row && text_eq row.symbol name) rows

  has_side : ℕ → List ℕ → Side → List (AutoTradePosition F) → Bool
  unfolding exists_row
  has_side user name side rows =
      exists_row (λ row. is_open_of user row && text_eq row.symbol name && same_side row.side side)
        rows

  -- A position of the opposite side is open, and the policy is to block.
  pub conflicts : ConflictPolicy → Trend → ℕ → List ℕ → List (AutoTradePosition F) → Bool
  unfolding has_side
  conflicts block_opposite (side_trend side) user name rows =
      has_side user name (opposite side) rows
  conflicts policy trend user name rows = false

  abbrev pub projected : AutoTradeConfig F → List (AutoTradePosition F) → F
  unfolding sum_sizes
  projected config rows = sum_sizes (is_open_of config.user_id) rows ⊕ config.position_size_usdt

  abbrev pub loss_of : F → F
  loss_of pnl = max_f (of_ℕ 0) (neg pnl)

  abbrev pub loss_pct : F → F → F
  loss_pct loss balance = loss ⊘ balance ⊗ of_ℕ 100

  -- The percent rule: it decides last.
  pub check_loss_pct : Option F → F → Option F → RiskDecision
  check_loss_pct none loss balance = allow false
  check_loss_pct (some limit) loss none = allow (of_ℕ 0 ⊏ loss)
  check_loss_pct (some limit) loss (some balance) =
      if (of_ℕ 0 ⊏ loss) && (of_ℕ 0 ⊏ balance) && (limit ⊑ loss_pct loss balance)
      then block daily_loss_pct
      else allow false

  pub check_enabled :
      AutoTradeConfig F
      → AutoTradeRiskConfig F
      → Trend
      → List ℕ
      → List (AutoTradePosition F)
      → F
      → Option F
      → RiskDecision
  unfolding count_rows sum_sizes conflicts check_loss_pct
  check_enabled config risk trend name rows pnl balance =
      if breaks risk.leverage_ceiling (λ ceiling. ltb ceiling config.leverage)
      then block leverage
      else if breaks risk.max_open_positions (λ limit. leb limit (open_count config.user_id rows))
      then block max_open
      else if breaks risk.max_open_positions_per_symbol
          (λ limit. leb limit (symbol_count config.user_id name rows))
      then block max_open_per_symbol
      else if conflicts risk.conflicting_signal_policy trend config.user_id name rows
      then block conflicting_signal
      else if breaks risk.exposure_cap_usdt (λ cap. cap ⊏ projected config rows)
      then block exposure
      else if breaks risk.daily_loss_limit_usdt (λ limit. limit ⊑ loss_of pnl)
      then block daily_loss
      else check_loss_pct risk.daily_loss_limit_pct (loss_of pnl) balance

  pub check_pre_trade :
      AutoTradeConfig F
      → Option (AutoTradeRiskConfig F)
      → Trend
      → List ℕ
      → List (AutoTradePosition F)
      → F
      → Option F
      → RiskDecision
  unfolding check_enabled
  check_pre_trade config none trend name rows pnl balance = allow false
  check_pre_trade config (some risk) trend name rows pnl balance =
      if not risk.enabled
      then allow false
      else check_enabled config risk trend name rows pnl balance
