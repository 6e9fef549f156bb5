-- ===== src/Risk.antt =====
-- The limits of a strategy: its risk configuration and health reading, with the check before a trade
-- (PreTrade), the guard that pauses a live strategy (KpiGuard), and the gate and the lifecycle of its
-- promotion (Promotion). Counts, such as a leverage or a number of trades, are natural numbers.
pub mod PreTrade
pub mod KpiGuard
pub mod Promotion
mod Tests
use adviser_ai_constructor.Prelude.{ℕ, Bool, Option, none, some, List}

-- app/models/auto_trade_risk_config.py, without the kill switch and the anomaly detection
pub data ConflictPolicy : Type 0 where
  off block_opposite : ConflictPolicy

pub record AutoTradeRiskConfig (F : Type 0) : Type 0 where
  pub enabled : Bool
  pub daily_loss_limit_usdt : Option F
  pub daily_loss_limit_pct : Option F
  pub max_open_positions : Option ℕ
  pub max_open_positions_per_symbol : Option ℕ
  pub exposure_cap_usdt : Option F
  pub leverage_ceiling : Option ℕ
  pub conflicting_signal_policy : ConflictPolicy
  pub kpi_guard_enabled : Bool
  pub kpi_guard_max_dd_pct : Option F
  pub kpi_guard_max_daily_loss_usdt : Option F
  pub kpi_guard_max_daily_loss_pct : Option F
  pub kpi_guard_min_win_rate_pct : Option F
  pub kpi_guard_min_trades : Option ℕ
  pub promote_min_win_rate_pct : Option F
  pub promote_max_dd_pct : Option F
  pub promote_min_trades : Option ℕ
  pub promote_min_sandbox_days : Option F

-- app/services/auto_trade/health.py: the parts of `StrategyHealth` that are judged. Whether the class
-- is `insufficient_data` is a Boolean.
pub record StrategyHealth (F : Type 0) : Type 0 where
  pub sample_size : ℕ
  pub win_rate_pct : F
  pub max_dd_pct : F
  pub is_insufficient : Bool

abbrev pub health_min_trades : ℕ
health_min_trades = 10

-- The limit, if there is one, satisfies the predicate.
abbrev pub Under : {A : Type 0} → Option A → (A → Type 0) → Type 0
Under none P = Unit
Under (some a) P = P a

-- The limit is there and satisfies the predicate.
abbrev pub Over : {A : Type 0} → Option A → (A → Type 0) → Type 0
Over none P = ⊥
Over (some a) P = P a
