-- ===== src/Risk/KpiGuard.antt =====
-- app/services/auto_trade/risk/kpi_guard.py: when a live strategy is paused.

pub mod Pauses
use adviser_ai_constructor.Prelude.{
  ℕ, Bool, true, false, not, ◌&&◌, Option, none, some, List, [], ◌∷◌, ◌++◌, ltb, leb, if◌then◌else◌,
}
use adviser_ai_constructor.Float.{Float, ◌⊗◌, ◌⊘◌, ◌⊏◌, ◌⊑◌, of_ℕ, neg}
use adviser_ai_constructor.Risk.{AutoTradeRiskConfig, StrategyHealth, health_min_trades}

pub data GuardRule : Type 0 where
  daily_loss daily_loss_pct max_dd min_win_rate : GuardRule

pub record GuardBreach (F : Type 0) : Type 0 where
  pub rule : GuardRule
  pub actual : F
  pub threshold : F

-- `warning`: the percent rule was skipped.
pub record GuardDecision (F : Type 0) : Type 0 where
  pub should_pause : Bool
  pub breaches : List (GuardBreach F)
  pub warning : Bool

abbrev no_pause : {F : Type 0} → GuardDecision F
no_pause = record { should_pause = false; breaches = []; warning = false }

-- The breach, if there is a limit and the test on it holds.
breach_if : {F : Type 0} → GuardRule → Option F → F → (F → Bool) → List (GuardBreach F)
breach_if rule none actual test = []
breach_if rule (some limit) actual test =
    if test limit then record { rule = rule; actual = actual; threshold = limit } ∷ [] else []

-- `bool(breaches)`
abbrev is_nonempty : {A : Type 0} → List A → Bool
is_nonempty [] = false
is_nonempty (x ∷ xs) = true

pub has_enough : Option ℕ → ℕ → Bool
has_enough none sample = true
has_enough (some limit) sample = leb limit sample

module _ {F : Type 0} ⦃fl : Float F⦄ where
  abbrev pub realized_pct : F → F → F
  realized_pct loss balance = loss ⊘ balance ⊗ of_ℕ 100

  has_balance : Option F → Bool
  has_balance none = false
  has_balance (some balance) = of_ℕ 0 ⊏ balance

  pct_breach : Option F → F → Option F → List (GuardBreach F)
  unfolding breach_if
  pct_breach limit loss none = []
  pct_breach limit loss (some balance) =
      if (of_ℕ 0 ⊏ loss) && (of_ℕ 0 ⊏ balance)
      then breach_if daily_loss_pct limit (realized_pct loss balance)
          (λ l. l ⊑ realized_pct loss balance)
      else []

  pct_warning : Option F → F → Option F → Bool
  unfolding has_balance
  pct_warning none loss balance = false
  pct_warning (some limit) loss balance = (of_ℕ 0 ⊏ loss) && not (has_balance balance)

  pub is_reliable : StrategyHealth F → Option ℕ → Bool
  unfolding has_enough
  is_reliable health min_trades =
      not health.is_insufficient
      && leb health_min_trades health.sample_size
      && has_enough min_trades health.sample_size

  statistical : StrategyHealth F → AutoTradeRiskConfig F → List (GuardBreach F)
  unfolding is_reliable breach_if
  statistical health risk =
      if is_reliable health risk.kpi_guard_min_trades
      then breach_if max_dd risk.kpi_guard_max_dd_pct health.max_dd_pct (λ l. l ⊑ health.max_dd_pct)
        ++ breach_if min_win_rate risk.kpi_guard_min_win_rate_pct health.win_rate_pct
            (λ l. health.win_rate_pct ⊏ l)
      else []

  breaches_of : StrategyHealth F → AutoTradeRiskConfig F → F → Option F → List (GuardBreach F)
  unfolding statistical pct_breach breach_if
  breaches_of health risk loss balance =
      breach_if daily_loss risk.kpi_guard_max_daily_loss_usdt loss (λ l. l ⊑ loss)
      ++ (pct_breach risk.kpi_guard_max_daily_loss_pct loss balance ++ statistical health risk)

  decide : StrategyHealth F → AutoTradeRiskConfig F → F → Option F → GuardDecision F
  unfolding breaches_of pct_warning
  decide health risk loss balance = record {
    should_pause = is_nonempty (breaches_of health risk loss balance);
    breaches = breaches_of health risk loss balance;
    warning = pct_warning risk.kpi_guard_max_daily_loss_pct loss balance;
  }

  pub evaluate_kpi_guard :
      StrategyHealth F → Option (AutoTradeRiskConfig F) → F → Option F → GuardDecision F
  unfolding decide
  evaluate_kpi_guard health none pnl balance = no_pause
  evaluate_kpi_guard health (some risk) pnl balance =
      if not risk.kpi_guard_enabled then no_pause else decide health risk (neg pnl) balance
