-- ===== src/Risk/Promotion/Gate.antt =====
-- What a promotion asks for, and why a promoted strategy is not paused at once.
use adviser_ai_constructor.Prelude.{
  ◌≤◌, ◌≡◌, ◌↔◌, ◌⊎◌, inl, inr, true, false, Option, none, some, arith, Option-cases,
}
use adviser_ai_constructor.Float.{Float, IsOrdered, ◌⊏◌, ◌⊑◌}
use adviser_ai_constructor.Risk.{
  AutoTradeRiskConfig, StrategyHealth, health_min_trades, Under, Over,
}
use adviser_ai_constructor.Risk.KpiGuard.{evaluate_kpi_guard}
use adviser_ai_constructor.Risk.KpiGuard.Pauses.{guard-pauses}
use adviser_ai_constructor.Risk.Promotion.{
  all_passed, is_proven, criteria_of, min_trades_of, min_days_of, min_win_rate_of, max_dd_of,
  evaluate_promotion_gate,
}

module _ {F : Type 0} ⦃fl : Float F⦄ where
  -- A reliable sample, enough days, a high enough win rate and a low enough drawdown, each by the
  -- configuration or by its default.
  abbrev pub IsPromotable : StrategyHealth F → Option (AutoTradeRiskConfig F) → F → Type 0
  IsPromotable health risk_cfg days =
      (health.is_insufficient ≡ false)
      × (health_min_trades ≤ health.sample_size)
      × (min_trades_of risk_cfg ≤ health.sample_size)
      × ((min_days_of risk_cfg ⊑ days) ≡ true)
      × ((min_win_rate_of risk_cfg ⊑ health.win_rate_pct) ≡ true)
      × ((health.max_dd_pct ⊑ max_dd_of risk_cfg) ≡ true)

  -- The gate lets a strategy through exactly if its sample is reliable and it meets all four criteria.
  pub gate-promotes :
      (health : StrategyHealth F) (risk_cfg : Option (AutoTradeRiskConfig F)) (days : F)
      → ((evaluate_promotion_gate health risk_cfg days).can_promote ≡ true)
        ↔ (IsPromotable health risk_cfg days)
  unfolding evaluate_promotion_gate all_passed criteria_of is_proven
  gate-promotes health risk_cfg days = ground arith

  calm_statistics :
      IsOrdered F fl
      → (health : StrategyHealth F) (risk : AutoTradeRiskConfig F) (days : F)
      → IsPromotable health (some risk) days
      → Under risk.kpi_guard_max_dd_pct (λ l. (max_dd_of (some risk) ⊏ l) ≡ true)
      → Under risk.kpi_guard_min_win_rate_pct (λ l. (l ⊑ min_win_rate_of (some risk)) ≡ true)
      → Over risk.kpi_guard_max_dd_pct (λ l. (l ⊑ health.max_dd_pct) ≡ true)
        ⊎ Over risk.kpi_guard_min_win_rate_pct (λ l. (health.win_rate_pct ⊏ l) ≡ true)
      → ⊥
  calm_statistics ordered health risk days p dd win (inl h) =
      elim (Option-cases risk.kpi_guard_max_dd_pct) [
        | inl e ↦ ground arith
        | inr (l, e) ↦ ground (arith, ordered.leq_trans l health.max_dd_pct (max_dd_of (some risk)))
      ]
  calm_statistics ordered health risk days p dd win (inr h) =
      elim (Option-cases risk.kpi_guard_min_win_rate_pct) [
        | inl e ↦ ground arith
        | inr (l, e) ↦
            ground (arith, ordered.leq_trans l (min_win_rate_of (some risk)) health.win_rate_pct)
      ]

  -- Where the floats are ordered, a strategy that the gate lets through is not paused by the guard
  -- on the same health reading, if the guard allows a strictly larger drawdown than the gate and
  -- asks for no higher win rate, and has no limit on the loss of the day.
  promoted-unpaused :
      IsOrdered F fl
      → (health : StrategyHealth F) (risk : AutoTradeRiskConfig F) (days pnl : F)
        (balance : Option F)
      → (evaluate_promotion_gate health (some risk) days).can_promote ≡ true
      → Under risk.kpi_guard_max_dd_pct (λ l. (max_dd_of (some risk) ⊏ l) ≡ true)
      → Under risk.kpi_guard_min_win_rate_pct (λ l. (l ⊑ min_win_rate_of (some risk)) ≡ true)
      → risk.kpi_guard_max_daily_loss_usdt ≡ none
      → risk.kpi_guard_max_daily_loss_pct ≡ none
      → (evaluate_kpi_guard health (some risk) pnl balance).should_pause ≡ false
  promoted-unpaused ordered health risk days pnl balance promoted dd win no_usdt no_pct = ground (
    arith,
    guard-pauses health risk pnl balance,
    calm_statistics ordered health risk days ((gate-promotes health (some risk) days).0 promoted) dd
        win,
  )
