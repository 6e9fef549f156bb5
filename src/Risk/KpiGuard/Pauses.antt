-- ===== src/Risk/KpiGuard/Pauses.antt =====
-- When the guard pauses a strategy.
use adviser_ai_constructor.Prelude.{
  ℕ, ◌≤◌, ◌≡◌, ◌↔◌, ◌⊎◌, Bool, true, false, Option, none, some, List, [], ◌∷◌, ◌++◌, arith,
}
use adviser_ai_constructor.Float.{Float, ◌⊏◌, ◌⊑◌, of_ℕ, neg}
use adviser_ai_constructor.Risk.{
  AutoTradeRiskConfig, StrategyHealth, health_min_trades, Under, Over,
}
use adviser_ai_constructor.Risk.KpiGuard.{
  GuardRule, daily_loss, max_dd, min_win_rate, breach_if, is_nonempty, realized_pct, pct_breach,
  has_enough, is_reliable, statistical, breaches_of, decide, evaluate_kpi_guard,
}

nonempty-append :
    {A : Type 0} (xs ys : List A)
    → (is_nonempty (xs ++ ys) ≡ true) ↔ ((is_nonempty xs ≡ true) ⊎ (is_nonempty ys ≡ true))
nonempty-append [] ys = ground arith
nonempty-append (x ∷ xs) ys = ground arith

module _ {F : Type 0} ⦃fl : Float F⦄ where
  -- The sample is not insufficient, has ten trades, and as many as the configuration asks for.
  abbrev pub IsReliable : StrategyHealth F → Option ℕ → Type 0
  IsReliable health min_trades =
      (health.is_insufficient ≡ false)
      × (health_min_trades ≤ health.sample_size)
      × Under min_trades (λ n. n ≤ health.sample_size)

  -- There is a loss, the balance is known and positive, and the loss has reached the percentage.
  abbrev pub IsLargePart : F → Option F → F → Type 0
  IsLargePart loss balance limit = Over balance (λ b.
      ((of_ℕ 0 ⊏ loss) ≡ true) × ((of_ℕ 0 ⊏ b) ≡ true) × ((limit ⊑ realized_pct loss b) ≡ true))

  abbrev pub IsBreached : StrategyHealth F → AutoTradeRiskConfig F → F → Option F → Type 0
  IsBreached health risk loss balance =
      Over risk.kpi_guard_max_daily_loss_usdt (λ l. (l ⊑ loss) ≡ true)
      ⊎ Over risk.kpi_guard_max_daily_loss_pct (IsLargePart loss balance)
      ⊎ (IsReliable health risk.kpi_guard_min_trades
          × (Over risk.kpi_guard_max_dd_pct (λ l. (l ⊑ health.max_dd_pct) ≡ true)
              ⊎ Over risk.kpi_guard_min_win_rate_pct (λ l. (health.win_rate_pct ⊏ l) ≡ true)))

  breach_if-Over :
      (rule : GuardRule) (limit : Option F) (actual : F) (test : F → Bool)
      → (is_nonempty (breach_if rule limit actual test) ≡ true) ↔ (Over limit (λ l. test l ≡ true))
  unfolding breach_if
  breach_if-Over rule none actual test = ground arith
  breach_if-Over rule (some l) actual test = ground arith

  reliable :
      (health : StrategyHealth F) (limit : Option ℕ)
      → (is_reliable health limit ≡ true) ↔ (IsReliable health limit)
  unfolding is_reliable has_enough
  reliable health none = ground arith
  reliable health (some n) = ground arith

  pct-Over :
      (limit : Option F) (loss : F) (balance : Option F)
      → (is_nonempty (pct_breach limit loss balance) ≡ true)
        ↔ (Over limit (IsLargePart loss balance))
  unfolding pct_breach breach_if
  pct-Over none loss none = ground arith
  pct-Over none loss (some b) = ground arith
  pct-Over (some l) loss none = ground arith
  pct-Over (some l) loss (some b) = ground arith

  statistical-Over :
      (health : StrategyHealth F) (risk : AutoTradeRiskConfig F)
      → (is_nonempty (statistical health risk) ≡ true) ↔ (
          IsReliable health risk.kpi_guard_min_trades
          × (Over risk.kpi_guard_max_dd_pct (λ l. (l ⊑ health.max_dd_pct) ≡ true)
              ⊎ Over risk.kpi_guard_min_win_rate_pct (λ l. (health.win_rate_pct ⊏ l) ≡ true)))
  unfolding statistical
  statistical-Over health risk = ground (
    arith,
    reliable health risk.kpi_guard_min_trades,
    breach_if-Over max_dd risk.kpi_guard_max_dd_pct health.max_dd_pct (λ l. l ⊑ health.max_dd_pct),
    breach_if-Over min_win_rate risk.kpi_guard_min_win_rate_pct health.win_rate_pct
        (λ l. health.win_rate_pct ⊏ l),
    nonempty-append
        (breach_if max_dd risk.kpi_guard_max_dd_pct health.max_dd_pct (λ l. l ⊑ health.max_dd_pct))
        (breach_if min_win_rate risk.kpi_guard_min_win_rate_pct health.win_rate_pct
          (λ l. health.win_rate_pct ⊏ l)),
  )

  -- A strategy is paused exactly if the guard is on and a limit that is set is breached: the loss of
  -- the day on any sample, the drawdown and the win rate only on a reliable one.
  pub guard-pauses :
      (health : StrategyHealth F) (risk : AutoTradeRiskConfig F) (pnl : F) (balance : Option F)
      → ((evaluate_kpi_guard health (some risk) pnl balance).should_pause ≡ true)
        ↔ ((risk.kpi_guard_enabled ≡ true) × (IsBreached health risk (neg pnl) balance))
  unfolding evaluate_kpi_guard decide breaches_of
  guard-pauses health risk pnl balance =
      let loss = neg pnl in
      let daily = breach_if daily_loss risk.kpi_guard_max_daily_loss_usdt loss (λ l. l ⊑ loss) in
      let percent = pct_breach risk.kpi_guard_max_daily_loss_pct loss balance in
      ground (
        arith,
        breach_if-Over daily_loss risk.kpi_guard_max_daily_loss_usdt loss (λ l. l ⊑ loss),
        pct-Over risk.kpi_guard_max_daily_loss_pct loss balance,
        statistical-Over health risk,
        nonempty-append daily (percent ++ statistical health risk),
        nonempty-append percent (statistical health risk),
      )
