-- ===== src/Risk/Tests.antt =====
-- The limits at concrete configurations.
use adviser_ai_constructor.Prelude.{◌≡◌, ◌↔◌, ◌⊎◌, refl, true, false, some, none, List, ◌∷◌, []}
use adviser_ai_constructor.Float.{of_ℕ, neg}
use adviser_ai_constructor.Float.Fixed.{ℤ, pos, fixed}
use adviser_ai_constructor.Text.{codes}
use adviser_ai_constructor.Risk.{block_opposite, AutoTradeRiskConfig, StrategyHealth}
use adviser_ai_constructor.Risk.PreTrade.{
  long, short, side_trend, AutoTradePosition, AutoTradeConfig, check_pre_trade,
}
use adviser_ai_constructor.Risk.PreTrade.Limits.{IsWithinLimits, check-allowed}
use adviser_ai_constructor.Risk.KpiGuard.{evaluate_kpi_guard}
use adviser_ai_constructor.Risk.KpiGuard.Pauses.{IsBreached, guard-pauses}
use adviser_ai_constructor.Risk.Promotion.{
  sandbox, live, PromotionTrigger, request_promotion, gate_passed, demote, machine, Attempt, run,
  evaluate_promotion_gate,
}
use adviser_ai_constructor.Risk.Promotion.Gate.{IsPromotable, gate-promotes}

abbrev usdt : ℤ
usdt = pos 1000000000

abbrev risk : AutoTradeRiskConfig ℤ
risk = record {
  enabled = true;
  daily_loss_limit_usdt = some (pos 50000000000);
  daily_loss_limit_pct = none;
  max_open_positions = some 1;
  max_open_positions_per_symbol = none;
  exposure_cap_usdt = none;
  leverage_ceiling = some 10;
  conflicting_signal_policy = block_opposite;
  kpi_guard_enabled = true;
  kpi_guard_max_dd_pct = some (pos 30000000000);
  kpi_guard_max_daily_loss_usdt = none;
  kpi_guard_max_daily_loss_pct = none;
  kpi_guard_min_win_rate_pct = some (pos 40000000000);
  kpi_guard_min_trades = none;
  promote_min_win_rate_pct = none;
  promote_max_dd_pct = none;
  promote_min_trades = none;
  promote_min_sandbox_days = none;
}

abbrev config : AutoTradeConfig ℤ
config = record { user_id = 1; leverage = 5; position_size_usdt = usdt }

-- An open short of another user.
abbrev rows : List (AutoTradePosition ℤ)
rows =
    record {
      user_id = 2;
      is_open = true;
      symbol = codes "BTC";
      side = short;
      position_size_usdt = usdt;
    }
    ∷ []

check-allowed_example :
    ((check_pre_trade config (some risk) (side_trend long) (codes "BTC") rows usdt none).allowed
      ≡ true)
    ↔ ((risk.enabled ≡ false)
        ⊎ (IsWithinLimits config risk (side_trend long) (codes "BTC") rows usdt none))
check-allowed_example = check-allowed config risk (side_trend long) (codes "BTC") rows usdt none

abbrev health : StrategyHealth ℤ
health = record {
  sample_size = 25;
  win_rate_pct = pos 60000000000;
  max_dd_pct = pos 20000000000;
  is_insufficient = false;
}

guard-pauses_example :
    ((evaluate_kpi_guard health (some risk) usdt none).should_pause ≡ true)
    ↔ ((risk.kpi_guard_enabled ≡ true) × (IsBreached health risk (neg usdt) none))
guard-pauses_example = guard-pauses health risk usdt none

gate-promotes_example :
    ((evaluate_promotion_gate health (some risk) (of_ℕ 8)).can_promote ≡ true)
    ↔ (IsPromotable health (some risk) (of_ℕ 8))
gate-promotes_example = gate-promotes health (some risk) (of_ℕ 8)

abbrev attempt : PromotionTrigger → Attempt
attempt trigger = record { now = "t"; reason = ""; trigger = trigger }

-- The first attempt is refused.
abbrev attempts : List Attempt
attempts = attempt demote ∷ attempt request_promotion ∷ attempt gate_passed ∷ []

arrives : (run attempts (machine 3 sandbox)).stage ≡ live
unfolding run
arrives = refl
