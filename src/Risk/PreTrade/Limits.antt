-- ===== src/Risk/PreTrade/Limits.antt =====
-- `check_pre_trade` allows a trade exactly if every limit that is set is kept.
use adviser_ai_constructor.Prelude.{
  ℕ, ◌≤◌, ◌<◌, ◌≡◌, ◌↔◌, ◌⊎◌, Bool, true, false, ◌&&◌, Option, none, some, List, [], ◌∷◌, arith,
  All, ltb, leb,
}
use adviser_ai_constructor.Float.{Float, ◌⊏◌, ◌⊑◌, of_ℕ}
use adviser_ai_constructor.Text.{text_eq}
use adviser_ai_constructor.Risk.{AutoTradeRiskConfig, ConflictPolicy, off, block_opposite, Under}
use adviser_ai_constructor.Risk.PreTrade.{
  Trend, side_trend, no_side, AutoTradePosition, AutoTradeConfig, breaks, opposite, same_side,
  is_open_of, exists_row, open_count, symbol_count, has_side, conflicts, projected, loss_of,
  loss_pct, check_loss_pct, check_enabled, check_pre_trade,
}

at_most :
    (limit : Option ℕ) (n : ℕ) → (breaks limit (λ c. ltb c n) ≡ false) ↔ (Under limit (λ c. n ≤ c))
at_most none n = ground arith
at_most (some c) n = ground arith

below :
    (limit : Option ℕ) (n : ℕ) → (breaks limit (λ c. leb c n) ≡ false) ↔ (Under limit (λ c. n < c))
below none n = ground arith
below (some c) n = ground arith

module _ {F : Type 0} ⦃fl : Float F⦄ where
  -- No open position of the user on the symbol has the side opposite to the signal's.
  abbrev pub IsUnopposed : ConflictPolicy → Trend → ℕ → List ℕ → List (AutoTradePosition F) → Type 0
  IsUnopposed block_opposite (side_trend side) user name rows =
      All
        (λ row.
          (is_open_of user row && text_eq row.symbol name && same_side row.side (opposite side))
          ≡ false)
        rows
  IsUnopposed policy trend user name rows = Unit

  -- The loss is less than the percentage of the balance, where there is a loss and a known, positive
  -- balance.
  abbrev pub IsSmallPart : F → Option F → F → Type 0
  IsSmallPart loss none limit = Unit
  IsSmallPart loss (some balance) limit =
      ((loss ⊑ of_ℕ 0) ≡ true)
      ⊎ ((balance ⊑ of_ℕ 0) ≡ true)
      ⊎ ((loss_pct loss balance ⊏ limit) ≡ true)

  abbrev pub IsWithinLimits :
      AutoTradeConfig F
      → AutoTradeRiskConfig F
      → Trend
      → List ℕ
      → List (AutoTradePosition F)
      → F
      → Option F
      → Type 0
  IsWithinLimits config risk trend name rows pnl balance =
      Under risk.leverage_ceiling (λ ceiling. config.leverage ≤ ceiling)
      × Under risk.max_open_positions (λ limit. open_count config.user_id rows < limit)
      × Under risk.max_open_positions_per_symbol
          (λ limit. symbol_count config.user_id name rows < limit)
      × IsUnopposed risk.conflicting_signal_policy trend config.user_id name rows
      × Under risk.exposure_cap_usdt (λ cap. (projected config rows ⊑ cap) ≡ true)
      × Under risk.daily_loss_limit_usdt (λ limit. (loss_of pnl ⊏ limit) ≡ true)
      × Under risk.daily_loss_limit_pct (IsSmallPart (loss_of pnl) balance)

  within :
      (limit : Option F) (x : F)
      → (breaks limit (λ c. c ⊏ x) ≡ false) ↔ (Under limit (λ c. (x ⊑ c) ≡ true))
  within none x = ground arith
  within (some c) x = ground arith

  under :
      (limit : Option F) (x : F)
      → (breaks limit (λ c. c ⊑ x) ≡ false) ↔ (Under limit (λ c. (x ⊏ c) ≡ true))
  under none x = ground arith
  under (some c) x = ground arith

  exists_row-All :
      (test : AutoTradePosition F → Bool) (rows : List (AutoTradePosition F))
      → (exists_row test rows ≡ false) ↔ (All (λ row. test row ≡ false) rows)
  unfolding exists_row
  exists_row-All test [] = ground arith
  exists_row-All test (row ∷ rows) = ground (arith, exists_row-All test rows)

  unopposed :
      (policy : ConflictPolicy) (trend : Trend) (user : ℕ) (name : List ℕ)
      (rows : List (AutoTradePosition F))
      → (conflicts policy trend user name rows ≡ false) ↔ (IsUnopposed policy trend user name rows)
  unfolding conflicts has_side
  unopposed block_opposite (side_trend side) user name rows =
      exists_row-All
        (λ row.
          is_open_of user row && text_eq row.symbol name && same_side row.side (opposite side))
        rows
  unopposed block_opposite no_side user name rows = ground arith
  unopposed off trend user name rows = ground arith

  small_part :
      (limit : Option F) (loss : F) (balance : Option F)
      → ((check_loss_pct limit loss balance).allowed ≡ true)
        ↔ (Under limit (IsSmallPart loss balance))
  unfolding check_loss_pct
  small_part none loss balance = ground arith
  small_part (some limit) loss none = ground arith
  small_part (some limit) loss (some balance) = ground arith

  -- A trade is allowed exactly if the limits are off or each limit that is set is kept: the leverage
  -- and the exposure may equal theirs, the counts and the losses must be below theirs, and the percent
  -- limit is not judged without a loss or without a positive balance.
  pub check-allowed :
      (config : AutoTradeConfig F) (risk : AutoTradeRiskConfig F) (trend : Trend) (name : List ℕ)
      (rows : List (AutoTradePosition F)) (pnl : F) (balance : Option F)
      → ((check_pre_trade config (some risk) trend name rows pnl balance).allowed ≡ true)
        ↔ ((risk.enabled ≡ false) ⊎ (IsWithinLimits config risk trend name rows pnl balance))
  unfolding check_pre_trade check_enabled
  check-allowed config risk trend name rows pnl balance = ground (
    arith,
    at_most risk.leverage_ceiling config.leverage,
    below risk.max_open_positions (open_count config.user_id rows),
    below risk.max_open_positions_per_symbol (symbol_count config.user_id name rows),
    unopposed risk.conflicting_signal_policy trend config.user_id name rows,
    within risk.exposure_cap_usdt (projected config rows),
    under risk.daily_loss_limit_usdt (loss_of pnl),
    small_part risk.daily_loss_limit_pct (loss_of pnl) balance,
  )
