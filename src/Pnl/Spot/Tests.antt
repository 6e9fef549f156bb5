-- ===== src/Pnl/Spot/Tests.antt =====
-- A purchase of two and a sale of one of them.
use adviser_ai_constructor.Prelude.{ℕ, ◌≡◌, refl, none, some, List, [], ◌∷◌}
use adviser_ai_constructor.Float.{of_ℕ}
use adviser_ai_constructor.Float.Fixed.{
  ℤ, fixed, fixed-IsOrdered, fixed-IsCancelling, fixed-IsLiteral,
}
use adviser_ai_constructor.Text.{codes, text_eq, text_lt, upper, split_once, strip}
use adviser_ai_constructor.Position.Queue.Task.{OrderSide, buy, sell}
use adviser_ai_constructor.Pnl.{close_lots, fee_to_quote, mark_of}
use adviser_ai_constructor.Pnl.Spot.{NormalizedTrade, Books, summary, calculate_spot_pnl}
use adviser_ai_constructor.Pnl.Spot.Returns.{IsSound, calculate_spot_pnl-returns}

abbrev trade : OrderSide → ℕ → ℕ → NormalizedTrade ℤ
trade side amount price = record {
  symbol = codes "btc/USDT:USDT";
  side = side;
  amount = of_ℕ amount;
  price = of_ℕ price;
  fee_cost = of_ℕ 0;
  fee_currency = none;
  timestamp = of_ℕ price;
}

abbrev trades : List (NormalizedTrade ℤ)
trades = trade sell 1 110 ∷ trade buy 2 100 ∷ []

abbrev balances : List (List ℕ × ℤ)
balances = (codes "BTC", of_ℕ 1) ∷ []

abbrev marks : List (List ℕ × ℤ)
marks = (codes "BTC", of_ℕ 120) ∷ []

-- The profit of one unit is realised, and that of the other is open.
example_pnl :
    calculate_spot_pnl trades balances (codes "usdt") marks
    ≡ some (record {
      rows =
          record {
            asset = codes "BTC";
            quantity = of_ℕ 1;
            average_entry_price = some (of_ℕ 100);
            mark_price = some (of_ℕ 120);
            realized_pnl_quote = of_ℕ 10;
            unrealized_pnl_quote = of_ℕ 20;
            total_fees_quote = of_ℕ 0;
          }
          ∷ [];
      realized_total = of_ℕ 10;
      unrealized_total = of_ℕ 20;
      fees_total = of_ℕ 0;
    })
unfolding calculate_spot_pnl text_eq text_lt upper split_once strip close_lots fee_to_quote mark_of
example_pnl = refl

calculate_spot_pnl-returns_example :
    (b : Books ℤ) × (calculate_spot_pnl trades balances (codes "usdt") marks
      ≡ some (summary (upper (codes "usdt")) balances marks b))
    × IsSound b
calculate_spot_pnl-returns_example =
    calculate_spot_pnl-returns fixed-IsOrdered fixed-IsCancelling fixed-IsLiteral trades balances
      (codes "usdt") marks
