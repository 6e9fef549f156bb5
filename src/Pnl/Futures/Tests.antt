-- ===== src/Pnl/Futures/Tests.antt =====
-- The breakdown at concrete fills: a long that turns into a short, and a fee in a third asset.
use adviser_ai_constructor.Prelude.{ℕ, ◌≡◌, refl, none, some, List, [], ◌∷◌}
use adviser_ai_constructor.Float.{◌⊕◌, ◌⊖◌, ◌⊗◌, of_ℕ}
use adviser_ai_constructor.Float.Fixed.{
  ℤ, fixed, fixed-IsOrdered, fixed-IsCancelling, fixed-IsLiteral,
}
use adviser_ai_constructor.Text.{codes, text_eq, lower, upper, split_once, strip}
use adviser_ai_constructor.Pnl.{mark_of}
use adviser_ai_constructor.Pnl.Futures.{
  Fill, Fifo, RealizedBreakdown, split_symbol, fifo_pass, compute_realized_breakdown,
}
use adviser_ai_constructor.Pnl.Futures.Ends.{IsOneSided, fifo_pass-ends}
use adviser_ai_constructor.Pnl.Futures.Gross.{third_asset_fee-inflates}

abbrev fill_of : List ℕ → ℕ → ℕ → ℕ → List ℕ → Fill ℤ
fill_of side amount price fee fee_currency = record {
  id = codes "1";
  traded_at = of_ℕ 0;
  symbol = codes "BTC/USDT";
  side = side;
  amount = of_ℕ amount;
  price = of_ℕ price;
  fee_cost = of_ℕ fee;
  fee_currency = some fee_currency;
  realized_pnl = none;
}

-- A long of two is closed and turned into a short of three.
abbrev turned : List (Fill ℤ)
turned =
    fill_of (codes "buy") 2 100 0 (codes "USDT")
    ∷ fill_of (codes "SELL") 5 110 1 (codes "USDT")
    ∷ []

fifo_pass-ends_example :
    (s : Fifo ℤ) × (fifo_pass (codes "BTC") (codes "USDT") turned ≡ some s) × IsOneSided s
fifo_pass-ends_example =
    fifo_pass-ends fixed-IsOrdered fixed-IsCancelling fixed-IsLiteral (codes "BTC") (codes "USDT")
      turned

abbrev with_bnb_fee : Fill ℤ
with_bnb_fee = fill_of (codes "buy") 2 100 1 (codes "BNB")

third_asset_fee-inflates_example :
    (b : RealizedBreakdown ℤ) × (compute_realized_breakdown
        (codes "BTC/USDT")
        (with_bnb_fee ∷ [])
        (of_ℕ 0)
        none
        ((codes "BNB", of_ℕ 600) ∷ [])
      ≡ some b)
    × (b.commission ≡ of_ℕ 0 ⊕ (with_bnb_fee.fee_cost ⊗ of_ℕ 600))
    × (b.gross_realized ≡ (of_ℕ 0 ⊖ of_ℕ 0) ⊕ (of_ℕ 0 ⊕ (with_bnb_fee.fee_cost ⊗ of_ℕ 600)))
unfolding split_symbol text_eq lower upper split_once strip mark_of
third_asset_fee-inflates_example =
    third_asset_fee-inflates (codes "BTC/USDT") with_bnb_fee (of_ℕ 0) (of_ℕ 600) none
      ((codes "BNB", of_ℕ 600) ∷ []) b'B' (b'N' ∷ (b'B' ∷ [])) refl refl refl refl refl refl refl
      refl refl refl
