-- ===== src/Pnl/Spot/Returns.antt =====
-- app/services/execution/pnl.py: the pass over the spot trades ends.
use adviser_ai_constructor.Prelude.{
  ℕ, suc, ◌≡◌, refl, inl, inr, true, ◌||◌, some, List, [], ◌∷◌, length, arith, All, All-append,
  Bool-cases, Option-cases,
}
use adviser_ai_constructor.Float.{
  Float, IsOrdered, IsCancelling, IsLiteral, ◌⊕◌, ◌⊖◌, ◌⊏◌, ◌⊑◌, of_ℕ, max_f,
}
use adviser_ai_constructor.Text.{text_eq, upper}
use adviser_ai_constructor.Position.Queue.Task.{OrderSide, buy, sell}
use adviser_ai_constructor.Pnl.{Lot, fee_to_quote}
use adviser_ai_constructor.Pnl.Close.{IsPositive, close_lots-ends}
use adviser_ai_constructor.Pnl.Spot.{
  NormalizedTrade, Books, put, spot_symbol, sort_trades, no_books, with_fee, spot_buy, spot_sell,
  spot_trade, spot_step, spot_trades, summary, calculate_spot_pnl,
}

module _ {F : Type 0} ⦃fl : Float F⦄ where
  -- Each open lot of each asset has a positive quantity.
  abbrev pub IsSound : Books F → Type 0
  IsSound books = (a : List ℕ) → All IsPositive (books.lots_by_asset a)

  put-IsSound :
      (base : List ℕ) (lots : List (Lot F F)) (dict : List ℕ → List (Lot F F))
      → All IsPositive lots
      → ((a : List ℕ) → All IsPositive (dict a))
      → (a : List ℕ) → All IsPositive (put base lots dict a)
  put-IsSound base lots dict p h a = elim (Bool-cases (text_eq a base)) [
    | inl same ↦ rw same p
    | inr other ↦ rw other (h a)
  ]

  buy-IsSound :
      (base : List ℕ) (qty price fee : F) (books : Books F)
      → (of_ℕ 0 ⊏ qty) ≡ true
      → IsSound books
      → IsSound (spot_buy base qty price fee books)
  unfolding spot_buy
  buy-IsSound base qty price fee books more h =
      put-IsSound base _ books.lots_by_asset
        (All-append _ (books.lots_by_asset base) _ (h base) (more, tt)) h

module _ {F : Type 0} ⦃fl : Float F⦄ (ordered : IsOrdered F fl) (cancelling : IsCancelling F fl)
    (literal : IsLiteral F fl) where
  sell-ends :
      (base : List ℕ) (qty price fee : F) (books : Books F)
      → IsSound books
      → (b : Books F) × (spot_sell base qty price fee books ≡ some b) × IsSound b
  unfolding spot_sell
  sell-ends base qty price fee books h =
      let lots = books.lots_by_asset base in
      let (c, e, closed) =
        close_lots-ends ordered cancelling literal (suc (length lots)) (λ entry. price ⊖ entry)
          (of_ℕ 0) qty lots (omega arith) (h base) in
      (
        record books {
          lots_by_asset = put base c.lots books.lots_by_asset;
          realized_by_asset =
              put base ((books.realized_by_asset base ⊕ c.realized) ⊖ fee) books.realized_by_asset;
        },
        rw (e, spot_sell) refl,
        put-IsSound base c.lots books.lots_by_asset closed.1 h,
      )

  side-ends :
      (side : OrderSide) (base : List ℕ) (qty price fee : F) (books : Books F)
      → (of_ℕ 0 ⊏ qty) ≡ true
      → IsSound books
      → (b : Books F) × (elim side [
        | buy ↦ some (spot_buy base qty price fee books)
        | sell ↦ spot_sell base qty price fee books
      ]
          ≡ some b)
        × IsSound b
  side-ends buy base qty price fee books more h =
      (spot_buy base qty price fee books, refl, buy-IsSound base qty price fee books more h)
  side-ends sell base qty price fee books more h = sell-ends base qty price fee books h

  trade-ends :
      (quote : List ℕ) (marks : List (List ℕ × F)) (trade : NormalizedTrade F) (base : List ℕ)
      (books : Books F)
      → IsSound books
      → (b : Books F) × (spot_trade quote marks trade base books ≡ some b) × IsSound b
  unfolding spot_trade with_fee
  trade-ends quote marks trade base books h =
      let qty = max_f (of_ℕ 0) trade.amount in
      let price = max_f (of_ℕ 0) trade.price in
      let fee = fee_to_quote trade.fee_cost trade.fee_currency trade.price base quote marks in
      elim (Bool-cases ((qty ⊑ of_ℕ 0) || (price ⊑ of_ℕ 0))) [
        | inl none_filled ↦ (books, rw none_filled refl, h)
        | inr filled ↦
            rw filled
              (side-ends trade.side base qty price fee (with_fee base fee books) (ground arith) h)
      ]

  step-ends :
      (quote : List ℕ) (marks : List (List ℕ × F)) (trade : NormalizedTrade F) (books : Books F)
      → IsSound books
      → (b : Books F) × (spot_step quote marks trade books ≡ some b) × IsSound b
  unfolding spot_step
  step-ends quote marks trade books h = elim (Option-cases (spot_symbol trade.symbol)) [
    | inl e ↦ (books, rw (e, spot_step) refl, h)
    | inr ((base, trade_quote), e) ↦ elim (Bool-cases (text_eq trade_quote quote)) [
      | inl same ↦
          let (b, e', h') = trade-ends quote marks trade base books h in
          (b, rw (e, same, spot_step) e', h')
      | inr other ↦ (books, rw (e, other, spot_step) refl, h)
    ]
  ]

  trades-end :
      (quote : List ℕ) (marks : List (List ℕ × F)) (trades : List (NormalizedTrade F))
      (books : Books F)
      → IsSound books
      → (b : Books F) × (spot_trades quote marks trades books ≡ some b) × IsSound b
  unfolding spot_trades
  trades-end quote marks [] books h = (books, refl, h)
  trades-end quote marks (trade ∷ trades) books h =
      let (m, e, h') = step-ends quote marks trade books h in
      let (b, e', h'') = trades-end quote marks trades m h' in (b, rw (e, spot_trades) e', h'')

  -- Where the floats are ordered, a float less itself is zero and the literals are not negative: the view of
  -- the spot trades returns, for any trades in any order, and its rows are those of books in which each
  -- open lot has a positive quantity.
  pub calculate_spot_pnl-returns :
      (trades : List (NormalizedTrade F)) (balances : List (List ℕ × F)) (quote_asset : List ℕ)
      (marks : List (List ℕ × F))
      → (b : Books F) × (calculate_spot_pnl trades balances quote_asset marks
          ≡ some (summary (upper quote_asset) balances marks b))
        × IsSound b
  unfolding calculate_spot_pnl
  calculate_spot_pnl-returns trades balances quote_asset marks =
      let (b, e, h) =
        trades-end (upper quote_asset) marks (sort_trades trades) no_books (λ a. tt) in
      (b, rw (e, calculate_spot_pnl) refl, h)
