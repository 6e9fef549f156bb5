-- ===== src/Pnl/Spot.antt =====
-- app/services/execution/pnl.py: the profit of spot trades, asset by asset.
pub mod Returns
mod Tests
use adviser_ai_constructor.Prelude.{
  ℕ, suc, Bool, true, false, not, ◌&&◌, ◌||◌, Option, none, some, List, [], ◌∷◌, ◌++◌, length,
  if◌then◌else◌,
}
use adviser_ai_constructor.Float.{Float, ◌⊕◌, ◌⊖◌, ◌⊗◌, ◌⊘◌, ◌⊏◌, ◌⊑◌, ◌≐◌, of_ℕ, max_f}
use adviser_ai_constructor.Text.{text_eq, text_lt, split_once, strip, upper}
use adviser_ai_constructor.Position.Queue.Task.{OrderSide, buy, sell}
use adviser_ai_constructor.Pnl.{Lot, Closing, before_colon, mark_of, close_lots, fee_to_quote}

-- `NormalizedTrade`, in the fields that count; `timestamp` is that of 1970 without one.
pub record NormalizedTrade (F : Type 0) : Type 0 where
  pub symbol : List ℕ
  pub side : OrderSide
  pub amount : F
  pub price : F
  pub fee_cost : F
  pub fee_currency : Option (List ℕ)
  pub timestamp : F

pub record SpotPnlAsset (F : Type 0) : Type 0 where
  pub asset : List ℕ
  pub quantity : F
  pub average_entry_price : Option F
  pub mark_price : Option F
  pub realized_pnl_quote : F
  pub unrealized_pnl_quote : F
  pub total_fees_quote : F

-- The three dicts by asset, with what a missing key stands for, and the keys of `lots_by_asset`,
-- which are all keys. The clean price of a lot is its `extra`.
pub record Books (F : Type 0) : Type 0 where
  pub assets : List (List ℕ)
  pub lots_by_asset : List ℕ → List (Lot F F)
  pub realized_by_asset : List ℕ → F
  pub fees_by_asset : List ℕ → F

pub record SpotPnl (F : Type 0) : Type 0 where
  pub rows : List (SpotPnlAsset F)
  pub realized_total : F
  pub unrealized_total : F
  pub fees_total : F

abbrev pub put : {A : Type 0} → List ℕ → A → (List ℕ → A) → List ℕ → A
put key x dict k = if text_eq k key then x else dict k

both_or_none : List ℕ → List ℕ → Option (List ℕ × List ℕ)
both_or_none [] quote = none
both_or_none base [] = none
both_or_none base quote = some (base, quote)

-- `_split_symbol`
spot_symbol : List ℕ → Option (List ℕ × List ℕ)
unfolding both_or_none before_colon
spot_symbol symbol = elim (split_once b'/' symbol) [
  | none ↦ none
  | some (left, right) ↦ both_or_none (upper (strip left)) (upper (strip (before_colon right)))
]

-- `sorted` of a set, by insertion
add_asset : List ℕ → List (List ℕ) → List (List ℕ)
add_asset a [] = a ∷ []
add_asset a (b ∷ assets) =
    let rest = add_asset a assets in
    if text_eq a b then b ∷ assets else if text_lt a b then a ∷ b ∷ assets else b ∷ rest

add_assets : List (List ℕ) → List (List ℕ) → List (List ℕ)
unfolding add_asset
add_assets [] assets = assets
add_assets (a ∷ more) assets = add_asset a (add_assets more assets)

module _ {F : Type 0} ⦃fl : Float F⦄ where
  insert_trade : NormalizedTrade F → List (NormalizedTrade F) → List (NormalizedTrade F)
  insert_trade x [] = x ∷ []
  insert_trade x (y ∷ trades) =
      if y.timestamp ⊏ x.timestamp then y ∷ insert_trade x trades else x ∷ y ∷ trades

  -- `sorted(trades, key=_trade_sort_key)`, which is stable.
  sort_trades : List (NormalizedTrade F) → List (NormalizedTrade F)
  unfolding insert_trade
  sort_trades [] = []
  sort_trades (x ∷ trades) = insert_trade x (sort_trades trades)

  abbrev pub no_books : Books F
  no_books = record {
    assets = [];
    lots_by_asset = λ a. [];
    realized_by_asset = λ a. of_ℕ 0;
    fees_by_asset = λ a. of_ℕ 0;
  }

  -- The books with the fee of a trade, which also makes the key of the asset.
  with_fee : List ℕ → F → Books F → Books F
  unfolding add_asset
  with_fee base fee books = record books {
    assets = add_asset base books.assets;
    fees_by_asset = put base (books.fees_by_asset base ⊕ fee) books.fees_by_asset;
  }

  spot_buy : List ℕ → F → F → F → Books F → Books F
  spot_buy base qty price fee books =
      let lot : Lot F F = record {
        qty = qty;
        entry_price = ((price ⊗ qty) ⊕ fee) ⊘ qty;
        extra = price;
      } in
      record books {
        lots_by_asset = put base (books.lots_by_asset base ++ lot ∷ []) books.lots_by_asset;
      }

  spot_sell : List ℕ → F → F → F → Books F → Option (Books F)
  spot_sell base qty price fee books =
      let lots = books.lots_by_asset base in
      elim (close_lots (suc (length lots)) (λ entry. price ⊖ entry) (of_ℕ 0) qty lots) [
        | none ↦ none
        | some c ↦ some (record books {
          lots_by_asset = put base c.lots books.lots_by_asset;
          realized_by_asset =
              put base ((books.realized_by_asset base ⊕ c.realized) ⊖ fee) books.realized_by_asset;
        })
      ]

  spot_trade : List ℕ → List (List ℕ × F) → NormalizedTrade F → List ℕ → Books F → Option (Books F)
  unfolding with_fee spot_buy spot_sell
  spot_trade quote marks trade base books =
      let qty = max_f (of_ℕ 0) trade.amount in
      let price = max_f (of_ℕ 0) trade.price in
      let fee = fee_to_quote trade.fee_cost trade.fee_currency trade.price base quote marks in
      if (qty ⊑ of_ℕ 0) || (price ⊑ of_ℕ 0) then some books else elim trade.side [
        | buy ↦ some (spot_buy base qty price fee (with_fee base fee books))
        | sell ↦ spot_sell base qty price fee (with_fee base fee books)
      ]

  -- A round of the loop over the trades.
  spot_step : List ℕ → List (List ℕ × F) → NormalizedTrade F → Books F → Option (Books F)
  unfolding spot_symbol spot_trade
  spot_step quote marks trade books = elim (spot_symbol trade.symbol) [
    | none ↦ some books
    | some (base, trade_quote) ↦
        if text_eq trade_quote quote then spot_trade quote marks trade base books else some books
  ]

  spot_trades : List ℕ → List (List ℕ × F) → List (NormalizedTrade F) → Books F → Option (Books F)
  unfolding spot_step
  spot_trades quote marks [] books = some books
  spot_trades quote marks (trade ∷ trades) books = elim (spot_step quote marks trade books) [
    | none ↦ none
    | some books' ↦ spot_trades quote marks trades books'
  ]

  sum_with : (Lot F F → F) → F → List (Lot F F) → F
  sum_with f total [] = total
  sum_with f total (lot ∷ lots) = sum_with f (total ⊕ f lot) lots

  -- The mean of a price of the lots, by quantity.
  mean_price : (Lot F F → F) → List (Lot F F) → Option F
  unfolding sum_with
  mean_price f [] = none
  mean_price f (lot ∷ lots) =
      let lot_qty = sum_with (λ l. l.qty) (of_ℕ 0) (lot ∷ lots) in
      if of_ℕ 0 ⊏ lot_qty
      then some (sum_with (λ l. l.qty ⊗ f l) (of_ℕ 0) (lot ∷ lots) ⊘ lot_qty)
      else none

  spot_unrealized : F → Option F → Option F → F
  spot_unrealized qty (some cost) (some mark) =
      if (of_ℕ 0 ⊏ qty) && (of_ℕ 0 ⊏ mark) then (mark ⊖ cost) ⊗ qty else of_ℕ 0
  spot_unrealized qty _ _ = of_ℕ 0

  or_zero : Option F → F
  or_zero none = of_ℕ 0
  or_zero (some x) = x

  -- The row of an asset; `balances` is `balance_map`.
  row_of : List (List ℕ × F) → List (List ℕ × F) → Books F → List ℕ → SpotPnlAsset F
  unfolding mean_price spot_unrealized or_zero
  row_of marks balances books asset =
      let qty = max_f (of_ℕ 0) (or_zero (mark_of asset balances)) in
      let lots = books.lots_by_asset asset in
      record {
        asset = asset;
        quantity = qty;
        average_entry_price = mean_price (λ l. l.extra) lots;
        mark_price = mark_of asset marks;
        realized_pnl_quote = books.realized_by_asset asset;
        unrealized_pnl_quote =
            spot_unrealized qty (mean_price (λ l. l.entry_price) lots) (mark_of asset marks);
        total_fees_quote = books.fees_by_asset asset;
      }

  is_listed : SpotPnlAsset F → Bool
  is_listed row =
      (of_ℕ 0 ⊏ row.quantity)
      || not (row.realized_pnl_quote ≐ of_ℕ 0)
      || not (row.total_fees_quote ≐ of_ℕ 0)

  -- The loop over the assets, with the totals so far.
  list_rows : List ℕ → (List ℕ → SpotPnlAsset F) → F → F → F → List (List ℕ) → SpotPnl F
  unfolding is_listed
  list_rows quote row realized unrealized fees [] = record {
    rows = [];
    realized_total = realized;
    unrealized_total = unrealized;
    fees_total = fees;
  }
  list_rows quote row realized unrealized fees (asset ∷ assets) =
      let r = row asset in
      let skipped = list_rows quote row realized unrealized fees assets in
      let rest =
        list_rows quote row (realized ⊕ r.realized_pnl_quote) (unrealized ⊕ r.unrealized_pnl_quote)
          (fees ⊕ r.total_fees_quote) assets in
      if text_eq asset quote
      then skipped
      else if is_listed r
      then record rest { rows = r ∷ rest.rows }
      else skipped

  keys_of : List (List ℕ × F) → List (List ℕ)
  keys_of [] = []
  keys_of ((a, x) ∷ balances) = a ∷ keys_of balances

  pub summary : List ℕ → List (List ℕ × F) → List (List ℕ × F) → Books F → SpotPnl F
  unfolding list_rows row_of add_assets keys_of
  summary quote balances marks books =
      list_rows quote (row_of marks balances books) (of_ℕ 0) (of_ℕ 0) (of_ℕ 0)
        (add_assets (keys_of balances) books.assets)

  -- `calculate_spot_pnl`; the keys of `balances` are in capitals, without repetition.
  pub calculate_spot_pnl :
      List (NormalizedTrade F) → List (List ℕ × F) → List ℕ → List (List ℕ × F) → Option (SpotPnl F)
  unfolding sort_trades spot_trades summary
  calculate_spot_pnl trades balances quote_asset marks =
      let quote = upper quote_asset in
      elim (spot_trades quote marks (sort_trades trades) no_books) [
        | none ↦ none
        | some books ↦ some (summary quote balances marks books)
      ]
