-- ===== src/Pnl/Futures.antt =====
-- app/services/execution/futures_pnl.py: fills to lots, and the breakdown of the profit.
pub mod Ends
pub mod Gross
mod Tests
use adviser_ai_constructor.Prelude.{
  ℕ, suc, Bool, true, false, not, ◌&&◌, ◌||◌, Option, none, some, List, [], ◌∷◌, ◌++◌, length,
  if◌then◌else◌,
}
use adviser_ai_constructor.Float.{Float, ◌⊕◌, ◌⊖◌, ◌⊗◌, ◌⊏◌, ◌⊑◌, ◌≐◌, of_ℕ, max_f}
use adviser_ai_constructor.Text.{codes, text_eq, text_lt, split_once, strip, lower, upper}
use adviser_ai_constructor.Pnl.{Lot, Closing, before_colon, close_lots, fee_to_quote}

-- A row of the ledger, in the attributes that the source reads; `traded_at` is the timestamp, 0.0
-- without one.
pub record Fill (F : Type 0) : Type 0 where
  pub id : List ℕ
  pub traded_at : F
  pub symbol : List ℕ
  pub side : List ℕ
  pub amount : F
  pub price : F
  pub fee_cost : F
  pub fee_currency : Option (List ℕ)
  pub realized_pnl : Option F

-- The state of `_fifo_pass`
pub record Fifo (F : Type 0) : Type 0 where
  pub realized : F
  pub long_lots : List (Lot F Unit)
  pub short_lots : List (Lot F Unit)
  pub last_price : F

pub record RealizedBreakdown (F : Type 0) : Type 0 where
  pub gross_realized : F
  pub commission : F
  pub funding : F
  pub unrealized : Option F
  pub base_currency : List ℕ
  pub quote_currency : List ℕ

pub record FuturesPnlSnapshot (F : Type 0) : Type 0 where
  pub realized : F
  pub unrealized : F
  pub base_currency : List ℕ
  pub quote_currency : List ℕ

-- The two fields of `NormalizedFuturesPosition` that count here.
pub record LivePosition (F : Type 0) : Type 0 where
  pub mark_price : Option F
  pub unrealized_pnl : Option F

or_default : List ℕ → List ℕ → List ℕ
or_default [] default = default
or_default (c ∷ t) default = c ∷ t

-- `_split_symbol`
unfoldable pub split_symbol : List ℕ → List ℕ × List ℕ
unfolding or_default before_colon
split_symbol symbol = elim (split_once b'/' symbol) [
  | none ↦ (codes "UNKNOWN", codes "USDT")
  | some (base, quote_raw) ↦ (
    or_default (upper (strip base)) (codes "UNKNOWN"),
    or_default (upper (strip (before_colon quote_raw))) (codes "USDT"),
  )
]

module _ {F : Type 0} ⦃fl : Float F⦄ where
  -- `_sort_key(a) < _sort_key(b)`
  key_lt : Fill F → Fill F → Bool
  key_lt a b = if a.traded_at ≐ b.traded_at then text_lt a.id b.id else a.traded_at ⊏ b.traded_at

  -- `sorted(trades, key=_sort_key)`, which is stable.
  insert_fill : Fill F → List (Fill F) → List (Fill F)
  unfolding key_lt
  insert_fill x [] = x ∷ []
  insert_fill x (y ∷ rows) = if key_lt y x then y ∷ insert_fill x rows else x ∷ y ∷ rows

  pub sort_fills : List (Fill F) → List (Fill F)
  unfolding insert_fill
  sort_fills [] = []
  sort_fills (x ∷ rows) = insert_fill x (sort_fills rows)

  -- `_row_commission`
  pub row_commission : List ℕ → List ℕ → List (List ℕ × F) → Fill F → F
  row_commission base quote marks row =
      fee_to_quote (max_f (of_ℕ 0) row.fee_cost) row.fee_currency (max_f (of_ℕ 0) row.price) base
        quote marks

  -- `sum(_row_commission(row, ...) for row in rows)` on top of a total
  pub sum_commission : List ℕ → List ℕ → List (List ℕ × F) → F → List (Fill F) → F
  sum_commission base quote marks total [] = total
  sum_commission base quote marks total (row ∷ rows) =
      sum_commission base quote marks (total ⊕ row_commission base quote marks row) rows

  sum_fees : List (List ℕ × F) → F → List (Fill F) → F
  sum_fees marks total [] = total
  sum_fees marks total (row ∷ rows) =
      let parts = split_symbol row.symbol in
      sum_fees marks (total ⊕ row_commission parts.0 parts.1 marks row) rows

  sum_fee_cost_quote : List (Fill F) → List (List ℕ × F) → F
  unfolding sum_fees
  sum_fee_cost_quote rows marks = sum_fees marks (of_ℕ 0) rows

  open_lot : F → F → List (Lot F Unit) → List (Lot F Unit)
  open_lot remaining price lots =
      if of_ℕ 0 ⊏ remaining
      then lots ++ record { qty = remaining; entry_price = price; extra = tt } ∷ []
      else lots

  -- The lots of a side close by a loop on as much fuel as it needs.
  close_side : (F → F) → F → F → List (Lot F Unit) → Option (Closing F Unit)
  close_side gain realized remaining lots =
      close_lots (suc (length lots)) gain realized remaining lots

  buy_fill : F → F → F → Fifo F → Option (Fifo F)
  unfolding open_lot close_side
  buy_fill qty price realized s =
      elim (close_side (λ entry. entry ⊖ price) realized qty s.short_lots) [
        | none ↦ none
        | some c ↦ some (record {
          realized = c.realized;
          long_lots = open_lot c.remaining price s.long_lots;
          short_lots = c.lots;
          last_price = price;
        })
      ]

  sell_fill : F → F → F → Fifo F → Option (Fifo F)
  unfolding open_lot close_side
  sell_fill qty price realized s =
      elim (close_side (λ entry. price ⊖ entry) realized qty s.long_lots) [
        | none ↦ none
        | some c ↦ some (record {
          realized = c.realized;
          long_lots = c.lots;
          short_lots = open_lot c.remaining price s.short_lots;
          last_price = price;
        })
      ]

  -- A round of the loop of `_fifo_pass`; its fees are valued without mark prices.
  pub fifo_step : List ℕ → List ℕ → Fill F → Fifo F → Option (Fifo F)
  unfolding buy_fill sell_fill
  fifo_step base quote row s =
      let side = lower row.side in
      let qty = max_f (of_ℕ 0) row.amount in
      let price = max_f (of_ℕ 0) row.price in
      let fee = fee_to_quote (max_f (of_ℕ 0) row.fee_cost) row.fee_currency price base quote [] in
      if (qty ⊑ of_ℕ 0)
        || (price ⊑ of_ℕ 0)
        || not (text_eq side (codes "buy") || text_eq side (codes "sell"))
      then some s
      else if text_eq side (codes "buy")
      then buy_fill qty price (s.realized ⊖ fee) s
      else sell_fill qty price (s.realized ⊖ fee) s

  pub fifo_rows : List ℕ → List ℕ → List (Fill F) → Fifo F → Option (Fifo F)
  fifo_rows base quote [] s = some s
  fifo_rows base quote (row ∷ rows) s = elim (fifo_step base quote row s) [
    | none ↦ none
    | some s' ↦ fifo_rows base quote rows s'
  ]

  abbrev pub no_lots : Fifo F
  no_lots = record { realized = of_ℕ 0; long_lots = []; short_lots = []; last_price = of_ℕ 0 }

  -- `_fifo_pass`
  pub fifo_pass : List ℕ → List ℕ → List (Fill F) → Option (Fifo F)
  unfolding fifo_rows
  fifo_pass base quote rows = fifo_rows base quote rows no_lots

  -- The sum of the tags on top of a total, and the fills without one.
  sum_tagged : F → List (Fill F) → F
  sum_tagged total [] = total
  sum_tagged total (row ∷ rows) = elim row.realized_pnl [
    | none ↦ sum_tagged total rows
    | some x ↦ sum_tagged (total ⊕ x) rows
  ]

  untagged : List (Fill F) → List (Fill F)
  untagged [] = []
  untagged (row ∷ rows) =
      let rest = untagged rows in elim row.realized_pnl [ none ↦ row ∷ rest | some x ↦ rest ]

  any_tagged : List (Fill F) → Bool
  any_tagged [] = false
  any_tagged (row ∷ rows) = elim row.realized_pnl [ none ↦ any_tagged rows | some x ↦ true ]

  -- The gross profit of sorted fills, with that of their first-in-first-out pass and their commission.
  gross_of : List ℕ → List ℕ → List (List ℕ × F) → List (Fill F) → F → F → Option F
  unfolding sum_tagged untagged any_tagged
  gross_of base quote marks rows fifo_realized commission =
      if not (any_tagged rows) then some (fifo_realized ⊕ commission) else elim (untagged rows) [
        | [] ↦ some (sum_tagged (of_ℕ 0) rows)
        | row ∷ others ↦ elim (fifo_pass base quote (row ∷ others)) [
          | none ↦ none
          | some s ↦ some (
              sum_tagged (of_ℕ 0) rows
              ⊕ (s.realized ⊕ sum_commission base quote marks (of_ℕ 0) (row ∷ others)))
        ]
      ]

  live_mark : Option (LivePosition F) → F → F
  live_mark none last_price = last_price
  live_mark (some p) last_price = elim p.mark_price [
    | none ↦ last_price
    | some mark ↦ if of_ℕ 0 ⊏ mark then mark else last_price
  ]

  unrealized_long : F → F → List (Lot F Unit) → F
  unrealized_long mark total [] = total
  unrealized_long mark total (lot ∷ lots) =
      unrealized_long mark (total ⊕ ((mark ⊖ lot.entry_price) ⊗ lot.qty)) lots

  unrealized_short : F → F → List (Lot F Unit) → F
  unrealized_short mark total [] = total
  unrealized_short mark total (lot ∷ lots) =
      unrealized_short mark (total ⊕ ((lot.entry_price ⊖ mark) ⊗ lot.qty)) lots

  has_no_lots : Fifo F → Bool
  has_no_lots s = elim s.long_lots [
    | [] ↦ elim s.short_lots [ [] ↦ true | lot ∷ lots ↦ false ]
    | lot ∷ lots ↦ false
  ]

  lots_unrealized : F → Fifo F → Option F
  unfolding has_no_lots unrealized_long unrealized_short
  lots_unrealized mark s =
      if has_no_lots s
      then none
      else some (
          if of_ℕ 0 ⊏ mark
          then unrealized_short mark (unrealized_long mark (of_ℕ 0) s.long_lots) s.short_lots
          else of_ℕ 0)

  unrealized_of : Option (LivePosition F) → Fifo F → Option F
  unfolding live_mark lots_unrealized
  unrealized_of live s =
      let computed = lots_unrealized (live_mark live s.last_price) s in
      elim live [
        | none ↦ computed
        | some p ↦ elim p.unrealized_pnl [ none ↦ computed | some x ↦ some x ]
      ]

  -- `compute_realized_breakdown`
  pub compute_realized_breakdown :
      List ℕ
      → List (Fill F)
      → F
      → Option (LivePosition F)
      → List (List ℕ × F)
      → Option (RealizedBreakdown F)
  unfolding gross_of unrealized_of
  compute_realized_breakdown symbol trades funding live marks =
      let parts = split_symbol symbol in
      let rows = sort_fills trades in
      let commission = sum_commission parts.0 parts.1 marks (of_ℕ 0) rows in
      elim (fifo_pass parts.0 parts.1 rows) [
        | none ↦ none
        | some s ↦ elim (gross_of parts.0 parts.1 marks rows s.realized commission) [
          | none ↦ none
          | some gross ↦ some (record {
            gross_realized = gross;
            commission = commission;
            funding = funding;
            unrealized = unrealized_of live s;
            base_currency = parts.0;
            quote_currency = parts.1;
          })
        ]
      ]

  -- The properties of the breakdown
  net_realized : RealizedBreakdown F → F
  net_realized b = b.gross_realized ⊖ b.commission ⊕ b.funding

  total_pnl : RealizedBreakdown F → F
  unfolding net_realized
  total_pnl b = net_realized b ⊕ elim b.unrealized [ none ↦ of_ℕ 0 | some x ↦ x ]

  calculate_futures_pnl_fifo :
      List ℕ
      → List (Fill F)
      → Option (LivePosition F)
      → List (List ℕ × F)
      → Option (FuturesPnlSnapshot F)
  unfolding compute_realized_breakdown
  calculate_futures_pnl_fifo symbol trades live marks =
      elim (compute_realized_breakdown symbol trades (of_ℕ 0) live marks) [
        | none ↦ none
        | some b ↦ some (record {
          realized = b.gross_realized;
          unrealized = elim b.unrealized [ none ↦ of_ℕ 0 | some x ↦ x ];
          base_currency = b.base_currency;
          quote_currency = b.quote_currency;
        })
      ]
