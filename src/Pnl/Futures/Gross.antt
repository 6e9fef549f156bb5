-- ===== src/Pnl/Futures/Gross.antt =====
-- The gross profit of the breakdown: the tags of the exchange, and what an opening fill adds to it.
use adviser_ai_constructor.Prelude.{
  ℕ, ◌≡◌, refl, true, false, Option, none, some, List, [], ◌∷◌, arith,
}
use adviser_ai_constructor.Float.{Float, ◌⊕◌, ◌⊖◌, ◌⊗◌, ◌⊏◌, of_ℕ, max_f}
use adviser_ai_constructor.Text.{codes, text_eq, lower, upper}
use adviser_ai_constructor.Pnl.{close_lots, mark_of, fee_in, fee_to_quote}
use adviser_ai_constructor.Pnl.Futures.{
  Fill, Fifo, RealizedBreakdown, LivePosition, split_symbol, sort_fills, row_commission,
  insert_fill, sum_commission, unrealized_of, open_lot, close_side, buy_fill, fifo_step, fifo_rows,
  fifo_pass, no_lots, any_tagged, gross_of, compute_realized_breakdown,
}

module _ {F : Type 0} ⦃fl : Float F⦄ where
  max_f-positive : (x : F) → (of_ℕ 0 ⊏ x) ≡ true → max_f (of_ℕ 0) x ≡ x
  max_f-positive x h = rw h refl

  third_asset_fee :
      (fee price mark : F) (c : ℕ) (t base quote : List ℕ) (marks : List (List ℕ × F))
      → (of_ℕ 0 ⊏ fee) ≡ true
      → text_eq (upper (c ∷ t)) quote ≡ false
      → text_eq (upper (c ∷ t)) base ≡ false
      → mark_of (upper (c ∷ t)) marks ≡ some mark
      → (of_ℕ 0 ⊏ mark) ≡ true
      → (fee_to_quote fee (some (c ∷ t)) price base quote [] ≡ of_ℕ 0)
        × (fee_to_quote fee (some (c ∷ t)) price base quote marks ≡ fee ⊗ mark)
  unfolding fee_to_quote fee_in mark_of
  third_asset_fee fee price mark c t base quote marks h q b m p = ground arith

  step-buy :
      (base quote : List ℕ) (row : Fill F) (s : Fifo F)
      → text_eq (lower row.side) (codes "buy") ≡ true
      → (of_ℕ 0 ⊏ row.amount) ≡ true
      → (of_ℕ 0 ⊏ row.price) ≡ true
      → fifo_step base quote row s
        ≡ buy_fill
            (max_f (of_ℕ 0) row.amount)
            (max_f (of_ℕ 0) row.price)
            (s.realized
              ⊖ fee_to_quote
                  (max_f (of_ℕ 0) row.fee_cost)
                  row.fee_currency
                  (max_f (of_ℕ 0) row.price)
                  base
                  quote
                  [])
            s
  unfolding fifo_step
  step-buy base quote row s buy qty price = ground arith

  abbrev bought : List ℕ → List ℕ → Fill F → Fifo F
  unfolding open_lot
  bought base quote row = record {
    realized =
        of_ℕ 0
        ⊖ fee_to_quote (max_f (of_ℕ 0) row.fee_cost) row.fee_currency (max_f (of_ℕ 0) row.price)
            base quote [];
    long_lots = open_lot (max_f (of_ℕ 0) row.amount) (max_f (of_ℕ 0) row.price) [];
    short_lots = [];
    last_price = max_f (of_ℕ 0) row.price;
  }

  -- A buy into no lots takes only its fee from the profit.
  first_buy :
      (base quote : List ℕ) (row : Fill F)
      → text_eq (lower row.side) (codes "buy") ≡ true
      → (of_ℕ 0 ⊏ row.amount) ≡ true
      → (of_ℕ 0 ⊏ row.price) ≡ true
      → fifo_pass base quote (row ∷ []) ≡ some (bought base quote row)
  unfolding fifo_pass fifo_rows buy_fill close_side close_lots
  first_buy base quote row buy qty price =
      rw (step-buy base quote row no_lots buy qty price, fifo_rows) refl

  -- A first fill that buys and that the exchange did not tag realises nothing, and its fee is in a
  -- third asset that has a mark price: then the commission is that fee, and the gross profit, which
  -- should be free of fees, is zero less zero plus that fee.
  pub third_asset_fee-inflates :
      (symbol : List ℕ) (row : Fill F) (funding mark : F) (live : Option (LivePosition F))
      (marks : List (List ℕ × F)) (c : ℕ) (t : List ℕ)
      → row.realized_pnl ≡ none
      → text_eq (lower row.side) (codes "buy") ≡ true
      → (of_ℕ 0 ⊏ row.amount) ≡ true
      → (of_ℕ 0 ⊏ row.price) ≡ true
      → (of_ℕ 0 ⊏ row.fee_cost) ≡ true
      → row.fee_currency ≡ some (c ∷ t)
      → text_eq (upper (c ∷ t)) (split_symbol symbol).1 ≡ false
      → text_eq (upper (c ∷ t)) (split_symbol symbol).0 ≡ false
      → mark_of (upper (c ∷ t)) marks ≡ some mark
      → (of_ℕ 0 ⊏ mark) ≡ true
      → (b : RealizedBreakdown F) × (compute_realized_breakdown symbol (row ∷ []) funding live marks
          ≡ some b)
        × (b.commission ≡ of_ℕ 0 ⊕ (row.fee_cost ⊗ mark))
        × (b.gross_realized ≡ (of_ℕ 0 ⊖ of_ℕ 0) ⊕ (of_ℕ 0 ⊕ (row.fee_cost ⊗ mark)))
  unfolding compute_realized_breakdown gross_of any_tagged sort_fills insert_fill sum_commission
      row_commission bought
  third_asset_fee-inflates symbol row funding mark live marks c t untag buy qty price fee cur q b m
        p =
      let base = (split_symbol symbol).0 in
      let quote = (split_symbol symbol).1 in
      let e = first_buy base quote row buy qty price in
      let (nothing, value) =
        third_asset_fee row.fee_cost (max_f (of_ℕ 0) row.price) mark c t base quote marks fee q b m
          p in
      let paid = max_f-positive row.fee_cost fee in
      (
        record {
          gross_realized =
              (bought base quote row).realized ⊕ (of_ℕ 0 ⊕ row_commission base quote marks row);
          commission = of_ℕ 0 ⊕ row_commission base quote marks row;
          funding = funding;
          unrealized = unrealized_of live (bought base quote row);
          base_currency = base;
          quote_currency = quote;
        },
        rw (e, compute_realized_breakdown) (rw (untag, gross_of) refl),
        rw (paid, cur, value) refl,
        rw (paid, cur, value, nothing) refl,
      )
