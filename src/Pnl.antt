-- ===== src/Pnl.antt =====
-- app/services/execution/futures_pnl.py and pnl.py: realised and unrealised profit from fills, first
-- in first out. Here is what the two views share: fees, and the loop that closes lots. The loop runs
-- on fuel, `none` if it runs out.
pub mod Close
pub mod Futures
pub mod Spot
use adviser_ai_constructor.Prelude.{
  ℕ, zero, suc, Bool, true, false, ◌&&◌, ◌||◌, not, Option, none, some, List, [], ◌∷◌, length,
  if◌then◌else◌,
}
use adviser_ai_constructor.Float.{Float, ◌⊕◌, ◌⊖◌, ◌⊗◌, ◌⊏◌, ◌⊑◌, of_ℕ, min_f}
use adviser_ai_constructor.Text.{text_eq, split_once, upper}

-- `_Lot`, with what the view keeps beside: the fill price without the fee, for the spot view.
pub record Lot (F A : Type 0) : Type 0 where
  pub qty : F
  pub entry_price : F
  pub extra : A

-- `right.split(":", 1)[0]`
unfoldable pub before_colon : List ℕ → List ℕ
before_colon t = elim (split_once b':' t) [ none ↦ t | some parts ↦ parts.0 ]

-- `mark_prices.get(asset)`
pub mark_of : {F : Type 0} → List ℕ → List (List ℕ × F) → Option F
mark_of asset [] = none
mark_of asset ((a, x) ∷ marks) = if text_eq a asset then some x else mark_of asset marks

-- What is left of an order and of the lots, and the profit so far.
pub record Closing (F A : Type 0) : Type 0 where
  pub realized : F
  pub remaining : F
  pub lots : List (Lot F A)

module _ {F : Type 0} ⦃fl : Float F⦄ where
  -- `if fee_cost <= 0 or not fee_currency`, and the value of a fee in its asset.
  fee_in : F → List ℕ → F → List ℕ → List ℕ → List (List ℕ × F) → F
  unfolding mark_of
  fee_in fee_cost asset price base quote marks =
      if text_eq asset quote
      then fee_cost
      else if text_eq asset base
      then (if of_ℕ 0 ⊏ price then fee_cost ⊗ price else of_ℕ 0)
      else elim (mark_of asset marks) [
        | none ↦ of_ℕ 0
        | some mark ↦ if of_ℕ 0 ⊏ mark then fee_cost ⊗ mark else of_ℕ 0
      ]

  -- `_fee_to_quote`: no mark prices are an empty list of them.
  unfoldable pub fee_to_quote : F → Option (List ℕ) → F → List ℕ → List ℕ → List (List ℕ × F) → F
  unfolding fee_in
  fee_to_quote fee_cost none price base quote marks = of_ℕ 0
  fee_to_quote fee_cost (some []) price base quote marks = of_ℕ 0
  fee_to_quote fee_cost (some (c ∷ t)) price base quote marks =
      if fee_cost ⊑ of_ℕ 0 then of_ℕ 0 else fee_in fee_cost (upper (c ∷ t)) price base quote marks

  -- `1e-12`
  abbrev pub dust : F
  dust = fl.ratio 1 1000000000000

  -- `lot.qty -= close_qty`, and the `pop` of a lot that is empty.
  abbrev pub shrink : {A : Type 0} → Lot F A → List (Lot F A) → F → List (Lot F A)
  shrink lot lots close_qty =
      let qty = lot.qty ⊖ close_qty in if qty ⊑ dust then lots else record lot { qty = qty } ∷ lots

  -- `while remaining > 0 and lots`, with the profit of a unit from its entry price: the profit so far,
  -- what remains of the order, and the lots.
  unfoldable pub close_lots :
      {A : Type 0} → ℕ → (F → F) → F → F → List (Lot F A) → Option (Closing F A)
  close_lots zero gain realized remaining lots = none
  close_lots (suc fuel) gain realized remaining [] =
      some (record { realized = realized; remaining = remaining; lots = [] })
  close_lots (suc fuel) gain realized remaining (lot ∷ lots) =
      let close_qty = min_f remaining lot.qty in
      let rest =
        close_lots fuel gain (realized ⊕ (gain lot.entry_price ⊗ close_qty)) (remaining ⊖ close_qty)
          (shrink lot lots close_qty) in
      if of_ℕ 0 ⊏ remaining
      then rest
      else some (record { realized = realized; remaining = remaining; lots = lot ∷ lots })
