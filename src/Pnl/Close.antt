-- ===== src/Pnl/Close.antt =====
-- The loop that closes lots ends: one round for each lot, and one to see that it is over.
use adviser_ai_constructor.Prelude.{
  ℕ, zero, suc, ◌≤◌, ◌≡◌, refl, true, false, ◌⊎◌, inl, inr, some, List, [], ◌∷◌, length, arith, All,
  Bool-cases,
}
use adviser_ai_constructor.Float.{
  Float, IsOrdered, IsCancelling, IsLiteral, ◌⊕◌, ◌⊖◌, ◌⊗◌, ◌⊏◌, of_ℕ, min_f,
}
use adviser_ai_constructor.Pnl.{Lot, Closing, dust, shrink, close_lots}

module _ {F : Type 0} ⦃fl : Float F⦄ where
  abbrev pub IsPositive : {A : Type 0} → Lot F A → Type 0
  IsPositive lot = (of_ℕ 0 ⊏ lot.qty) ≡ true

  -- The loop is over: the order is used up or no lot is left; and the lots that are left are positive.
  abbrev pub IsClosed : {A : Type 0} → Closing F A → Type 0
  IsClosed s = (((of_ℕ 0 ⊏ s.remaining) ≡ false) ⊎ (s.lots ≡ [])) × All IsPositive s.lots

module _ {F : Type 0} ⦃fl : Float F⦄ (ordered : IsOrdered F fl) (cancelling : IsCancelling F fl)
    (literal : IsLiteral F fl) where
  -- A round uses the order up or pops the lot.
  round :
      {A : Type 0} (remaining : F) (lot : Lot F A) (lots : List (Lot F A))
      → ((of_ℕ 0 ⊏ (remaining ⊖ min_f remaining lot.qty)) ≡ false)
        ⊎ (shrink lot lots (min_f remaining lot.qty) ≡ lots)
  round remaining lot lots = ground (
    arith,
    cancelling.sub_self remaining,
    cancelling.sub_self lot.qty,
    literal.ratio_nonneg 1 1000000000000,
    ordered.leq_total (of_ℕ 0) (of_ℕ 0),
  )

  shrink-IsPositive :
      {A : Type 0} (lot : Lot F A) (lots : List (Lot F A)) (x : F)
      → All IsPositive lots
      → All IsPositive (shrink lot lots x)
  shrink-IsPositive lot lots x h =
      ground
        (arith, literal.ratio_nonneg 1 1000000000000, ordered.leq_trans (lot.qty ⊖ x) (of_ℕ 0) dust)

  close_lots-done :
      {A : Type 0} (fuel : ℕ) (gain : F → F) (realized remaining : F) (lots : List (Lot F A))
      → (of_ℕ 0 ⊏ remaining) ≡ false
      → close_lots (suc fuel) gain realized remaining lots
        ≡ some (record { realized = realized; remaining = remaining; lots = lots })
  unfolding close_lots
  close_lots-done fuel gain realized remaining [] h = refl
  close_lots-done fuel gain realized remaining (lot ∷ lots) h = rw h refl

  -- From positive lots, with more fuel than there are lots, the loop ends; then the order is used up or
  -- no lot is left, and the lots that are left are positive.
  pub close_lots-ends :
      {A : Type 0} (fuel : ℕ) (gain : F → F) (realized remaining : F) (lots : List (Lot F A))
      → suc (length lots) ≤ fuel
      → All IsPositive lots
      → (s : Closing F A) × (close_lots fuel gain realized remaining lots ≡ some s) × IsClosed s
  unfolding close_lots
  close_lots-ends zero gain realized remaining lots h p = absurd (omega (arith, h))
  close_lots-ends (suc fuel) gain realized remaining [] h p =
      (record { realized = realized; remaining = remaining; lots = [] }, refl, (inr refl, tt))
  close_lots-ends (suc zero) gain realized remaining (lot ∷ lots) h p = absurd (omega (arith, h))
  close_lots-ends (suc (suc fuel)) gain realized remaining (lot ∷ lots) h p =
      let close_qty = min_f remaining lot.qty in
      let gained = realized ⊕ (gain lot.entry_price ⊗ close_qty) in
      let rest = shrink lot lots close_qty in
      elim (Bool-cases (of_ℕ 0 ⊏ remaining)) [
        | inr over ↦ (
          record { realized = realized; remaining = remaining; lots = lot ∷ lots },
          rw over refl,
          (inl over, p),
        )
        | inl more ↦ elim (round remaining lot lots) [
          | inl used ↦ (
            record { realized = gained; remaining = remaining ⊖ close_qty; lots = rest },
            rw more (close_lots-done fuel gain gained (remaining ⊖ close_qty) rest used),
            (inl used, shrink-IsPositive lot lots close_qty p.1),
          )
          | inr popped ↦
              let (s, e, closed) =
                close_lots-ends (suc fuel) gain gained (remaining ⊖ close_qty) lots
                  (omega (arith, h)) p.1 in
              (s, rw (more, popped) e, closed)
        ]
      ]
