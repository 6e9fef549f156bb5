-- ===== src/Pnl/Futures/Ends.antt =====
-- The pass over the fills ends, and never holds lots of both directions.
use adviser_ai_constructor.Prelude.{
  ℕ, suc, ◌≡◌, refl, Bool, true, false, ◌⊎◌, inl, inr, Option, some, List, [], ◌∷◌, length, arith,
  All, All-append, Bool-cases, if◌then◌else◌,
}
use adviser_ai_constructor.Float.{Float, IsOrdered, IsCancelling, IsLiteral, ◌⊖◌, ◌⊏◌, of_ℕ}
use adviser_ai_constructor.Pnl.{Lot, Closing, close_lots}
use adviser_ai_constructor.Pnl.Close.{IsPositive, IsClosed, close_lots-ends}
use adviser_ai_constructor.Pnl.Futures.{
  Fill, Fifo, open_lot, close_side, buy_fill, sell_fill, fifo_step, fifo_rows, fifo_pass, no_lots,
}

-- The result is there, and has the property.
abbrev Ends : {A : Type 0} → (A → Type 0) → Option A → Type 0
Ends {A = A} P o = (a : A) × (o ≡ some a) × P a

if-Ends :
    {A : Type 0} (P : A → Type 0) (b : Bool) (x y : Option A)
    → Ends P x
    → Ends P y
    → Ends P (if b then x else y)
if-Ends P true x y h k = h
if-Ends P false x y h k = k

module _ {F : Type 0} ⦃fl : Float F⦄ where
  -- The account holds long lots or short lots, and each holds something.
  abbrev pub IsOneSided : Fifo F → Type 0
  IsOneSided s =
      ((s.long_lots ≡ []) ⊎ (s.short_lots ≡ []))
      × All IsPositive s.long_lots
      × All IsPositive s.short_lots

  open_lot-IsPositive :
      (x price : F) (lots : List (Lot F Unit))
      → All IsPositive lots
      → All IsPositive (open_lot x price lots)
  unfolding open_lot
  open_lot-IsPositive x price lots p = elim (Bool-cases (of_ℕ 0 ⊏ x)) [
    | inl h ↦ rw h (All-append _ lots _ p (h, tt))
    | inr h ↦ rw h p
  ]

  -- Closing one side and opening the other leaves one of them empty.
  crossed :
      (c : Closing F Unit) (price : F) (lots : List (Lot F Unit))
      → IsClosed c
      → (lots ≡ []) ⊎ (c.lots ≡ [])
      → (open_lot c.remaining price lots ≡ []) ⊎ (c.lots ≡ [])
  unfolding open_lot
  crossed c price lots closed h = ground arith

  close_none :
      (fuel : ℕ) (gain : F → F) (realized remaining : F) (lots : List (Lot F Unit))
      (c : Closing F Unit)
      → lots ≡ []
      → close_lots (suc fuel) gain realized remaining lots ≡ some c
      → c.lots ≡ []
  unfolding close_lots
  close_none fuel gain realized remaining [] c h e = ground arith
  close_none fuel gain realized remaining (lot ∷ lots) c h e = cc

module _ {F : Type 0} ⦃fl : Float F⦄ (ordered : IsOrdered F fl) (cancelling : IsCancelling F fl)
    (literal : IsLiteral F fl) where
  side-ends :
      (gain : F → F) (realized qty price : F) (closed opened : List (Lot F Unit))
      → (opened ≡ []) ⊎ (closed ≡ [])
      → All IsPositive closed
      → All IsPositive opened
      → (c : Closing F Unit) × (close_side gain realized qty closed ≡ some c)
        × ((open_lot c.remaining price opened ≡ []) ⊎ (c.lots ≡ []))
        × All IsPositive (open_lot c.remaining price opened)
        × All IsPositive c.lots
  unfolding close_side
  side-ends gain realized qty price closed opened one p p' =
      let (c, e, h) =
        close_lots-ends ordered cancelling literal (suc (length closed)) gain realized qty closed
          (omega arith) p in
      let apart : (opened ≡ []) ⊎ (c.lots ≡ []) = elim one [
        | inl o ↦ inl o
        | inr o ↦ inr (close_none (length closed) gain realized qty closed c o e)
      ] in
      (c, e, crossed c price opened h apart, open_lot-IsPositive c.remaining price opened p', h.1)

  buy-ends :
      (qty price realized : F) (s : Fifo F)
      → IsOneSided s
      → (s' : Fifo F) × (buy_fill qty price realized s ≡ some s') × IsOneSided s'
  unfolding buy_fill
  buy-ends qty price realized s h =
      let (c, e, one, opened, closed) =
        side-ends (λ entry. entry ⊖ price) realized qty price s.short_lots s.long_lots h.0 h.2
          h.1 in
      (
        record {
          realized = c.realized;
          long_lots = open_lot c.remaining price s.long_lots;
          short_lots = c.lots;
          last_price = price;
        },
        rw (e, buy_fill) refl,
        (one, opened, closed),
      )

  sell-ends :
      (qty price realized : F) (s : Fifo F)
      → IsOneSided s
      → (s' : Fifo F) × (sell_fill qty price realized s ≡ some s') × IsOneSided s'
  unfolding sell_fill
  sell-ends qty price realized s h =
      let (c, e, one, opened, closed) =
        side-ends (λ entry. price ⊖ entry) realized qty price s.long_lots s.short_lots
          (elim h.0 [ inl l ↦ inr l | inr r ↦ inl r ]) h.1 h.2 in
      (
        record {
          realized = c.realized;
          long_lots = c.lots;
          short_lots = open_lot c.remaining price s.short_lots;
          last_price = price;
        },
        rw (e, sell_fill) refl,
        (elim one [ inl r ↦ inr r | inr l ↦ inl l ], closed, opened),
      )

  step-ends :
      (base quote : List ℕ) (row : Fill F) (s : Fifo F)
      → IsOneSided s
      → (s' : Fifo F) × (fifo_step base quote row s ≡ some s') × IsOneSided s'
  unfolding fifo_step
  step-ends base quote row s h =
      if-Ends IsOneSided _ _ _ (s, refl, h)
        (if-Ends IsOneSided _ _ _ (buy-ends _ _ _ s h) (sell-ends _ _ _ s h))

  rows-end :
      (base quote : List ℕ) (rows : List (Fill F)) (s : Fifo F)
      → IsOneSided s
      → (s' : Fifo F) × (fifo_rows base quote rows s ≡ some s') × IsOneSided s'
  unfolding fifo_rows
  rows-end base quote [] s h = (s, refl, h)
  rows-end base quote (row ∷ rows) s h =
      let (m, e, h') = step-ends base quote row s h in
      let (s', e', h'') = rows-end base quote rows m h' in (s', rw (e, fifo_rows) e', h'')

  -- Where the floats are ordered, a float less itself is zero and the literals are not negative, the pass
  -- over any fills ends; afterwards no lots of one of the two directions are open, and each open lot
  -- has a positive quantity.
  pub fifo_pass-ends :
      (base quote : List ℕ) (rows : List (Fill F))
      → (s : Fifo F) × (fifo_pass base quote rows ≡ some s) × IsOneSided s
  unfolding fifo_pass
  fifo_pass-ends base quote rows = rows-end base quote rows no_lots (inl refl, tt, tt)
