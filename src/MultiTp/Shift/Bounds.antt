-- ===== src/MultiTp/Shift/Bounds.antt =====
-- Where a stop-loss moves after a fill.
use adviser_ai_constructor.Prelude.{◌≡◌, Bool, true, false, inl, inr, some, arith, Option-cases}
use adviser_ai_constructor.Float.{Float, ◌⊏◌, ◌⊑◌, of_ℕ}
use adviser_ai_constructor.StopLoss.{PositionSide, long, short, both}
use adviser_ai_constructor.Position.Queue.Task.{Format}
use adviser_ai_constructor.Position.Queue.Execute.{LiveReply}
use adviser_ai_constructor.MultiTp.Shift.{
  TpLevel, TpPosition, moved, is_beyond, is_flat_position, decide_price, resolve_sl_shift_target,
  decide_shift,
}

module _ {F : Type 0} ⦃fl : Float F⦄ ⦃py : Format F⦄ where
  -- A stop of a position of the side at the price is not beyond the trigger price.
  abbrev pub IsBehind : PositionSide → F → F → Type 0
  IsBehind long price trigger = (price ⊑ trigger) ≡ true
  IsBehind short price trigger = (trigger ⊑ price) ≡ true
  IsBehind both price trigger = Unit {0}

  not_beyond :
      (side : PositionSide) (price trigger : F)
      → is_beyond side price trigger ≡ false
      → IsBehind side price trigger
  unfolding is_beyond
  not_beyond long price trigger h = ground arith
  not_beyond short price trigger h = ground arith
  not_beyond both price trigger h = tt

  decide_price-moved :
      (target price : F) (l : TpLevel F) (live : LiveReply F) (p : TpPosition F)
      → decide_price target l live p ≡ moved price
      → (target ≡ price)
        × (is_beyond p.side price l.trigger_price ≡ false)
        × (is_flat_position live ≡ false)
  unfolding decide_price
  decide_price-moved target price l live p h = ground arith

  pub decide_shift-moved :
      (is_last : Bool) (l : TpLevel F) (live : LiveReply F) (p : TpPosition F) (price : F)
      → decide_shift is_last l live p ≡ moved price
      → (is_last ≡ false)
        × ((of_ℕ 0 ⊏ p.current_quantity) ≡ true)
        × (resolve_sl_shift_target l p ≡ some price)
        × IsBehind p.side price l.trigger_price
        × (is_flat_position live ≡ false)
  unfolding decide_shift
  decide_shift-moved is_last l live p price h = elim (Option-cases (resolve_sl_shift_target l p)) [
    | inl e ↦ ground arith
    | inr (target, e) ↦
        let inner = decide_price-moved target price l live p in
        ground (arith, inner, not_beyond p.side price l.trigger_price)
  ]
