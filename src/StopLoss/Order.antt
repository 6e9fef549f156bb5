-- ===== src/StopLoss/Order.antt =====
-- The order of stops by how much they protect a position.
use adviser_ai_constructor.Prelude.{◌≡◌, Bool, true, arith}
use adviser_ai_constructor.Float.{Float, IsOrdered, ◌⊏◌, ◌⊑◌}
use adviser_ai_constructor.StopLoss.{PositionSide, long, short, both}

module _ {F : Type 0} ⦃fl : Float F⦄ where
  -- The second stop protects a position of the side strictly more than the first.
  unfoldable pub is_tighter : PositionSide → F → F → Bool
  is_tighter short old_sl new_sl = new_sl ⊏ old_sl
  is_tighter side old_sl new_sl = old_sl ⊏ new_sl

  -- The second stop protects at least as much.
  unfoldable pub is_no_looser : PositionSide → F → F → Bool
  is_no_looser short old_sl new_sl = new_sl ⊑ old_sl
  is_no_looser side old_sl new_sl = old_sl ⊑ new_sl

  pub no_looser_refl : IsOrdered F fl → (side : PositionSide) (x : F) → is_no_looser side x x ≡ true
  unfolding is_no_looser
  no_looser_refl ordered long x = ground (arith, ordered.leq_total x x)
  no_looser_refl ordered short x = ground (arith, ordered.leq_total x x)
  no_looser_refl ordered both x = ground (arith, ordered.leq_total x x)

  pub no_looser_trans :
      IsOrdered F fl
      → (side : PositionSide) (x y z : F) → is_no_looser side x y ≡ true
      → is_no_looser side y z ≡ true
      → is_no_looser side x z ≡ true
  unfolding is_no_looser
  no_looser_trans ordered long x y z h k = ordered.leq_trans x y z h k
  no_looser_trans ordered short x y z h k = ordered.leq_trans z y x k h
  no_looser_trans ordered both x y z h k = ordered.leq_trans x y z h k

  pub tighter-no_looser :
      IsOrdered F fl
      → (side : PositionSide) (x y : F) → is_tighter side x y ≡ true
      → is_no_looser side x y ≡ true
  unfolding is_no_looser is_tighter
  tighter-no_looser ordered long x y h = ground (arith, ordered.leq_total x y)
  tighter-no_looser ordered short x y h = ground (arith, ordered.leq_total x y)
  tighter-no_looser ordered both x y h = ground (arith, ordered.leq_total x y)
