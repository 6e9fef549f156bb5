-- ===== src/Overlay/Bounds.antt =====
-- What the overlay may do: whom it blocks, and how far it moves a multiplier.
use adviser_ai_constructor.Prelude.{◌≡◌, ◌↔◌, ◌⊎◌, true, false, not, arith, if◌then◌else◌}
use adviser_ai_constructor.Float.{Float, IsOrdered, ◌⊗◌, ◌⊏◌, ◌⊑◌, ◌≐◌, of_ℕ}
use adviser_ai_constructor.Overlay.{
  TrendDirection, up, down, flat, OverlaySide, long, short, AiTrendSnapshot, AiOverlayConfig,
  is_aligned, effective_strength, side_verdict, should_block_entry, factor_of, clamp, settle_scale,
  scale_atr_multiplier,
}

-- The trend goes against the side.
abbrev pub IsAgainst : TrendDirection → OverlaySide → Type 0
IsAgainst up short = Unit
IsAgainst down long = Unit
IsAgainst _ _ = ⊥

against :
    (direction : TrendDirection) (side : OverlaySide)
    → ((side_verdict direction side).0 ≡ true) ↔ (IsAgainst direction side)
unfolding side_verdict
against up long = ground arith
against up short = ground arith
against down long = ground arith
against down short = ground arith
against flat side = ground arith

module _ {F : Type 0} ⦃fl : Float F⦄ where
  strong :
      (snapshot : AiTrendSnapshot F) (overlay : AiOverlayConfig F) (side : OverlaySide)
      → IsAgainst snapshot.direction side
      → effective_strength snapshot overlay
        ≡ (if snapshot.strength ⊏ overlay.min_strength then of_ℕ 0 else snapshot.strength)
  unfolding effective_strength
  strong snapshot overlay side h = ground arith

  -- Where the floats are ordered, an entry is blocked exactly if the overlay and its lock are on,
  -- the trend is against the side, and its strength is positive and not below the minimum.
  pub block-IsAgainst :
      IsOrdered F fl
      → (side : OverlaySide) (snapshot : AiTrendSnapshot F) (overlay : AiOverlayConfig F)
      → ((should_block_entry side snapshot overlay).0 ≡ true) ↔ (
          (overlay.enabled ≡ true)
          × (overlay.entry_side_lock_enabled ≡ true)
          × (IsAgainst snapshot.direction side)
          × ((overlay.min_strength ⊑ snapshot.strength) ≡ true)
          × ((of_ℕ 0 ⊏ snapshot.strength) ≡ true))
  unfolding should_block_entry
  block-IsAgainst ordered side snapshot overlay = ground (
    arith,
    against snapshot.direction side,
    strong snapshot overlay side,
    ordered.leq_total (of_ℕ 0) (of_ℕ 0),
  )

  clamp-bounds :
      IsOrdered F fl
      → (base : F) (overlay : AiOverlayConfig F) (x : F)
      → ((base ⊗ overlay.atr_scale_low) ⊑ base) ≡ true
      → (base ⊑ (base ⊗ overlay.atr_scale_high)) ≡ true
      → (((base ⊗ overlay.atr_scale_low) ⊑ clamp base overlay x) ≡ true)
        × ((clamp base overlay x ⊑ (base ⊗ overlay.atr_scale_high)) ≡ true)
  unfolding clamp
  clamp-bounds ordered base overlay x low high =
      let lo = base ⊗ overlay.atr_scale_low in
      let hi = base ⊗ overlay.atr_scale_high in
      ground (
        arith,
        ordered.leq_trans lo base hi low high,
        ordered.leq_total lo lo,
        ordered.leq_total hi hi,
        ordered.leq_total lo x,
        ordered.leq_total x hi,
        ordered.leq_total lo hi,
      )

  -- Where the floats are ordered and the base lies between its own low and high multiples, the
  -- multiplier that the overlay gives does so too, whatever the strength of the trend; and the
  -- decision says `changed` exactly if the multiplier differs from the base.
  pub scale-within_envelope :
      IsOrdered F fl
      → (base : F) (snapshot : AiTrendSnapshot F) (overlay : AiOverlayConfig F) (side : OverlaySide)
      → ((base ⊗ overlay.atr_scale_low) ⊑ base) ≡ true
      → (base ⊑ (base ⊗ overlay.atr_scale_high)) ≡ true
      → let (value, decision) = scale_atr_multiplier base snapshot overlay side in
        (((base ⊗ overlay.atr_scale_low) ⊑ value) ≡ true)
        × ((value ⊑ (base ⊗ overlay.atr_scale_high)) ≡ true)
        × (decision.changed ≡ not (value ≐ base))
  unfolding scale_atr_multiplier settle_scale
  scale-within_envelope ordered base snapshot overlay side low high =
      let effective = effective_strength snapshot overlay in
      let aligned = is_aligned snapshot.direction side in
      ground (
        arith,
        ordered.leq_total base base,
        clamp-bounds ordered base overlay (base ⊗ factor_of aligned effective overlay) low high,
      )

  -- Where the floats are ordered, without a trend of at least the minimum strength, or with the
  -- scaling off, the base stays.
  pub scale-weak :
      IsOrdered F fl
      → (base : F) (snapshot : AiTrendSnapshot F) (overlay : AiOverlayConfig F) (side : OverlaySide)
      → (overlay.enabled ≡ false)
        ⊎ (overlay.atr_scaling_enabled ≡ false)
        ⊎ (snapshot.direction ≡ flat)
        ⊎ ((snapshot.strength ⊏ overlay.min_strength) ≡ true)
      → let (value, decision) = scale_atr_multiplier base snapshot overlay side in
        (value ≡ base) × (decision.changed ≡ false)
  unfolding scale_atr_multiplier effective_strength
  scale-weak ordered base snapshot overlay side weak =
      ground (arith, ordered.leq_total (of_ℕ 0) (of_ℕ 0))
