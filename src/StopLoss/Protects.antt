-- ===== src/StopLoss/Protects.antt =====
-- Which adjustments make a stop-loss tighter, and the one that may loosen it.
use mathlib.Core.Path.{subst}
use adviser_ai_constructor.Prelude.{
  ◌≡◌, refl, ap, ◌∙◌, true, false, ◌⊎◌, inl, inr, Option, none, some, List, [], ◌∷◌, arith,
  Option-cases, Bool-cases,
}
use adviser_ai_constructor.Float.{Float, IsOrdered, ◌⊕◌, ◌⊖◌, ◌⊗◌, ◌⊏◌, ◌⊑◌, of_ℕ, abs}
use adviser_ai_constructor.StopLoss.{
  PositionSide, long, short, both, Source, watcher, trailing, breakeven, volatility, other_source,
  set_highest, set_lowest, set_last_atr, set_breakeven, SlAdjustmentResult, PositionContext,
  raise_to, lower_to, trail, by_volatility, evaluate_trailing, evaluate_breakeven,
  evaluate_volatility, evaluate_source, has_moved, evaluate, adjust, apply_state_changes, track,
  Tick, on_ticks, adjusted, candidates, keep_valid, pick, highest,
}
use adviser_ai_constructor.StopLoss.Strongest.{evaluate-from_source}
use adviser_ai_constructor.StopLoss.Order.{
  is_tighter, is_no_looser, no_looser_refl, no_looser_trans, tighter-no_looser,
}

module _ {F : Type 0} ⦃fl : Float F⦄ where
  raise_to-tighter :
      (x : F) (a r : SlAdjustmentResult F) → raise_to x a ≡ some r → (x ⊏ r.new_sl_price) ≡ true
  unfolding raise_to
  raise_to-tighter x a r h = ground arith

  lower_to-tighter :
      (x : F) (a r : SlAdjustmentResult F) → lower_to x a ≡ some r → (r.new_sl_price ⊏ x) ≡ true
  unfolding lower_to
  lower_to-tighter x a r h = ground arith

  trail-tighter :
      (side : PositionSide) (p : PositionContext F) (rate price : F) (r : SlAdjustmentResult F)
      → trail side p rate price ≡ some r
      → is_tighter side p.current_sl_price r.new_sl_price ≡ true
  unfolding trail is_tighter
  trail-tighter long p rate price r h = raise_to-tighter p.current_sl_price _ r h
  trail-tighter short p rate price r h = lower_to-tighter p.current_sl_price _ r h
  trail-tighter both p rate price r h = ground arith

  by_volatility-tighter :
      (side : PositionSide) (p : PositionContext F) (atr : F) (r : SlAdjustmentResult F)
      → by_volatility side p atr ≡ some r
      → is_tighter side p.current_sl_price r.new_sl_price ≡ true
  unfolding by_volatility is_tighter
  by_volatility-tighter long p atr r h = raise_to-tighter p.current_sl_price _ r h
  by_volatility-tighter short p atr r h = lower_to-tighter p.current_sl_price _ r h
  by_volatility-tighter both p atr r h = ground arith

  trailing-tighter :
      (p : PositionContext F) (price : F) (r : SlAdjustmentResult F)
      → evaluate_trailing p price ≡ some r
      → is_tighter p.side p.current_sl_price r.new_sl_price ≡ true
  unfolding evaluate_trailing
  trailing-tighter p price r h = elim (Option-cases p.trailing_callback_rate) [
    | inl e ↦ ground arith
    | inr (rate, e) ↦ ground (arith, trail-tighter p.side p rate price r)
  ]

  volatility-tighter :
      (p : PositionContext F) (atr : Option F) (r : SlAdjustmentResult F)
      → evaluate_volatility p atr ≡ some r
      → is_tighter p.side p.current_sl_price r.new_sl_price ≡ true
  unfolding evaluate_volatility
  volatility-tighter p none r h = ground arith
  volatility-tighter p (some atr) r h = ground (arith, by_volatility-tighter p.side p atr r)

  -- Trailing and volatility adjustments, and breakeven where it is off or has fired, give a strictly
  -- tighter stop.
  pub evaluate_source-tighter :
      (source : Source) (p : PositionContext F) (price : F) (atr : Option F)
      (r : SlAdjustmentResult F)
      → (p.breakeven_enabled ≡ false) ⊎ (p.breakeven_activated ≡ true)
      → evaluate_source source p price atr ≡ some r
      → is_tighter p.side p.current_sl_price r.new_sl_price ≡ true
  unfolding evaluate_source
  evaluate_source-tighter watcher p price atr r off h = ground arith
  evaluate_source-tighter trailing p price atr r off h = trailing-tighter p price r h
  evaluate_source-tighter breakeven p price atr r off h = unfold evaluate_breakeven in ground arith
  evaluate_source-tighter volatility p price atr r off h = volatility-tighter p atr r h
  evaluate_source-tighter (other_source name) p price atr r off h = ground arith

  pub apply-current :
      (r : SlAdjustmentResult F) (p : PositionContext F)
      → (apply_state_changes r p).current_sl_price ≡ r.new_sl_price
  unfolding apply_state_changes
  apply-current r p = refl

  -- What a tick keeps: the side, the switch of breakeven, and that it has fired.
  apply-keeps :
      (r : SlAdjustmentResult F) (p : PositionContext F)
      → let q = apply_state_changes r p in
        (q.side ≡ p.side)
        × (q.breakeven_enabled ≡ p.breakeven_enabled)
        × ((q.breakeven_activated ≡ p.breakeven_activated) ⊎ (q.breakeven_activated ≡ true))
  unfolding apply_state_changes track
  apply-keeps r p =
      elim r.update_tracking
        as (λ u.
          let q = track u p in
          (q.side ≡ p.side)
          × (q.breakeven_enabled ≡ p.breakeven_enabled)
          × ((q.breakeven_activated ≡ p.breakeven_activated) ⊎ (q.breakeven_activated ≡ true))) [
            | set_highest x ↦ (refl, refl, inl refl)
            | set_lowest x ↦ (refl, refl, inl refl)
            | set_last_atr x ↦ (refl, refl, inl refl)
            | set_breakeven ↦ (refl, refl, inr refl)
          ]

  adjust-cases :
      (price : F) (atr : Option F) (p : PositionContext F)
      → (adjust price atr p ≡ p)
        ⊎ ((r : SlAdjustmentResult F) × (evaluate p price atr ≡ some r)
            × (adjust price atr p ≡ apply_state_changes r p))
  unfolding adjust
  adjust-cases price atr p = elim (Option-cases (evaluate p price atr)) [
    | inl e ↦ inl (rw (e, adjust) ground arith)
    | inr (r, e) ↦ elim (Bool-cases (price ⊑ of_ℕ 0)) [
      | inl h ↦ inl (rw (h, adjust) refl)
      | inr h ↦ inr (r, e, rw (h, e, adjust) refl)
    ]
  ]

  abbrev pub IsMonotone : PositionContext F → Type 0
  IsMonotone p = (p.breakeven_enabled ≡ false) ⊎ (p.breakeven_activated ≡ true)

  pub adjust-result :
      (price : F) (atr : Option F) (p : PositionContext F) (r : SlAdjustmentResult F)
      → (price ⊑ of_ℕ 0) ≡ false
      → evaluate p price atr ≡ some r
      → adjust price atr p ≡ apply_state_changes r p
  unfolding adjust
  adjust-result price atr p r h e = rw (h, e) refl

  pub adjust-protects :
      IsOrdered F fl
      → (price : F) (atr : Option F) (p : PositionContext F) → IsMonotone p
      → let q = adjust price atr p in
        (q.side ≡ p.side)
        × (IsMonotone q)
        × (is_no_looser p.side p.current_sl_price q.current_sl_price ≡ true)
  adjust-protects ordered price atr p off = elim (adjust-cases price atr p) [
    | inl e ↦ rw e (refl, off, no_looser_refl ordered p.side p.current_sl_price)
    | inr (r, e, next) ↦
        let (source, listed, from) = evaluate-from_source p price atr r e in
        let (same, switch, fired) = apply-keeps r p in
        rw (next, apply-current r p)
          (
            same,
            ground arith,
            tighter-no_looser ordered p.side p.current_sl_price r.new_sl_price
                (evaluate_source-tighter source p price atr r off from),
          )
  ]

  -- Where the floats are ordered, over any ticks, the stop of a position whose breakeven rule is
  -- off, or has fired, never gets looser: it never falls for a long, and never rises for a short.
  pub on_ticks-protects :
      IsOrdered F fl
      → (ticks : List (Tick F)) (p : PositionContext F)
      → (p.breakeven_enabled ≡ false) ⊎ (p.breakeven_activated ≡ true)
      → is_no_looser p.side p.current_sl_price (on_ticks ticks p).current_sl_price ≡ true
  unfolding on_ticks
  on_ticks-protects ordered [] p off = no_looser_refl ordered p.side p.current_sl_price
  on_ticks-protects ordered ((price, atr) ∷ ticks) p off =
      let (same, next, step) = adjust-protects ordered price atr p off in
      no_looser_trans ordered p.side p.current_sl_price (adjust price atr p).current_sl_price
        (on_ticks ticks (adjust price atr p)).current_sl_price step
        (subst
          (λ side.
            is_no_looser side (adjust price atr p).current_sl_price
              (on_ticks ticks (adjust price atr p)).current_sl_price
            ≡ true)
          same (on_ticks-protects ordered ticks (adjust price atr p) next))

  only-breakeven :
      (price : F) (atr : Option F) (p : PositionContext F)
      → evaluate_trailing p price ≡ none
      → evaluate_breakeven p price ≡ some (adjusted p.entry_price breakeven set_breakeven)
      → evaluate_volatility p atr ≡ none
      → candidates (watcher ∷ trailing ∷ breakeven ∷ volatility ∷ []) p price atr
        ≡ adjusted p.entry_price breakeven set_breakeven ∷ []
  unfolding candidates evaluate_source keep_valid
  only-breakeven price atr p no_trail fires no_atr = rw (no_trail, fires, no_atr) refl

  -- Breakeven compares its result with no stop: under the default order of the rules and at a
  -- positive price, a long whose stop is already above the entry, where the price has moved far
  -- enough, breakeven is on and has not fired, and neither trailing nor volatility has a result,
  -- gets its stop moved down to the entry.
  pub breakeven-loosens :
      (price : F) (atr : Option F) (p : PositionContext F)
      → p.side ≡ long
      → p.adjustment_priority ≡ watcher ∷ trailing ∷ breakeven ∷ volatility ∷ []
      → p.breakeven_enabled ≡ true
      → p.breakeven_activated ≡ false
      → evaluate_trailing p price ≡ none
      → evaluate_volatility p atr ≡ none
      → (p.entry_price ⊏ p.current_sl_price) ≡ true
      → (price
          ⊏ (p.entry_price ⊕ (abs (p.entry_price ⊖ p.current_sl_price) ⊗ p.breakeven_trigger_rr)))
        ≡ false
      → (price ⊑ of_ℕ 0) ≡ false
      → let q = adjust price atr p in
        (q.current_sl_price ≡ p.entry_price)
        × (is_tighter p.side q.current_sl_price p.current_sl_price ≡ true)
  unfolding is_tighter
  breakeven-loosens price atr p side listed on waiting no_trail no_atr above moved positive =
      let fires : evaluate_breakeven p price
          ≡ some (adjusted p.entry_price breakeven set_breakeven) =
        unfold evaluate_breakeven has_moved in ground arith in
      let chosen : evaluate p price atr ≡ some (adjusted p.entry_price breakeven set_breakeven) =
        unfold evaluate in
        ap (λ sources. pick p.side (candidates sources p price atr)) listed
        ∙ ap (pick p.side) (only-breakeven price atr p no_trail fires no_atr)
        ∙ ap (λ s. pick s (adjusted p.entry_price breakeven set_breakeven ∷ [])) side
        ∙ (unfold pick highest in refl) in
      let moved_to : (adjust price atr p).current_sl_price ≡ p.entry_price =
        unfold adjust apply_state_changes in rw (positive, chosen) refl in
      (moved_to, rw moved_to (rw side above))
