-- ===== src/StopLoss/Trailing.antt =====
-- A stop that only trails: once moved, it waits for a better price.
use adviser_ai_constructor.Prelude.{
  ◌≡◌, refl, sym, ◌∙◌, true, false, Option, none, some, List, [], ◌∷◌, arith, inl, inr,
  Option-cases,
}
use adviser_ai_constructor.Float.{Float, IsOrdered, ◌⊗◌, ◌⊖◌, ◌⊘◌, ◌⊏◌, ◌⊑◌, of_ℕ, max_f}
use adviser_ai_constructor.StopLoss.{
  long, Source, watcher, trailing, breakeven, volatility, other_source, SlAdjustmentResult,
  PositionContext, or_price, raise_to, trail, evaluate_trailing, evaluate_breakeven,
  evaluate_volatility, evaluate_source, keep_valid, candidates, pick, evaluate, track,
  apply_state_changes,
}
use adviser_ai_constructor.StopLoss.Strongest.{evaluate-from_source}

module _ {F : Type 0} ⦃fl : Float F⦄ where
  -- A long position whose stop is moved by the trailing rule only.
  abbrev pub OnlyTrails : PositionContext F → Type 0
  OnlyTrails p = (p.side ≡ long) × (p.breakeven_enabled ≡ false) × (p.volatility_sl_enabled ≡ false)

  trail-repeats :
      IsOrdered F fl
      → (p : PositionContext F) (rate price price' : F) (r : SlAdjustmentResult F)
      → (of_ℕ 0 ⊏ price) ≡ true
      → (price' ⊑ price) ≡ true
      → trail long p rate price ≡ some r
      → trail long (apply_state_changes r p) rate price' ≡ none
  unfolding trail or_price raise_to apply_state_changes track
  trail-repeats ordered p rate price price' r positive lower h =
      let first = or_price p.trailing_highest_price p.entry_price in
      let high = max_f first price in
      let stop = high ⊗ (of_ℕ 1 ⊖ rate ⊘ of_ℕ 100) in
      ground (
        arith,
        ordered.leq_trans price first (of_ℕ 0),
        ordered.leq_trans price' price first,
        ordered.leq_total stop stop,
      )

  -- A result changes the tracking and the stop only.
  apply-keeps :
      (r : SlAdjustmentResult F) (p : PositionContext F)
      → let p' = apply_state_changes r p in
        (p'.side ≡ p.side)
        × (p'.trailing_enabled ≡ p.trailing_enabled)
        × (p'.trailing_callback_rate ≡ p.trailing_callback_rate)
        × (p'.breakeven_enabled ≡ p.breakeven_enabled)
        × (p'.volatility_sl_enabled ≡ p.volatility_sl_enabled)
  unfolding apply_state_changes track
  apply-keeps r p = ground arith

  trailing-repeats :
      IsOrdered F fl
      → (p : PositionContext F) (price price' : F) (r : SlAdjustmentResult F) → p.side ≡ long
      → (of_ℕ 0 ⊏ price) ≡ true
      → (price' ⊑ price) ≡ true
      → evaluate_trailing p price ≡ some r
      → evaluate_trailing (apply_state_changes r p) price' ≡ none
  unfolding evaluate_trailing
  trailing-repeats ordered p price price' r side positive lower h =
      let (side', enabled, rate', _, _) = apply-keeps r p in
      elim (Option-cases p.trailing_callback_rate) [
        | inl none_set ↦ rw (rate', none_set) (ground arith)
        | inr (rate, set) ↦
            rw (rate', set, side', side)
              (ground (arith, trail-repeats ordered p rate price price' r positive lower))
      ]

  -- Where the position only trails, the one source with a result is the trailing rule.
  source-trails :
      (p : PositionContext F) (price : F) (atr : Option F) (from : Source)
      → OnlyTrails p
      → evaluate_trailing p price ≡ none
      → evaluate_source from p price atr ≡ none
  unfolding evaluate_source evaluate_breakeven evaluate_volatility
  source-trails p price atr watcher o h = refl
  source-trails p price atr trailing o h = h
  source-trails p price atr breakeven o h = ground arith
  source-trails p price none volatility o h = refl
  source-trails p price (some a) volatility o h = ground arith
  source-trails p price atr (other_source name) o h = refl

  source-result :
      (p : PositionContext F) (price : F) (atr : Option F) (r s : SlAdjustmentResult F)
      (from : Source)
      → OnlyTrails p
      → evaluate_trailing p price ≡ some s
      → evaluate_source from p price atr ≡ some r
      → ◌≡◌ {A = Option (SlAdjustmentResult F)} (some r) (some s)
  unfolding evaluate_source evaluate_breakeven evaluate_volatility
  source-result p price atr r s trailing o h e = sym e ∙ h
  source-result p price atr r s breakeven o h e = ground arith
  source-result p price none r s volatility o h e = ground arith
  source-result p price (some a) r s volatility o h e = ground arith
  source-result p price atr r s watcher o h e = ground arith
  source-result p price atr r s (other_source name) o h e = ground arith

  result-trails :
      (p : PositionContext F) (price : F) (atr : Option F) (r : SlAdjustmentResult F)
      → OnlyTrails p
      → evaluate p price atr ≡ some r
      → evaluate_trailing p price ≡ some r
  result-trails p price atr r o h =
      let (from, _, e) = evaluate-from_source p price atr r h in
      elim (Option-cases (evaluate_trailing p price)) [
        | inl none_there ↦ ground (arith, source-trails p price atr from o none_there, e)
        | inr (s, there) ↦ there ∙ sym (source-result p price atr r s from o there e)
      ]

  candidates-none :
      (sources : List Source) (p : PositionContext F) (price : F) (atr : Option F)
      → ((from : Source) → evaluate_source from p price atr ≡ none)
      → candidates sources p price atr ≡ []
  unfolding candidates keep_valid
  candidates-none [] p price atr h = refl
  candidates-none (from ∷ sources) p price atr h =
      rw (h from) (candidates-none sources p price atr h)

  -- Where the floats are ordered: after a result at a positive price, the pipeline of a long position that only trails
  -- has no further result at a price that is no higher.
  pub evaluate-repeats :
      IsOrdered F fl
      → (p : PositionContext F) (price price' : F) (atr atr' : Option F) (r : SlAdjustmentResult F)
      → OnlyTrails p
      → (of_ℕ 0 ⊏ price) ≡ true
      → (price' ⊑ price) ≡ true
      → evaluate p price atr ≡ some r
      → evaluate (apply_state_changes r p) price' atr' ≡ none
  unfolding evaluate pick
  evaluate-repeats ordered p price price' atr atr' r o positive lower h =
      let p' = apply_state_changes r p in
      let (side, _, _, breakeven_off, volatility_off) = apply-keeps r p in
      let still : OnlyTrails p' = (side ∙ o.0, breakeven_off ∙ o.1, volatility_off ∙ o.2) in
      let quiet =
        trailing-repeats ordered p price price' r o.0 positive lower
          (result-trails p price atr r o h) in
      rw
        (candidates-none p'.adjustment_priority p' price' atr'
          (λ from. source-trails p' price' atr' from still quiet))
        (ground arith)
