-- ===== src/StopLoss/Strongest.antt =====
-- The pipeline returns the most protective of the results of its sources.
use adviser_ai_constructor.Prelude.{
  ◌≡◌, refl, true, ◌⊎◌, inl, inr, Option, none, some, List, [], ◌∷◌, arith, Member, Option-cases,
  Bool-cases,
}
use adviser_ai_constructor.Float.{Float, IsOrdered, ◌⊑◌}
use adviser_ai_constructor.StopLoss.{
  PositionSide, long, short, both, Source, watcher, trailing, breakeven, volatility, other_source,
  SlAdjustmentResult, PositionContext, raise_to, lower_to, trail, by_volatility, evaluate_trailing,
  evaluate_breakeven, evaluate_volatility, evaluate_source, keep_valid, candidates, highest, lowest,
  pick, evaluate,
}
use adviser_ai_constructor.StopLoss.Order.{is_no_looser}

module _ {F : Type 0} ⦃fl : Float F⦄ where
  trail-is_valid :
      (side : PositionSide) (p : PositionContext F) (rate price : F) (r : SlAdjustmentResult F)
      → trail side p rate price ≡ some r
      → r.is_valid ≡ true
  unfolding trail raise_to lower_to
  trail-is_valid long p rate price r h = ground arith
  trail-is_valid short p rate price r h = ground arith
  trail-is_valid both p rate price r h = ground arith

  by_volatility-is_valid :
      (side : PositionSide) (p : PositionContext F) (atr : F) (r : SlAdjustmentResult F)
      → by_volatility side p atr ≡ some r
      → r.is_valid ≡ true
  unfolding by_volatility raise_to lower_to
  by_volatility-is_valid long p atr r h = ground arith
  by_volatility-is_valid short p atr r h = ground arith
  by_volatility-is_valid both p atr r h = ground arith

  source-is_valid :
      (source : Source) (p : PositionContext F) (price : F) (atr : Option F)
      (r : SlAdjustmentResult F)
      → evaluate_source source p price atr ≡ some r
      → r.is_valid ≡ true
  unfolding evaluate_source evaluate_trailing evaluate_volatility evaluate_breakeven
  source-is_valid watcher p price atr r h = ground arith
  source-is_valid trailing p price atr r h = elim (Option-cases p.trailing_callback_rate) [
    | inl e ↦ ground arith
    | inr (rate, e) ↦ ground (arith, trail-is_valid p.side p rate price r)
  ]
  source-is_valid breakeven p price atr r h = ground arith
  source-is_valid volatility p price none r h = ground arith
  source-is_valid volatility p price (some x) r h =
      ground (arith, by_volatility-is_valid p.side p x r)
  source-is_valid (other_source name) p price atr r h = ground arith

  keep_valid-later :
      (o : Option (SlAdjustmentResult F)) (rest : List (SlAdjustmentResult F))
      (r : SlAdjustmentResult F)
      → Member r rest
      → Member r (keep_valid o rest)
  unfolding keep_valid
  keep_valid-later none rest r h = h
  keep_valid-later (some s) rest r h = elim (Bool-cases s.is_valid) [
    | inl e ↦ rw e (inr h)
    | inr e ↦ rw e h
  ]

  keep_valid-cases :
      (o : Option (SlAdjustmentResult F)) (rest : List (SlAdjustmentResult F))
      (r : SlAdjustmentResult F)
      → Member r (keep_valid o rest)
      → (o ≡ some r) ⊎ (Member r rest)
  unfolding keep_valid
  keep_valid-cases none rest r h = inr h
  keep_valid-cases (some s) rest r h = ground arith

  -- The candidates are the results of the sources.
  source-candidates :
      (sources : List Source) (p : PositionContext F) (price : F) (atr : Option F) (source : Source)
      (r : SlAdjustmentResult F)
      → Member source sources
      → evaluate_source source p price atr ≡ some r
      → Member r (candidates sources p price atr)
  unfolding candidates keep_valid
  source-candidates [] p price atr source r m h = elim m [ ]
  source-candidates (s ∷ sources) p price atr source r (inl e) h =
      let valid = source-is_valid source p price atr r h in rw (e, h, valid) (inl refl)
  source-candidates (s ∷ sources) p price atr source r (inr later) h =
      keep_valid-later _ _ r (source-candidates sources p price atr source r later h)

  candidates-source :
      (sources : List Source) (p : PositionContext F) (price : F) (atr : Option F)
      (r : SlAdjustmentResult F)
      → Member r (candidates sources p price atr)
      → (s : Source) × (Member s sources) × (evaluate_source s p price atr ≡ some r)
  unfolding candidates keep_valid
  candidates-source [] p price atr r m = elim m [ ]
  candidates-source (s ∷ sources) p price atr r h = elim (keep_valid-cases _ _ r h) [
    | inl e ↦ (s, inl refl, e)
    | inr later ↦
        let (t, here, e) = candidates-source sources p price atr r later in (t, inr here, e)
  ]

  highest-Member :
      (r : SlAdjustmentResult F) (rs : List (SlAdjustmentResult F)) → Member (highest r rs) (r ∷ rs)
  unfolding highest
  highest-Member r [] = inl refl
  highest-Member r (s ∷ rs) = ground (arith, highest-Member r rs, highest-Member s rs)

  highest-above :
      IsOrdered F fl
      → (r s : SlAdjustmentResult F) (rs : List (SlAdjustmentResult F)) → Member s (r ∷ rs)
      → (s.new_sl_price ⊑ (highest r rs).new_sl_price) ≡ true
  unfolding highest
  highest-above ordered r s [] (inl e) =
      ground (arith, ordered.leq_total s.new_sl_price s.new_sl_price)
  highest-above ordered r s [] (inr m) = elim m [ ]
  highest-above ordered r s (t ∷ rs) h = ground (
    arith,
    highest-above ordered r s rs,
    highest-above ordered t s rs,
    highest-above ordered r r rs,
    highest-above ordered t t rs,
    ordered.leq_total r.new_sl_price t.new_sl_price,
    ordered.leq_trans r.new_sl_price t.new_sl_price (highest t rs).new_sl_price,
    ordered.leq_trans t.new_sl_price r.new_sl_price (highest r rs).new_sl_price,
  )

  lowest-Member :
      (r : SlAdjustmentResult F) (rs : List (SlAdjustmentResult F)) → Member (lowest r rs) (r ∷ rs)
  unfolding lowest
  lowest-Member r [] = inl refl
  lowest-Member r (s ∷ rs) = ground (arith, lowest-Member r rs, lowest-Member s rs)

  lowest-below :
      IsOrdered F fl
      → (r s : SlAdjustmentResult F) (rs : List (SlAdjustmentResult F)) → Member s (r ∷ rs)
      → ((lowest r rs).new_sl_price ⊑ s.new_sl_price) ≡ true
  unfolding lowest
  lowest-below ordered r s [] (inl e) =
      ground (arith, ordered.leq_total s.new_sl_price s.new_sl_price)
  lowest-below ordered r s [] (inr m) = elim m [ ]
  lowest-below ordered r s (t ∷ rs) h = ground (
    arith,
    lowest-below ordered r s rs,
    lowest-below ordered t s rs,
    lowest-below ordered r r rs,
    lowest-below ordered t t rs,
    ordered.leq_total r.new_sl_price t.new_sl_price,
    ordered.leq_trans (lowest t rs).new_sl_price t.new_sl_price r.new_sl_price,
    ordered.leq_trans (lowest r rs).new_sl_price r.new_sl_price t.new_sl_price,
  )

  pick-Member :
      (side : PositionSide) (rs : List (SlAdjustmentResult F)) (r : SlAdjustmentResult F)
      → pick side rs ≡ some r
      → Member r rs
  unfolding pick
  pick-Member side [] r h = ground arith
  pick-Member long (s ∷ rs) r h = ground (arith, highest-Member s rs)
  pick-Member short (s ∷ rs) r h = ground (arith, lowest-Member s rs)
  pick-Member both (s ∷ rs) r h = ground (arith, highest-Member s rs)

  pick-strongest :
      IsOrdered F fl
      → (side : PositionSide) (rs : List (SlAdjustmentResult F)) (r s : SlAdjustmentResult F)
      → pick side rs ≡ some r
      → Member s rs
      → is_no_looser side s.new_sl_price r.new_sl_price ≡ true
  unfolding pick is_no_looser
  pick-strongest ordered side [] r s h m = elim m [ ]
  pick-strongest ordered long (t ∷ rs) r s h m = ground (arith, highest-above ordered t s rs m)
  pick-strongest ordered short (t ∷ rs) r s h m = ground (arith, lowest-below ordered t s rs m)
  pick-strongest ordered both (t ∷ rs) r s h m = ground (arith, highest-above ordered t s rs m)

  pick-none :
      (side : PositionSide) (rs : List (SlAdjustmentResult F)) (r : SlAdjustmentResult F)
      → pick side rs ≡ none
      → Member r rs
      → ⊥
  unfolding pick
  pick-none side [] r h m = m
  pick-none long (t ∷ rs) r h m = ground arith
  pick-none short (t ∷ rs) r h m = ground arith
  pick-none both (t ∷ rs) r h m = ground arith

  -- Where the floats are ordered, a result of the pipeline is the result of a source of the
  -- priority list, and it protects the position at least as much as the result of any source of the
  -- list.
  pub evaluate-strongest :
      IsOrdered F fl
      → (p : PositionContext F) (price : F) (atr : Option F) (r : SlAdjustmentResult F)
      → evaluate p price atr ≡ some r
      → (source : Source) (s : SlAdjustmentResult F) → Member source p.adjustment_priority
      → evaluate_source source p price atr ≡ some s
      → ((from : Source) × (Member from p.adjustment_priority)
          × (evaluate_source from p price atr ≡ some r))
        × (is_no_looser p.side s.new_sl_price r.new_sl_price ≡ true)
  unfolding evaluate
  evaluate-strongest ordered p price atr r h source s listed e = (
    candidates-source p.adjustment_priority p price atr r (pick-Member p.side _ r h),
    pick-strongest ordered p.side _ r s h
        (source-candidates p.adjustment_priority p price atr source s listed e),
  )

  pub evaluate-from_source :
      (p : PositionContext F) (price : F) (atr : Option F) (r : SlAdjustmentResult F)
      → evaluate p price atr ≡ some r
      → (from : Source) × (Member from p.adjustment_priority)
        × (evaluate_source from p price atr ≡ some r)
  unfolding evaluate
  evaluate-from_source p price atr r h =
      candidates-source p.adjustment_priority p price atr r (pick-Member p.side _ r h)

  -- Where the pipeline returns nothing, no source of the priority list has a result.
  pub evaluate-none :
      (p : PositionContext F) (price : F) (atr : Option F) (source : Source)
      → evaluate p price atr ≡ none
      → Member source p.adjustment_priority
      → evaluate_source source p price atr ≡ none
  unfolding evaluate
  evaluate-none p price atr source h listed =
      elim (Option-cases (evaluate_source source p price atr)) [
        | inl e ↦ e
        | inr (s, e) ↦
            elim (pick-none p.side _ s h
              (source-candidates p.adjustment_priority p price atr source s listed e)) [ ]
      ]
