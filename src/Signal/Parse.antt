-- ===== src/Signal/Parse.antt =====
-- What becomes of the confidence of a legacy payload.
use adviser_ai_constructor.Prelude.{ℕ, ◌≡◌, refl, true, Option, some, List, arith}
use adviser_ai_constructor.Float.{Float, ◌⊗◌, ◌⊏◌, ◌⊑◌, of_ℕ}
use adviser_ai_constructor.Text.{codes, text_eq}
use adviser_ai_constructor.Position.Queue.Task.{Format}
use adviser_ai_constructor.Signal.{
  num, object, Fields, field, empty, ParsedAutoTradeSignal, get_field, normalize_confidence,
  adapt_legacy, stripped, confidence_of, price_of, parse_auto_trade_signal,
}

module _ {F : Type 0} ⦃fl : Float F⦄ ⦃py : Format F⦄ where
  adapted_confidence :
      (analysis : Fields F) (symbol completed created : Option (List ℕ)) (x : F)
      → get_field (codes "confidence") analysis ≡ num x
      → (x ⊑ of_ℕ 1) ≡ true
      → get_field (codes "confidence_pct") (
          adapt_legacy
            (field (codes "analysisStructured") (object analysis) empty)
            symbol
            completed
            created)
        ≡ num (x ⊗ of_ℕ 100)
  unfolding adapt_legacy normalize_confidence text_eq
  adapted_confidence analysis symbol completed created x at low = rw at (rw low refl)

  confidence-scaled :
      (x c : F)
      → (of_ℕ 0 ⊏ x) ≡ true
      → (x ⊑ of_ℕ 1) ≡ true
      → confidence_of (num x) ≡ some c
      → c ≡ x ⊗ of_ℕ 100
  unfolding confidence_of
  confidence-scaled x c positive low h = ground arith

  module _ {T : Type 0} (fromisoformat : List ℕ → Option T) where
    parse-parts :
        (payload : Fields F) (s : ParsedAutoTradeSignal F T)
        → parse_auto_trade_signal fromisoformat payload ≡ some s
        → (stripped (get_field (codes "schema_version") payload) ≡ some s.schema_version)
          × (stripped (get_field (codes "symbol") payload) ≡ some s.symbol)
          × (confidence_of (get_field (codes "confidence_pct") payload) ≡ some s.confidence_pct)
          × (price_of (get_field (codes "price") payload) ≡ some s.price_current)
    unfolding parse_auto_trade_signal
    parse-parts payload s h = ground arith

    -- A legacy payload whose confidence, a number of at most 1, is at most 1 also after it is multiplied by 100:
    -- a signal that is parsed from the adapted payload has that confidence multiplied by 100
    -- twice.
    pub legacy_fraction-scaled_twice :
        (analysis : Fields F) (symbol completed created : Option (List ℕ)) (x : F)
        (s : ParsedAutoTradeSignal F T)
        → get_field (codes "confidence") analysis ≡ num x
        → (x ⊑ of_ℕ 1) ≡ true
        → (of_ℕ 0 ⊏ (x ⊗ of_ℕ 100)) ≡ true
        → ((x ⊗ of_ℕ 100) ⊑ of_ℕ 1) ≡ true
        → parse_auto_trade_signal fromisoformat (
            adapt_legacy
              (field (codes "analysisStructured") (object analysis) empty)
              symbol
              completed
              created)
          ≡ some s
        → s.confidence_pct ≡ (x ⊗ of_ℕ 100) ⊗ of_ℕ 100
    legacy_fraction-scaled_twice analysis symbol completed created x s at low positive still_low h =
        let payload =
          adapt_legacy (field (codes "analysisStructured") (object analysis) empty) symbol completed
            created in
        let (_, _, confidence, _) = parse-parts payload s h in
        confidence-scaled (x ⊗ of_ℕ 100) s.confidence_pct positive still_low
          (rw (adapted_confidence analysis symbol completed created x at low) at confidence)
