-- ===== src/Signal/Tests.antt =====
-- A legacy payload with a confidence of 0.008, and a strict one.
use adviser_ai_constructor.Prelude.{ℕ, ◌≡◌, ◌⊎◌, refl, Option, none, some, List, ◌++◌}
use adviser_ai_constructor.Float.{◌⊗◌, of_ℕ}
use adviser_ai_constructor.Float.Fixed.{ℤ, fixed}
use adviser_ai_constructor.Text.{codes, text_eq, strip, upper}
use adviser_ai_constructor.Position.Queue.Task.{Format}
use adviser_ai_constructor.Signal.{
  Fields, field, empty, num, text, object, long, ParsedAutoTradeSignal, adapt_legacy,
  parse_auto_trade_signal, symbol_market_key, to_linear_perp_symbol, linear,
}
use adviser_ai_constructor.Signal.Symbols.{symbols-agree}
use adviser_ai_constructor.Signal.Parse.{legacy_fraction-scaled_twice}

-- A stand-in for the formats of Python, which reads no text as a number.
instance abbrev plain_format : Format ℤ
plain_format = record {
  format_10g = λ x. codes "?";
  show = λ v. codes "?";
  parse_float = λ t. none;
}

abbrev iso : List ℕ → Option (List ℕ)
iso t = some t

abbrev strict : Fields ℤ
strict = field (codes "schema_version") (text (codes "1")) (
    field (codes "symbol") (text (codes "BTCUSDT")) (
      field (codes "trend") (text (codes "long")) (
        field (codes "confidence_pct") (num (of_ℕ 65)) (
          field (codes "price") (object (field (codes "current") (num (of_ℕ 100)) empty))
            (field (codes "generated_at") (text (codes "now")) empty)))))

abbrev strict_signal : ParsedAutoTradeSignal ℤ (List ℕ)
strict_signal = record {
  schema_version = codes "1";
  symbol = codes "BTCUSDT";
  trend = long;
  confidence_pct = of_ℕ 65;
  price_current = of_ℕ 100;
  generated_at = codes "now";
}

example_parses : parse_auto_trade_signal iso strict ≡ some strict_signal
unfolding parse_auto_trade_signal text_eq strip upper
example_parses = refl

abbrev small : ℤ
small = fixed.ratio 8 1000

abbrev analysis : Fields ℤ
analysis = field (codes "symbol") (text (codes "BTCUSDT")) (
    field (codes "bias") (text (codes "bullish")) (
      field (codes "confidence") (num small) (
        field (codes "currentPrice") (num (of_ℕ 100))
          (field (codes "timestamp") (text (codes "now")) empty))))

abbrev legacy_signal : ParsedAutoTradeSignal ℤ (List ℕ)
legacy_signal = record {
  schema_version = codes "legacy-analysisStructured-v1";
  symbol = codes "BTCUSDT";
  trend = long;
  confidence_pct = of_ℕ 80;
  price_current = of_ℕ 100;
  generated_at = codes "now";
}

legacy_fraction-scaled_twice_example : of_ℕ 80 ≡ (small ⊗ of_ℕ 100) ⊗ of_ℕ 100
unfolding parse_auto_trade_signal adapt_legacy text_eq strip upper
legacy_fraction-scaled_twice_example =
    legacy_fraction-scaled_twice iso analysis none none none small legacy_signal refl refl refl refl
      refl

symbols-agree_example :
    ((to_linear_perp_symbol (codes "btc/usdt") ≡ none)
      × (symbol_market_key (codes "btc/usdt") ≡ none))
    ⊎ ((base : List ℕ) × (quote : List ℕ) × (to_linear_perp_symbol (codes "btc/usdt")
          ≡ some (linear base quote))
        × (symbol_market_key (codes "btc/usdt") ≡ some (base ++ quote)))
symbols-agree_example = symbols-agree (codes "btc/usdt")
