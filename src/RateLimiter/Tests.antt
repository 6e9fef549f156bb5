-- ===== src/RateLimiter/Tests.antt =====
-- The limiter of Binance at concrete headers.
use adviser_ai_constructor.Prelude.{ℕ, ◌≡◌, ◌↔◌, ◌⊎◌, true, false, none, some, List, [], ◌∷◌}
use adviser_ai_constructor.Float.{◌⊑◌, of_ℕ}
use adviser_ai_constructor.Float.Fixed.{ℤ, fixed, fixed-IsOrdered, fixed-IsLiteral}
use adviser_ai_constructor.Text.{codes}
use adviser_ai_constructor.Position.Queue.Task.{Value, text, Format}
use adviser_ai_constructor.RateLimiter.{
  AdaptiveRateLimiter, binance, start, get_usage_pct, can_proceed,
}
use adviser_ai_constructor.RateLimiter.Pacing.{can_proceed-lem}

abbrev print_value : Value ℤ → List ℕ
print_value (text t) = t
print_value _ = codes "?"

-- A stand-in for the formats of Python, which reads a text as the number of its first character.
instance abbrev plain_format : Format ℤ
plain_format = record {
  format_10g = λ x. codes "?";
  show = print_value;
  parse_float = λ t. elim t [ [] ↦ none | c ∷ rest ↦ some (of_ℕ c) ];
}

abbrev idle : AdaptiveRateLimiter ℤ
idle = start binance

-- A weight of 2300 of 2400.
abbrev headers : List (List ℕ × Value ℤ)
headers = (codes "X-MBX-Used-Weight-1m", text (2300 ∷ [])) ∷ []

can_proceed-lem_example :
    ((of_ℕ 0 ⊑ get_usage_pct idle) ≡ true)
    × ((get_usage_pct idle ⊑ of_ℕ 1) ≡ true)
    × ((false ≡ false) ⊎ (can_proceed false (of_ℕ 1) idle ≡ (true, of_ℕ 0)))
    × (((can_proceed false (of_ℕ 1) idle).0 ≡ false)
        ↔ ((false ≡ false) × ((fixed.ratio 9 10 ⊑ get_usage_pct idle) ≡ true)))
    × ((of_ℕ 0 ⊑ (can_proceed false (of_ℕ 1) idle).1) ≡ true)
can_proceed-lem_example = can_proceed-lem fixed-IsOrdered fixed-IsLiteral false (of_ℕ 1) idle
