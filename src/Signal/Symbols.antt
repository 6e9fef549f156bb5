-- ===== src/Signal/Symbols.antt =====
-- The two names of a market agree.
use adviser_ai_constructor.Prelude.{
  ℕ, ◌≡◌, refl, sym, ap, Bool, true, false, ◌||◌, ◌⊎◌, inl, inr, Option, none, some, List, [], ◌∷◌,
  ◌++◌, arith, Bool-cases, Option-cases, if◌then◌else◌,
}
use adviser_ai_constructor.Text.{text_eq, text_eq_iff, split_once, strip, upper}
use adviser_ai_constructor.Signal.{
  compact_of, before_suffix, is_empty, known_quotes, default_quote, is_bare, quote_of,
  ends_with_quote, key_of_pair, key_of_compact, symbol_market_key, linear, linear_of_pair,
  linear_of_quotes, linear_of_compact, to_linear_perp_symbol,
}

before_suffix-append :
    (suffix t base : List ℕ) → before_suffix suffix t ≡ some base → base ++ suffix ≡ t
unfolding before_suffix
before_suffix-append suffix [] base h = cc
before_suffix-append suffix (c ∷ t) base h = elim (Bool-cases (text_eq (c ∷ t) suffix)) [
  | inl same ↦ ground (arith, text_eq_iff (c ∷ t) suffix)
  | inr other ↦ elim (Option-cases (before_suffix suffix t)) [
    | inl e ↦ ground arith
    | inr (s, e) ↦ let inner = before_suffix-append suffix t s e in ground (arith, inner)
  ]
]

-- A name for orders, and the key of the same market.
abbrev pub IsPair : List ℕ → Option (List ℕ) → Type 0
IsPair t key =
    (base : List ℕ) × (quote : List ℕ) × (t ≡ linear base quote) × (key ≡ some (base ++ quote))

abbrev Agree : Option (List ℕ) → Option (List ℕ) → Type 0
Agree none key = key ≡ none
Agree (some t) key = IsPair t key

pair-agrees : (parts : List ℕ × List ℕ) → Agree (linear_of_pair parts) (key_of_pair parts)
unfolding linear_of_pair key_of_pair
pair-agrees (left, right) = elim (Bool-cases (is_empty (strip left) || is_empty (quote_of right))) [
  | inl h ↦ rw (h, Agree) refl
  | inr h ↦ rw (h, Agree) (strip left, quote_of right, refl, refl)
]

-- What a list of quotes gives for a compact name.
abbrev Suffixed : List ℕ → Option (List ℕ) → Bool → Type 0
Suffixed compact none found = found ≡ false
Suffixed compact (some t) found =
    (found ≡ true)
    × ((base : List ℕ) × (quote : List ℕ) × (t ≡ linear base quote) × (base ++ quote ≡ compact))

quotes-agree :
    (quotes : List (List ℕ)) (compact : List ℕ)
    → Suffixed compact (linear_of_quotes quotes compact) (ends_with_quote quotes compact)
unfolding linear_of_quotes ends_with_quote
quotes-agree [] compact = refl
quotes-agree (q ∷ quotes) compact = elim (Option-cases (before_suffix q compact)) [
  | inl e ↦ rw (e, Suffixed, ends_with_quote, linear_of_quotes) (quotes-agree quotes compact)
  | inr (base, e) ↦ elim (Bool-cases (is_empty base)) [
    | inl h ↦
        rw (e, Suffixed, ends_with_quote, linear_of_quotes)
          (rw (h, Suffixed, ends_with_quote, linear_of_quotes) (quotes-agree quotes compact))
    | inr h ↦
        rw (e, Suffixed, ends_with_quote, linear_of_quotes)
          (rw (h, Suffixed, ends_with_quote, linear_of_quotes)
            (refl, (base, q, refl, before_suffix-append q compact base e)))
  ]
]

from_quotes :
    (compact : List ℕ) (bare found : Bool) (o : Option (List ℕ))
    → Suffixed compact o found
    → Agree
        (elim o [
          | some u ↦ some u
          | none ↦ if bare then some (linear compact default_quote) else none
        ])
        (if found then some compact else if bare then some (compact ++ default_quote) else none)
from_quotes compact true found none h = rw h (compact, default_quote, refl, refl)
from_quotes compact false found none h = rw h refl
from_quotes compact bare found (some t) (f, (base, quote, e, e')) =
    rw f (base, quote, e, ap some (sym e'))

nothing-agrees : Agree (linear_of_compact []) (key_of_compact [])
unfolding linear_of_compact key_of_compact linear_of_quotes before_suffix is_bare
nothing-agrees = refl

compact-agrees : (compact : List ℕ) → Agree (linear_of_compact compact) (key_of_compact compact)
unfolding linear_of_compact key_of_compact
compact-agrees [] = nothing-agrees
compact-agrees (c ∷ t) =
    from_quotes (c ∷ t) (is_bare (c ∷ t)) (ends_with_quote known_quotes (c ∷ t))
      (linear_of_quotes known_quotes (c ∷ t)) (quotes-agree known_quotes (c ∷ t))

read_off :
    (o key : Option (List ℕ))
    → Agree o key
    → ((o ≡ none) × (key ≡ none))
      ⊎ ((base : List ℕ) × (quote : List ℕ) × (o ≡ some (linear base quote))
          × (key ≡ some (base ++ quote)))
read_off none key h = inl (refl, h)
read_off (some t) key (base, quote, e, e') = inr (base, quote, ap some e, e')

both-Agree : (symbol : List ℕ) → Agree (to_linear_perp_symbol symbol) (symbol_market_key symbol)
unfolding to_linear_perp_symbol symbol_market_key
both-Agree symbol =
    let raw = upper (strip symbol) in
    elim (Bool-cases (is_empty raw)) [
      | inl h ↦ rw (h, Agree, symbol_market_key) refl
      | inr h ↦ elim (Option-cases (split_once b'/' raw)) [
        | inl e ↦
            rw (h, Agree, symbol_market_key)
              (rw (e, Agree, symbol_market_key) (compact-agrees (compact_of raw)))
        | inr (parts, e) ↦
            rw (h, Agree, symbol_market_key) (rw (e, Agree, symbol_market_key) (pair-agrees parts))
      ]
    ]

-- For any text, either both conversions refuse it, or there are a base and a quote such that the name
-- for orders is base/quote:quote and the key is the base followed by the quote.
pub symbols-agree :
    (symbol : List ℕ)
    → ((to_linear_perp_symbol symbol ≡ none) × (symbol_market_key symbol ≡ none))
      ⊎ ((base : List ℕ) × (quote : List ℕ) × (to_linear_perp_symbol symbol
            ≡ some (linear base quote))
          × (symbol_market_key symbol ≡ some (base ++ quote)))
symbols-agree symbol =
    read_off (to_linear_perp_symbol symbol) (symbol_market_key symbol) (both-Agree symbol)
