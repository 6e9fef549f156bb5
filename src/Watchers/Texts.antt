-- ===== src/Watchers/Texts.antt =====
-- app/services/watchers/rule_engine.py: what the text of a condition means.
use adviser_ai_constructor.Prelude.{
  ℕ, ◌≡◌, ◌↔◌, refl, ap, ◌∙◌, ◌⊎◌, Bool, true, false, some, List, [], ◌∷◌, ◌++◌, arith, All,
  All-append,
}
use adviser_ai_constructor.Float.{Float, ◌⊏◌, ◌⊑◌}
use adviser_ai_constructor.Text.{codes, text_eq, lower}
use adviser_ai_constructor.Position.Queue.Task.{Format}
use adviser_ai_constructor.Signal.{Json, null, bool, num, text, object}
use adviser_ai_constructor.Watchers.{
  Comparator, above, below, at_least, at_most, Condition, comparison, between, outside, is_blank,
  split_words, drop_gaps, all_digits, is_number, read_operator, number_or_invalid, compare_words,
  range_words, condition_of, parse_condition, to_number, evaluate_comparison, in_range,
  evaluate_range, decide_condition, evaluate_condition,
}
use adviser_ai_constructor.Watchers.Words.{
  IsInk, IsBlank, blank-IsLow, ink-IsLow, lower-IsLow, number-IsInk, words-pad, split-word,
  split-last, words-two, lower-append, no-number,
}

abbrev pub symbol_of : Comparator → List ℕ
symbol_of above = codes ">"
symbol_of below = codes "<"
symbol_of at_least = codes ">="
symbol_of at_most = codes "<="

symbol-IsInk : (op : Comparator) → All IsInk (symbol_of op)
unfolding is_blank
symbol-IsInk above = ground arith
symbol-IsInk below = ground arith
symbol-IsInk at_least = ground arith
symbol-IsInk at_most = ground arith

-- A number that follows a symbol directly, or after blanks.
read-joined :
    (op : Comparator) (raw : List ℕ)
    → is_number raw ≡ true
    → condition_of ((symbol_of op ++ raw) ∷ []) ≡ comparison op raw
unfolding condition_of compare_words read_operator number_or_invalid is_number all_digits text_eq
read-joined op [] h = cc
read-joined above (c ∷ []) h = ground (arith, h)
read-joined above (c ∷ (d ∷ t)) h = ground (arith, h)
read-joined below (c ∷ []) h = ground (arith, h)
read-joined below (c ∷ (d ∷ t)) h = ground (arith, h)
read-joined at_least (c ∷ t) h = rw h refl
read-joined at_most (c ∷ t) h = rw h refl

read-apart :
    (op : Comparator) (raw : List ℕ)
    → is_number raw ≡ true
    → condition_of (symbol_of op ∷ raw ∷ []) ≡ comparison op raw
unfolding condition_of compare_words read_operator number_or_invalid
read-apart above raw h = rw h refl
read-apart below raw h = rw h refl
read-apart at_least raw h = rw h refl
read-apart at_most raw h = rw h refl

words-joined :
    (op : Comparator) (raw : List ℕ)
    → is_number raw ≡ true
    → drop_gaps (split_words (symbol_of op ++ raw)) ≡ (symbol_of op ++ raw) ∷ []
unfolding drop_gaps
words-joined above raw h =
    rw
      (split-last _ raw
        (All-append _ (symbol_of above) raw (symbol-IsInk above) (number-IsInk raw h)))
      refl
words-joined below raw h =
    rw
      (split-last _ raw
        (All-append _ (symbol_of below) raw (symbol-IsInk below) (number-IsInk raw h)))
      refl
words-joined at_least raw h =
    rw
      (split-last _ _
        (All-append _ (symbol_of at_least) raw (symbol-IsInk at_least) (number-IsInk raw h)))
      refl
words-joined at_most raw h =
    rw
      (split-last _ _
        (All-append _ (symbol_of at_most) raw (symbol-IsInk at_most) (number-IsInk raw h)))
      refl

words-comparison :
    (op : Comparator) (pad raw : List ℕ)
    → IsBlank pad
    → is_number raw ≡ true
    → condition_of (drop_gaps (split_words (symbol_of op ++ (pad ++ raw)))) ≡ comparison op raw
words-comparison op [] raw blank h = rw (words-joined op raw h) (read-joined op raw h)
words-comparison above (b ∷ pad) raw blank h =
    rw (words-two _ _ pad raw b (symbol-IsInk above) blank h) (read-apart above raw h)
words-comparison below (b ∷ pad) raw blank h =
    rw (words-two _ _ pad raw b (symbol-IsInk below) blank h) (read-apart below raw h)
words-comparison at_least (b ∷ pad) raw blank h =
    rw (words-two _ _ pad raw b (symbol-IsInk at_least) blank h) (read-apart at_least raw h)
words-comparison at_most (b ∷ pad) raw blank h =
    rw (words-two _ _ pad raw b (symbol-IsInk at_most) blank h) (read-apart at_most raw h)

parse-comparison :
    (op : Comparator) (pre pad raw : List ℕ)
    → IsBlank pre
    → IsBlank pad
    → is_number raw ≡ true
    → parse_condition (pre ++ (symbol_of op ++ (pad ++ raw))) ≡ comparison op raw
unfolding parse_condition
parse-comparison op pre pad raw hp blank h =
    let low = All-append _ pre (symbol_of op ++ (pad ++ raw)) (blank-IsLow pre hp) (
      All-append _ (symbol_of op) (pad ++ raw) (ink-IsLow (symbol_of op) (symbol-IsInk op))
        (All-append _ pad raw (blank-IsLow pad blank) (ink-IsLow raw (number-IsInk raw h)))) in
    rw (lower-IsLow _ low, words-pad pre (symbol_of op ++ (pad ++ raw)) hp)
      (words-comparison op pad raw blank h)

-- The two names of a range, inside and outside
abbrev pub name_of : Bool → List ℕ
name_of true = codes "between"
name_of false = codes "outside"

abbrev range_of : Bool → List ℕ → List ℕ → Condition
range_of true l u = between l u
range_of false l u = outside l u

words-range :
    (c : ℕ) (w pad pad' l u : List ℕ) (b b' : ℕ)
    → All IsInk (c ∷ w)
    → IsBlank (b ∷ pad)
    → IsBlank (b' ∷ pad')
    → is_number l ≡ true
    → is_number u ≡ true
    → drop_gaps (split_words ((c ∷ w) ++ (b ∷ (pad ++ (l ++ (b' ∷ (pad' ++ u)))))))
      ≡ (c ∷ w) ∷ l ∷ u ∷ []
unfolding drop_gaps
words-range c w pad pad' [] u b b' ink blank blank' hl hu = absurd (no-number hl)
words-range c w pad pad' (d ∷ l) u b b' ink blank blank' hl hu =
    rw (split-word (c ∷ w) (pad ++ ((d ∷ l) ++ (b' ∷ (pad' ++ u)))) b ink blank.0) (
      ap (λ ws. (c ∷ w) ∷ ws)
        (words-pad pad ((d ∷ l) ++ (b' ∷ (pad' ++ u))) blank.1
          ∙ words-two d l pad' u b' (number-IsInk (d ∷ l) hl) blank' hu))

read-range :
    (inside : Bool) (l u : List ℕ)
    → is_number l ≡ true
    → is_number u ≡ true
    → condition_of (name_of inside ∷ l ∷ u ∷ []) ≡ range_of inside l u
unfolding condition_of range_words text_eq
read-range true l u hl hu = rw (hl, hu) refl
read-range false l u hl hu = rw (hl, hu) refl

name-IsInk : (inside : Bool) → All IsInk (name_of inside)
unfolding is_blank
name-IsInk true = ground arith
name-IsInk false = ground arith

words-named :
    (inside : Bool) (pad pad' l u : List ℕ) (b b' : ℕ)
    → IsBlank (b ∷ pad)
    → IsBlank (b' ∷ pad')
    → is_number l ≡ true
    → is_number u ≡ true
    → condition_of
        (drop_gaps (split_words (name_of inside ++ (b ∷ (pad ++ (l ++ (b' ∷ (pad' ++ u))))))))
      ≡ range_of inside l u
words-named true pad pad' l u b b' blank blank' hl hu =
    rw (words-range _ _ pad pad' l u b b' (name-IsInk true) blank blank' hl hu)
      (read-range true l u hl hu)
words-named false pad pad' l u b b' blank blank' hl hu =
    rw (words-range _ _ pad pad' l u b b' (name-IsInk false) blank blank' hl hu)
      (read-range false l u hl hu)

parse-range :
    (inside : Bool) (pre kind pad pad' l u : List ℕ) (b b' : ℕ)
    → IsBlank pre
    → lower kind ≡ name_of inside
    → IsBlank (b ∷ pad)
    → IsBlank (b' ∷ pad')
    → is_number l ≡ true
    → is_number u ≡ true
    → parse_condition (pre ++ (kind ++ (b ∷ (pad ++ (l ++ (b' ∷ (pad' ++ u)))))))
      ≡ range_of inside l u
unfolding parse_condition
parse-range inside pre kind pad pad' l u b b' hp named blank blank' hl hu =
    let rest = b ∷ (pad ++ (l ++ (b' ∷ (pad' ++ u)))) in
    let low = All-append _ (b ∷ pad) (l ++ (b' ∷ (pad' ++ u))) (blank-IsLow (b ∷ pad) blank) (
      All-append _ l (b' ∷ (pad' ++ u)) (ink-IsLow l (number-IsInk l hl)) (
        All-append _ (b' ∷ pad') u (blank-IsLow (b' ∷ pad') blank')
          (ink-IsLow u (number-IsInk u hu)))) in
    rw
      (
        lower-append pre (kind ++ rest),
        lower-append kind rest,
        lower-IsLow pre (blank-IsLow pre hp),
        lower-IsLow rest low,
        named,
        words-pad pre (name_of inside ++ rest) hp,
      )
      (words-named inside pad pad' l u b b' blank blank' hl hu)

module _ {F : Type 0} ⦃fl : Float F⦄ where
  -- What a comparison says of a value and a threshold.
  abbrev pub Meets : Comparator → F → F → Type 0
  Meets above x threshold = (threshold ⊏ x) ≡ true
  Meets below x threshold = (x ⊏ threshold) ≡ true
  Meets at_least x threshold = (threshold ⊑ x) ≡ true
  Meets at_most x threshold = (x ⊑ threshold) ≡ true

  -- What a range says of a value and two bounds.
  abbrev pub Lies : Bool → F → F → F → Type 0
  Lies true l u x = ((l ⊑ x) ≡ true) × ((x ⊑ u) ≡ true)
  Lies false l u x = ((x ⊏ l) ≡ true) ⊎ ((u ⊏ x) ≡ true)

module _ {F : Type 0} ⦃fl : Float F⦄ ⦃py : Format F⦄ where
  decide-comparison :
      (op : Comparator) (raw : List ℕ) (v : Json F) (x threshold : F)
      → to_number v ≡ some x
      → py.parse_float raw ≡ some threshold
      → (decide_condition (comparison op raw) v ≡ true) ↔ Meets op x threshold
  unfolding decide_condition evaluate_comparison
  decide-comparison above raw v x threshold e e' = ground arith
  decide-comparison below raw v x threshold e e' = ground arith
  decide-comparison at_least raw v x threshold e e' = ground arith
  decide-comparison at_most raw v x threshold e e' = ground arith

  evaluate-decide :
      (condition : List ℕ) (v : Json F) (x : F)
      → to_number v ≡ some x
      → evaluate_condition condition v ≡ decide_condition (parse_condition condition) v
  unfolding evaluate_condition to_number
  evaluate-decide condition null x e = cc
  evaluate-decide condition (bool b) x e = refl
  evaluate-decide condition (num y) x e = refl
  evaluate-decide condition (text t) x e = refl
  evaluate-decide condition (object fields) x e = refl

  -- A text of blanks, one of the four symbols, blanks or none, and digits and points after a minus sign or none: where
  -- the digits and the value are numbers, it holds of the value exactly if the value is above, below, at
  -- least or at most the number of the digits, as the symbol says.
  pub evaluate-Meets :
      (op : Comparator) (pre pad raw : List ℕ) (v : Json F) (x threshold : F)
      → IsBlank pre
      → IsBlank pad
      → is_number raw ≡ true
      → to_number v ≡ some x
      → py.parse_float raw ≡ some threshold
      → (evaluate_condition (pre ++ (symbol_of op ++ (pad ++ raw))) v ≡ true) ↔ Meets op x threshold
  evaluate-Meets op pre pad raw v x threshold hp blank h e e' =
      rw
        (
          evaluate-decide (pre ++ (symbol_of op ++ (pad ++ raw))) v x e,
          parse-comparison op pre pad raw hp blank h,
        )
        (decide-comparison op raw v x threshold e e')

  decide-range :
      (inside : Bool) (l u : List ℕ) (v : Json F) (x lower_bound upper_bound : F)
      → to_number v ≡ some x
      → py.parse_float l ≡ some lower_bound
      → py.parse_float u ≡ some upper_bound
      → (decide_condition (range_of inside l u) v ≡ true)
        ↔ (((upper_bound ⊏ lower_bound) ≡ false) × Lies inside lower_bound upper_bound x)
  unfolding decide_condition evaluate_range in_range
  decide-range true l u v x a c e e' e'' = ground arith
  decide-range false l u v x a c e e' e'' = ground arith

  -- A text of blanks, a name that is between or outside in any letters, and two numbers of digits, each after one
  -- or more blanks: where the numbers and the value are numbers, it holds of the value exactly if the bounds are
  -- in order and the value lies within them, bounds included, or strictly outside.
  pub evaluate-Lies :
      (inside : Bool) (pre kind pad pad' l u : List ℕ) (b b' : ℕ) (v : Json F)
      (x lower_bound upper_bound : F)
      → IsBlank pre
      → lower kind ≡ name_of inside
      → IsBlank (b ∷ pad)
      → IsBlank (b' ∷ pad')
      → is_number l ≡ true
      → is_number u ≡ true
      → to_number v ≡ some x
      → py.parse_float l ≡ some lower_bound
      → py.parse_float u ≡ some upper_bound
      → (evaluate_condition (pre ++ (kind ++ (b ∷ (pad ++ (l ++ (b' ∷ (pad' ++ u))))))) v ≡ true)
        ↔ (((upper_bound ⊏ lower_bound) ≡ false) × Lies inside lower_bound upper_bound x)
  evaluate-Lies inside pre kind pad pad' l u b b' v x a c hp named blank blank' hl hu e e' e'' =
      rw
        (
          evaluate-decide (pre ++ (kind ++ (b ∷ (pad ++ (l ++ (b' ∷ (pad' ++ u))))))) v x e,
          parse-range inside pre kind pad pad' l u b b' hp named blank blank' hl hu,
        )
        (decide-range inside l u v x a c e e' e'')
