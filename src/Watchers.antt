-- ===== src/Watchers.antt =====
-- app/services/watchers/rule_engine.py: `evaluate_condition`. The value of an indicator is a value of
-- JSON. The regular expressions are read on the words of a condition, with ASCII digits and blanks.
pub mod Bus
mod Words
mod Texts
mod Tests
use adviser_ai_constructor.Prelude.{
  ℕ, Bool, true, false, not, ◌&&◌, ◌||◌, Option, none, some, List, [], ◌∷◌, ◌++◌, leb, ◌==◌,
  if◌then◌else◌,
}
use adviser_ai_constructor.Float.{Float, ◌⊏◌, ◌⊑◌, of_ℕ}
use adviser_ai_constructor.Text.{codes, text_eq, strip, lower}
use adviser_ai_constructor.Position.Queue.Task.{Format}
use adviser_ai_constructor.Signal.{
  Json, null, bool, num, text, object, Fields, empty, field, get_field,
}

pub data Comparator : Type 0 where
  above below at_least at_most : Comparator

-- A condition, by the pattern that it matches.
pub data Condition : Type 0 where
  cross_below cross_above invalid : Condition
  comparison : Comparator → List ℕ → Condition
  between outside : List ℕ → List ℕ → Condition

pub is_blank : ℕ → Bool
is_blank c = c == 32 || (leb 9 c && leb c 13) || (leb 28 c && leb c 31)

-- A text and the words after it: the first word is open at its left end.
abbrev start_word : ℕ → List (List ℕ) → List (List ℕ)
start_word c [] = (c ∷ []) ∷ []
start_word c (w ∷ words) = (c ∷ w) ∷ words

-- `t.split()`; an empty word is a gap.
pub split_words : List ℕ → List (List ℕ)
unfolding is_blank
split_words [] = []
split_words (c ∷ t) =
    let rest = split_words t in if is_blank c then [] ∷ rest else start_word c rest

pub drop_gaps : List (List ℕ) → List (List ℕ)
drop_gaps [] = []
drop_gaps ([] ∷ words) = drop_gaps words
drop_gaps ((c ∷ w) ∷ words) = (c ∷ w) ∷ drop_gaps words

-- `[\d.]+` and `-?[\d.]+`
all_digits : List ℕ → Bool
all_digits [] = true
all_digits (c ∷ t) = ((leb b'0' c && leb c b'9') || c == b'.') && all_digits t

pub is_number : List ℕ → Bool
unfolding all_digits
is_number [] = false
is_number (c ∷ []) = all_digits (c ∷ [])
is_number (c ∷ (d ∷ t)) = (c == b'-' || all_digits (c ∷ [])) && all_digits (d ∷ t)

abbrev comparator_of : ℕ → Bool → Option Comparator
comparator_of c strict =
    if c == b'>'
    then some (if strict then above else at_least)
    else if c == b'<'
    then some (if strict then below else at_most)
    else none

-- The operator at the start of a word, and the rest of the word.
read_operator : List ℕ → Option (Comparator × List ℕ)
read_operator [] = none
read_operator (c ∷ []) = elim (comparator_of c true) [ none ↦ none | some op ↦ some (op, []) ]
read_operator (c ∷ (d ∷ t)) =
    if d == b'='
    then elim (comparator_of c false) [ none ↦ none | some op ↦ some (op, t) ]
    else elim (comparator_of c true) [ none ↦ none | some op ↦ some (op, d ∷ t) ]

number_or_invalid : Comparator → List ℕ → Condition
unfolding is_number
number_or_invalid op t = if is_number t then comparison op t else invalid

compare_words : List (List ℕ) → Condition
unfolding read_operator number_or_invalid
compare_words (w ∷ []) = elim (read_operator w) [
  | none ↦ invalid
  | some (op, t) ↦ number_or_invalid op t
]
compare_words (w ∷ (t ∷ [])) = elim (read_operator w) [
  | some (op, []) ↦ number_or_invalid op t
  | _ ↦ invalid
]
compare_words _ = invalid

range_words : List ℕ → List ℕ → List ℕ → Condition
unfolding is_number
range_words kind l u =
    if is_number l && is_number u
    then (if text_eq kind (codes "between")
        then between l u
        else if text_eq kind (codes "outside")
        then outside l u
        else invalid)
    else invalid

condition_of : List (List ℕ) → Condition
unfolding compare_words range_words
condition_of (w ∷ []) =
    if text_eq w (codes "cross_below")
    then cross_below
    else if text_eq w (codes "cross_above")
    then cross_above
    else compare_words (w ∷ [])
condition_of (kind ∷ (l ∷ (u ∷ []))) = range_words kind l u
condition_of words = compare_words words

-- The pattern of the normalised text
pub parse_condition : List ℕ → Condition
unfolding condition_of split_words drop_gaps
parse_condition condition = condition_of (drop_gaps (split_words (lower condition)))

module _ {F : Type 0} ⦃fl : Float F⦄ ⦃py : Format F⦄ where
  -- `_to_float`
  pub to_number : Json F → Option F
  to_number (bool b) = some (if b then of_ℕ 1 else of_ℕ 0)
  to_number (num x) = some x
  to_number (text t) = py.parse_float t
  to_number _ = none

  abbrev pub compare : Comparator → F → F → Bool
  compare above current threshold = threshold ⊏ current
  compare below current threshold = current ⊏ threshold
  compare at_least current threshold = threshold ⊑ current
  compare at_most current threshold = current ⊑ threshold

  -- `_evaluate_comparison`
  evaluate_comparison : Comparator → List ℕ → Json F → Bool
  unfolding to_number
  evaluate_comparison op raw v = elim (to_number v) [
    | none ↦ false
    | some current ↦ elim (py.parse_float raw) [
      | none ↦ false
      | some threshold ↦ compare op current threshold
    ]
  ]

  crossed : Bool → F → F → F → F → Bool
  crossed true line signal prev_line prev_signal = (line ⊏ signal) && (prev_signal ⊑ prev_line)
  crossed false line signal prev_line prev_signal = (signal ⊏ line) && (prev_line ⊑ prev_signal)

  -- `_evaluate_cross`: a missing key is no number either.
  evaluate_cross : Bool → Json F → Bool
  unfolding crossed to_number
  evaluate_cross is_below (object v) = elim (to_number (get_field (codes "line") v)) [
    | none ↦ false
    | some line ↦ elim (to_number (get_field (codes "signal") v)) [
      | none ↦ false
      | some signal ↦ elim (to_number (get_field (codes "prev_line") v)) [
        | none ↦ false
        | some prev_line ↦ elim (to_number (get_field (codes "prev_signal") v)) [
          | none ↦ false
          | some prev_signal ↦ crossed is_below line signal prev_line prev_signal
        ]
      ]
    ]
  ]
  evaluate_cross is_below _ = false

  in_range : Bool → F → F → F → Bool
  in_range true l u x = (l ⊑ x) && (x ⊑ u)
  in_range false l u x = (x ⊏ l) || (u ⊏ x)

  -- `_evaluate_range`
  evaluate_range : Bool → List ℕ → List ℕ → Json F → Bool
  unfolding in_range to_number
  evaluate_range is_between lower_raw upper_raw v = elim (to_number v) [
    | none ↦ false
    | some x ↦ elim (py.parse_float lower_raw) [
      | none ↦ false
      | some l ↦ elim (py.parse_float upper_raw) [
        | none ↦ false
        | some u ↦ if u ⊏ l then false else in_range is_between l u x
      ]
    ]
  ]

  pub decide_condition : Condition → Json F → Bool
  unfolding evaluate_comparison evaluate_cross evaluate_range
  decide_condition cross_below v = evaluate_cross true v
  decide_condition cross_above v = evaluate_cross false v
  decide_condition (comparison op raw) v = evaluate_comparison op raw v
  decide_condition (between l u) v = evaluate_range true l u v
  decide_condition (outside l u) v = evaluate_range false l u v
  decide_condition invalid v = false

  -- `evaluate_condition`
  pub evaluate_condition : List ℕ → Json F → Bool
  unfolding parse_condition decide_condition
  evaluate_condition condition null = false
  evaluate_condition condition v = decide_condition (parse_condition condition) v
