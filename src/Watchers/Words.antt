-- ===== src/Watchers/Words.antt =====
-- app/services/watchers/rule_engine.py: the words of a text.
use adviser_ai_constructor.Prelude.{
  ℕ, ◌≡◌, refl, ap, ◌∙◌, true, false, ◌&&◌, List, [], ◌∷◌, ◌++◌, arith, All, leb,
}
use adviser_ai_constructor.Text.{lower}
use adviser_ai_constructor.Watchers.{is_blank, split_words, drop_gaps, all_digits, is_number}

-- A character that is no capital letter, and one that is moreover no blank.
abbrev pub IsLow : ℕ → Type 0
IsLow c = (leb b'A' c && leb c b'Z') ≡ false

abbrev pub IsInk : ℕ → Type 0
IsInk c = IsLow c × (is_blank c ≡ false)

abbrev pub IsBlank : List ℕ → Type 0
IsBlank pad = All (λ c. is_blank c ≡ true) pad

pub blank-IsLow : (pad : List ℕ) → IsBlank pad → All IsLow pad
unfolding is_blank
blank-IsLow [] h = tt
blank-IsLow (c ∷ pad) h = (ground (arith, h.0), blank-IsLow pad h.1)

pub ink-IsLow : (t : List ℕ) → All IsInk t → All IsLow t
ink-IsLow [] h = tt
ink-IsLow (c ∷ t) h = (h.0.0, ink-IsLow t h.1)

pub lower-IsLow : (t : List ℕ) → All IsLow t → lower t ≡ t
unfolding lower
lower-IsLow [] h = refl
lower-IsLow (c ∷ t) h = rw (lower-IsLow t h.1) (rw h.0 refl)

digits-IsInk : (t : List ℕ) → all_digits t ≡ true → All IsInk t
unfolding all_digits is_blank
digits-IsInk [] h = tt
digits-IsInk (c ∷ t) h = (ground (arith, h), digits-IsInk t (ground (arith, h)))

pub number-IsInk : (t : List ℕ) → is_number t ≡ true → All IsInk t
unfolding is_number all_digits is_blank
number-IsInk [] h = cc
number-IsInk (c ∷ []) h = (ground (arith, h), tt)
number-IsInk (c ∷ (d ∷ t)) h = (ground (arith, h), digits-IsInk (d ∷ t) (ground (arith, h)))

-- The words of a text: gaps are dropped, and a blank ends a word.
pub words-pad :
    (pad t : List ℕ) → IsBlank pad → drop_gaps (split_words (pad ++ t)) ≡ drop_gaps (split_words t)
unfolding split_words drop_gaps
words-pad [] t h = refl
words-pad (c ∷ pad) t h = rw h.0 (words-pad pad t h.1)

pub split-word :
    (w t : List ℕ) (b : ℕ)
    → All IsInk w
    → is_blank b ≡ true
    → split_words (w ++ b ∷ t) ≡ w ∷ split_words t
unfolding split_words
split-word [] t b h e = rw e refl
split-word (c ∷ w) t b h e = rw (h.0.1, split-word w t b h.1 e) refl

pub split-last : (c : ℕ) (w : List ℕ) → All IsInk (c ∷ w) → split_words (c ∷ w) ≡ (c ∷ w) ∷ []
unfolding split_words
split-last c [] h = rw h.0.1 refl
split-last c (d ∷ w) h = rw (h.0.1, split-last d w h.1) refl

pub words-last : (w : List ℕ) → is_number w ≡ true → drop_gaps (split_words w) ≡ w ∷ []
unfolding drop_gaps is_number
words-last [] h = cc
words-last (c ∷ w) h = rw (split-last c w (number-IsInk (c ∷ w) h)) refl

-- A word, a blank, more blanks, and a last number
pub words-two :
    (c : ℕ) (w pad raw : List ℕ) (b : ℕ)
    → All IsInk (c ∷ w)
    → IsBlank (b ∷ pad)
    → is_number raw ≡ true
    → drop_gaps (split_words ((c ∷ w) ++ (b ∷ (pad ++ raw)))) ≡ (c ∷ w) ∷ raw ∷ []
unfolding drop_gaps
words-two c w pad raw b ink blank h =
    rw (split-word (c ∷ w) (pad ++ raw) b ink blank.0)
      (ap (λ ws. (c ∷ w) ∷ ws) (words-pad pad raw blank.1 ∙ words-last raw h))

pub lower-append : (s t : List ℕ) → lower (s ++ t) ≡ lower s ++ lower t
unfolding lower
lower-append [] t = refl
lower-append (c ∷ s) t = rw (lower-append s t) refl

pub no-number : is_number [] ≡ true → ⊥
unfolding is_number
no-number h = cc
