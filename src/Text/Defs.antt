-- ===== src/Text/Defs.antt =====
-- The tests and methods of `str` that the source uses.
use adviser_ai_constructor.Prelude.{
  ℕ, ◌+◌, ◌-◌, Option, none, some, ltb, Bool, true, false, ◌&&◌, ◌||◌, List, [], ◌∷◌, leb, ◌==◌,
  if◌then◌else◌,
}

-- `s == t`
unfoldable pub text_eq : List ℕ → List ℕ → Bool
text_eq [] [] = true
text_eq [] (c ∷ t) = false
text_eq (c ∷ s) [] = false
text_eq (c ∷ s) (d ∷ t) = c == d && text_eq s t

-- `t.startswith(p)`
unfoldable pub starts_with : List ℕ → List ℕ → Bool
starts_with [] t = true
starts_with (c ∷ p) [] = false
starts_with (c ∷ p) (d ∷ t) = c == d && starts_with p t

-- `p in t`
unfoldable pub contains : List ℕ → List ℕ → Bool
unfolding starts_with
contains p [] = starts_with p []
contains p (c ∷ t) = starts_with p (c ∷ t) || contains p t

is_space : ℕ → Bool
is_space c = c == 32 || (leb 9 c && leb c 13)

lstrip : List ℕ → List ℕ
unfolding is_space
lstrip [] = []
lstrip (c ∷ t) = let rest = lstrip t in if is_space c then rest else c ∷ t

reverse_onto : List ℕ → List ℕ → List ℕ
reverse_onto [] acc = acc
reverse_onto (c ∷ t) acc = reverse_onto t (c ∷ acc)

-- `t.strip()`
unfoldable pub strip : List ℕ → List ℕ
unfolding lstrip reverse_onto
strip t = reverse_onto (lstrip (reverse_onto (lstrip t) [])) []

lower_code : ℕ → ℕ
lower_code c = if leb b'A' c && leb c b'Z' then c + 32 else c

-- `t.lower()`
unfoldable pub lower : List ℕ → List ℕ
unfolding lower_code
lower [] = []
lower (c ∷ t) = lower_code c ∷ lower t

upper_code : ℕ → ℕ
upper_code c = if leb b'a' c && leb c b'z' then c - 32 else c

-- `t.upper()`
unfoldable pub upper : List ℕ → List ℕ
unfolding upper_code
upper [] = []
upper (c ∷ t) = upper_code c ∷ upper t

-- `t.split(c, 1)`, `none` if the character is not in the text.
unfoldable pub split_once : ℕ → List ℕ → Option (List ℕ × List ℕ)
split_once c [] = none
split_once c (d ∷ t) =
    let rest = split_once c t in
    if d == c then some ([], t) else elim rest [ none ↦ none | some (s, u) ↦ some (d ∷ s, u) ]

-- `s < t`
unfoldable pub text_lt : List ℕ → List ℕ → Bool
text_lt s [] = false
text_lt [] (d ∷ t) = true
text_lt (c ∷ s) (d ∷ t) = if c == d then text_lt s t else ltb c d
