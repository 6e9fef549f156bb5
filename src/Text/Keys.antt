-- ===== src/Text/Keys.antt =====
-- Equality of texts, and texts made of a name, a separator and a rest.
use adviser_ai_constructor.Prelude.{ℕ, ◌≡◌, ◌≢◌, ◌↔◌, refl, true, List, [], ◌∷◌, ◌++◌, arith, All}
use adviser_ai_constructor.Text.Defs.{text_eq, starts_with}

pub text_eq_iff : (s t : List ℕ) → (text_eq s t ≡ true) ↔ (s ≡ t)
unfolding text_eq
text_eq_iff [] [] = ground arith
text_eq_iff [] (c ∷ t) = ground arith
text_eq_iff (c ∷ s) [] = ground arith
text_eq_iff (c ∷ s) (d ∷ t) = ground (arith, text_eq_iff s t)

pub starts_with-append : (p t : List ℕ) → starts_with p (p ++ t) ≡ true
unfolding starts_with
starts_with-append [] t = refl
starts_with-append (c ∷ p) t = ground (arith, starts_with-append p t)

-- Where neither name holds the separator, a text that begins with one name and the separator can
-- begin with another name and the separator only if the names are the same.
pub separator_eq :
    (sep : ℕ) (p q t : List ℕ)
    → All (λ c. c ≢ sep) p
    → All (λ c. c ≢ sep) q
    → starts_with (p ++ sep ∷ []) (q ++ sep ∷ t) ≡ true
    → p ≡ q
unfolding starts_with
separator_eq sep [] [] t hp hq h = refl
separator_eq sep [] (d ∷ q) t hp hq h = ground arith
separator_eq sep (c ∷ p) [] t hp hq h = ground arith
separator_eq sep (c ∷ p) (d ∷ q) t hp hq h = ground (arith, separator_eq sep p q t hp.1 hq.1)
