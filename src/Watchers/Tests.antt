-- ===== src/Watchers/Tests.antt =====
-- A comparison and a range, with blanks and a capital letter.
use adviser_ai_constructor.Prelude.{
  ℕ, ◌≡◌, ◌↔◌, refl, true, false, [], Option, none, some, List, if◌then◌else◌,
}
use adviser_ai_constructor.Float.{◌⊏◌, of_ℕ}
use adviser_ai_constructor.Float.Fixed.{ℤ, fixed}
use adviser_ai_constructor.Text.{codes, text_eq, lower}
use adviser_ai_constructor.Position.Queue.Task.{Format}
use adviser_ai_constructor.Signal.{num}
use adviser_ai_constructor.Watchers.{
  at_least, is_blank, is_number, parse_condition, to_number, evaluate_condition,
}
use adviser_ai_constructor.Watchers.Texts.{Meets, Lies, evaluate-Meets, evaluate-Lies}

-- A stand-in for the formats of Python, which reads two numbers.
abbrev read : List ℕ → Option ℤ
read t =
    if text_eq t (codes "30")
    then some (of_ℕ 30)
    else if text_eq t (codes "70")
    then some (of_ℕ 70)
    else none

instance abbrev plain_format : Format ℤ
plain_format = record { format_10g = λ x. codes "?"; show = λ v. codes "?"; parse_float = read }

abbrev thirty : ℤ
thirty = of_ℕ 30

abbrev seventy : ℤ
seventy = of_ℕ 70

evaluate-Meets_example :
    (evaluate_condition {F = ℤ} (codes " >= 30") (num (of_ℕ 80)) ≡ true)
    ↔ Meets {F = ℤ} at_least (of_ℕ 80) (of_ℕ 30)
unfolding is_blank is_number to_number text_eq
evaluate-Meets_example =
    evaluate-Meets at_least (codes " ") (codes " ") (codes "30") (num (of_ℕ 80)) (of_ℕ 80) (of_ℕ 30)
      (refl, tt) (refl, tt) refl refl refl

evaluate-Lies_example :
    (evaluate_condition {F = ℤ} (codes "Outside  30 70") (num (of_ℕ 80)) ≡ true)
    ↔ (((seventy ⊏ thirty) ≡ false) × Lies false thirty seventy (of_ℕ 80))
unfolding is_blank is_number to_number text_eq lower
evaluate-Lies_example =
    evaluate-Lies false [] (codes "Outside") (codes " ") [] (codes "30") (codes "70") b' ' b' '
      (num (of_ℕ 80)) (of_ℕ 80) (of_ℕ 30) (of_ℕ 70) tt refl (refl, (refl, tt)) (refl, tt) refl refl
      refl refl refl

example_holds : evaluate_condition {F = ℤ} (codes " Outside 30 70") (num (of_ℕ 80)) ≡ true
unfolding evaluate_condition parse_condition to_number text_eq lower
example_holds = refl
