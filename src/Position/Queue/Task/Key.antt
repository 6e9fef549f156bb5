-- ===== src/Position/Queue/Task/Key.antt =====
-- What the key of a task tells: the position it belongs to, and the target of a stop-loss.
use mathlib.Core.List.{append_assoc, append-nil}
use adviser_ai_constructor.Prelude.{
  ℕ, arith, ap, ◌≡◌, ◌≢◌, ◌↔◌, refl, sym, Bool, true, false, List, [], ◌∷◌, ◌++◌, ◌∙◌, All,
  if◌then◌else◌,
}
use adviser_ai_constructor.Float.{Float}
use adviser_ai_constructor.Text.{codes, starts_with, starts_with-append, separator_eq}
use adviser_ai_constructor.Position.Queue.Task.{
  Value, new_trigger_price, trigger_price, Params, Format, Action, place_sl, replace_sl, place_tp,
  replace_tp, cancel_order, existing_order_id, order_id, is_sl, is_known, partial_close,
  emergency_market_close, other_action, action_name, get_default, get, is_null, truthy,
  format_target, base_key, target_key, task_key,
}

append_cancel : (p s t : List ℕ) → p ++ s ≡ p ++ t → s ≡ t
append_cancel [] s t h = h
append_cancel (c ∷ p) s t h = append_cancel p s t (cc)

-- A text that goes on from a base.
abbrev Extends : List ℕ → List ℕ → Type 0
Extends base t = (rest : List ℕ) × (t ≡ base ++ rest)

-- What follows the name of the action in a key is empty, or begins with a colon.
abbrev IsSuffix : List ℕ → Type 0
IsSuffix rest = (suffix : List ℕ) × (rest ++ b':' ∷ [] ≡ b':' ∷ suffix)

abbrev Suffixed : List ℕ → List ℕ → Type 0
Suffixed base t = (rest : List ℕ) × (t ≡ base ++ rest) × IsSuffix rest

Suffixed-if :
    (b : Bool) (base rest : List ℕ)
    → Suffixed base (if b then base else base ++ (b':' ∷ rest))
      × Suffixed base (if b then base ++ (b':' ∷ rest) else base)
Suffixed-if b base rest =
    let empty : Suffixed base base = ([], sym (append-nil base), ([], refl)) in
    let full : Suffixed base (base ++ (b':' ∷ rest)) =
      (b':' ∷ rest, refl, (rest ++ b':' ∷ [], refl)) in
    elim b
      as (λ c.
        Suffixed base (if c then base else base ++ (b':' ∷ rest))
        × Suffixed base (if c then base ++ (b':' ∷ rest) else base)) [
          | true ↦ (empty, full)
          | false ↦ (full, empty)
        ]

known_name-plain : (a : Action) → is_known a ≡ true → All (λ c. c ≢ b':') (action_name a)
unfolding action_name
known_name-plain place_sl h = omega arith
known_name-plain replace_sl h = omega arith
known_name-plain place_tp h = omega arith
known_name-plain replace_tp h = omega arith
known_name-plain partial_close h = omega arith
known_name-plain emergency_market_close h = omega arith
known_name-plain cancel_order h = omega arith
known_name-plain (other_action name) h = cc

known_name-injective :
    (a b : Action) → is_known a ≡ true → is_known b ≡ true → action_name a ≡ action_name b → a ≡ b
unfolding action_name
known_name-injective a b ha hb h = ground arith

module _ {F : Type 0} ⦃fl : Float F⦄ ⦃py : Format F⦄ where
  task_key-Suffixed :
      (p : List ℕ) (a : Action) (params : Params F) → Suffixed (base_key p a) (task_key p a params)
  unfolding task_key target_key
  task_key-Suffixed p place_sl params = (Suffixed-if (is_null _) _ _).0
  task_key-Suffixed p replace_sl params = (Suffixed-if (is_null _) _ _).0
  task_key-Suffixed p place_tp params = (Suffixed-if (is_null _) _ _).0
  task_key-Suffixed p replace_tp params =
      (Suffixed-if (truthy (get params existing_order_id)) _ _).1
  task_key-Suffixed p cancel_order params = (Suffixed-if (truthy (get params order_id)) _ _).1
  task_key-Suffixed p a params = ([], sym (append-nil _), ([], refl))

  task_key-Extends :
      (p : List ℕ) (a : Action) (params : Params F) → Extends (p ++ b':' ∷ []) (task_key p a params)
  task_key-Extends p a params =
      let (rest, h, suffix) = task_key-Suffixed p a params in
      (
        action_name a ++ rest,
        h ∙ append_assoc p (b':' ∷ action_name a) rest ∙ sym (append_assoc p (b':' ∷ []) _),
      )

  -- Where position ids hold no colon, the key of a task begins with a position's id and a colon
  -- exactly when the task is of that position.
  pub task_key-position :
      (p q : List ℕ) (a : Action) (params : Params F)
      → All (λ c. c ≢ b':') p
      → All (λ c. c ≢ b':') q
      → (starts_with (p ++ b':' ∷ []) (task_key q a params) ≡ true) ↔ (p ≡ q)
  task_key-position p q a params hp hq =
      let (rest, h) = task_key-Extends q a params in
      (
        λ e. separator_eq b':' p q rest hp hq (rw (sym (h ∙ append_assoc q (b':' ∷ []) rest)) e),
        λ e. rw (e, h) (starts_with-append (q ++ b':' ∷ []) rest),
      )

  -- The price that a stop-loss key holds.
  abbrev pub sl_target : Params F → Value F
  sl_target params = get_default params new_trigger_price (get params trigger_price)

  target_key-injective :
      (base : List ℕ) (v w : Value F)
      → is_null v ≡ false
      → is_null w ≡ false
      → target_key base v ≡ target_key base w
      → format_target v ≡ format_target w
  unfolding target_key
  target_key-injective base v w hv hw h =
      append_cancel (codes ":target:") _ _ (append_cancel base _ _ (rw (hv, hw) at h))

  -- Two stop-loss tasks of one position and action with one key have targets that Python formats
  -- alike: moves to prices that differ in ten digits are never merged under one key.
  pub sl_key-injective :
      (p : List ℕ) (a : Action) (params params' : Params F)
      → is_sl a ≡ true
      → is_null (sl_target params) ≡ false
      → is_null (sl_target params') ≡ false
      → task_key p a params ≡ task_key p a params'
      → format_target (sl_target params) ≡ format_target (sl_target params')
  unfolding task_key
  sl_key-injective p place_sl params params' sl h h' e = target_key-injective _ _ _ h h' e
  sl_key-injective p replace_sl params params' sl h h' e = target_key-injective _ _ _ h h' e
  sl_key-injective p _ params params' sl h h' e = cc

  -- Keys are equal only within one position and one action, where ids hold no colon.
  task_key-eq_position :
      (p q : List ℕ) (a b : Action) (params params' : Params F)
      → All (λ c. c ≢ b':') p
      → All (λ c. c ≢ b':') q
      → task_key p a params ≡ task_key q b params'
      → p ≡ q
  task_key-eq_position p q a b params params' hp hq e =
      let (rest, h) = task_key-Extends p a params in
      (task_key-position p q b params' hp hq).0
        (rw (sym e, h) (starts_with-append (p ++ b':' ∷ []) rest))

  action-eq :
      (p : List ℕ) (a b : Action) (params params' : Params F)
      → is_known a ≡ true
      → is_known b ≡ true
      → task_key p a params ≡ task_key p b params'
      → a ≡ b
  action-eq p a b params params' ha hb e =
      let (r, h, (s, hs)) = task_key-Suffixed p a params in
      let (r', h', (s', hs')) = task_key-Suffixed p b params' in
      let names : action_name a ++ r ≡ action_name b ++ r' = append_cancel (p ++ b':' ∷ []) _ _ (
        append_assoc p (b':' ∷ []) _
        ∙ sym (h ∙ append_assoc p (b':' ∷ action_name a) r)
        ∙ e
        ∙ h'
        ∙ append_assoc p (b':' ∷ action_name b) r'
        ∙ sym (append_assoc p (b':' ∷ []) _)) in
      let ended : action_name a ++ (b':' ∷ s) ≡ action_name b ++ (b':' ∷ s') =
        ap (λ (t : List ℕ). action_name a ++ t) (sym hs)
        ∙ sym (append_assoc (action_name a) r _)
        ∙ ap (λ (t : List ℕ). t ++ b':' ∷ []) names
        ∙ append_assoc (action_name b) r' _
        ∙ ap (λ (t : List ℕ). action_name b ++ t) hs' in
      known_name-injective a b ha hb (
        separator_eq b':' (action_name a) (action_name b) s' (known_name-plain a ha)
          (known_name-plain b hb)
          (rw (sym ended, sym (append_assoc (action_name a) (b':' ∷ []) s))
            (starts_with-append (action_name a ++ b':' ∷ []) s)))

  -- Two tasks with one key are of one position and one action, where ids hold no colon and the
  -- actions are among the seven that the queue executes.
  pub task_key-eq :
      (p q : List ℕ) (a b : Action) (params params' : Params F)
      → All (λ c. c ≢ b':') p
      → All (λ c. c ≢ b':') q
      → is_known a ≡ true
      → is_known b ≡ true
      → task_key p a params ≡ task_key q b params'
      → (p ≡ q) × (a ≡ b)
  task_key-eq p q a b params params' hp hq ha hb e =
      let same = task_key-eq_position p q a b params params' hp hq e in
      (same, action-eq p a b params params' ha hb (rw (sym same) at e))
