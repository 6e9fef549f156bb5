-- ===== src/RateLimiter/Pacing.antt =====
-- What the limiter answers, and what it takes from the headers.
use adviser_ai_constructor.Prelude.{
  ℕ, ◌≡◌, ◌↔◌, refl, Bool, true, false, ◌⊎◌, inl, inr, Option, none, some, List, [], ◌∷◌, arith,
  All, Member,
}
use adviser_ai_constructor.Float.{Float, IsOrdered, IsLiteral, ◌⊘◌, ◌⊏◌, ◌⊑◌, of_ℕ, max_f, min_f}
use adviser_ai_constructor.Text.{codes}
use adviser_ai_constructor.Position.Queue.Task.{Value, Format}
use adviser_ai_constructor.RateLimiter.{
  binance, bybit, AdaptiveRateLimiter, header, or_old, present, max_of, min_of, within_unit, ratios,
  usage_of, get_usage_pct, positive_waits, default_wait, time_until_reset, can_proceed,
  to_optional_int, parse_binance_headers, over, update_from_headers,
}

present-Member :
    {A : Type 0} (o : Option A) (x : A) (xs : List A) → Member x xs → Member x (present o xs)
present-Member none x xs m = m
present-Member (some y) x xs m = inr m

module _ {F : Type 0} ⦃fl : Float F⦄ where
  within_unit-bounds :
      IsOrdered F fl
      → IsLiteral F fl
      → (x : F) → ((of_ℕ 0 ⊑ within_unit x) ≡ true) × ((within_unit x ⊑ of_ℕ 1) ≡ true)
  within_unit-bounds ordered literal x = ground (
    arith,
    literal.ratio_nonneg 1 1,
    ordered.leq_total x (of_ℕ 1),
    ordered.leq_total (of_ℕ 0) x,
    ordered.leq_total (of_ℕ 0) (of_ℕ 0),
    ordered.leq_total (of_ℕ 1) (of_ℕ 1),
  )

  usage_of-bounds :
      IsOrdered F fl
      → IsLiteral F fl
      → (rs : List F) → ((of_ℕ 0 ⊑ usage_of rs) ≡ true) × ((usage_of rs ⊑ of_ℕ 1) ≡ true)
  unfolding usage_of
  usage_of-bounds ordered literal [] =
      (ground (arith, ordered.leq_total (of_ℕ 0) (of_ℕ 0)), literal.ratio_nonneg 1 1)
  usage_of-bounds ordered literal (r ∷ rs) = within_unit-bounds ordered literal (max_of r rs)

  usage-bounds :
      IsOrdered F fl
      → IsLiteral F fl
      → (s : AdaptiveRateLimiter F)
      → ((of_ℕ 0 ⊑ get_usage_pct s) ≡ true) × ((get_usage_pct s ⊑ of_ℕ 1) ≡ true)
  unfolding get_usage_pct
  usage-bounds ordered literal s =
      elim s.exchange
        as (λ e.
          let u = get_usage_pct (record s { exchange = e }) in
          ((of_ℕ 0 ⊑ u) ≡ true) × ((u ⊑ of_ℕ 1) ≡ true)) [
            | binance ↦ usage_of-bounds ordered literal (ratios s.counters)
            | bybit ↦
                elim s.counters.remaining
                  as (λ r.
                    let u = get_usage_pct (record s {
                      exchange = bybit;
                      counters = record s.counters { remaining = r };
                    }) in
                    ((of_ℕ 0 ⊑ u) ≡ true) × ((u ⊑ of_ℕ 1) ≡ true)) [
                      | none ↦ usage_of-bounds ordered literal []
                      | some r ↦ within_unit-bounds ordered literal _
                    ]
          ]

  min_of-positive :
      (x : F) (xs : List F)
      → (of_ℕ 0 ⊏ x) ≡ true
      → All (λ y. (of_ℕ 0 ⊏ y) ≡ true) xs
      → (of_ℕ 0 ⊏ min_of x xs) ≡ true
  min_of-positive x [] h k = h
  min_of-positive x (y ∷ ys) h k = min_of-positive (min_f x y) ys (ground arith) k.1

  waits-positive : (now : F) (ts : List F) → All (λ y. (of_ℕ 0 ⊏ y) ≡ true) (positive_waits now ts)
  unfolding positive_waits
  waits-positive now [] = tt
  waits-positive now (t ∷ ts) = ground (arith, waits-positive now ts)

  default_wait-nonnegative :
      IsOrdered F fl
      → IsLiteral F fl
      → (s : AdaptiveRateLimiter F) → (of_ℕ 0 ⊑ default_wait s) ≡ true
  unfolding default_wait
  default_wait-nonnegative ordered literal s =
      ground (arith, literal.ratio_nonneg 1 1, ordered.leq_total (of_ℕ 0) (of_ℕ 0))

  wait_in :
      IsOrdered F fl
      → (default : F) (waits : List F) → (of_ℕ 0 ⊑ default) ≡ true
      → All (λ y. (of_ℕ 0 ⊏ y) ≡ true) waits
      → (of_ℕ 0 ⊑ elim waits [ [] ↦ default | w ∷ ws ↦ min_of w ws ]) ≡ true
  wait_in ordered default [] h k = h
  wait_in ordered default (w ∷ ws) h k =
      ground (arith, min_of-positive w ws k.0 k.1, ordered.leq_total (of_ℕ 0) (min_of w ws))

  wait-nonnegative :
      IsOrdered F fl
      → IsLiteral F fl
      → (now : F) (s : AdaptiveRateLimiter F) → (of_ℕ 0 ⊑ time_until_reset now s) ≡ true
  unfolding time_until_reset
  wait-nonnegative ordered literal now s =
      let ts = present s.reset_times.main (present s.reset_times.retry_after []) in
      wait_in ordered (default_wait s) (positive_waits now ts)
        (default_wait-nonnegative ordered literal s) (waits-positive now ts)

  -- Where the floats are ordered and the literals are not negative: usage is within 0 and 1; an order
  -- that protects a position proceeds at once; another is refused exactly where usage is at least
  -- nine tenths; and no wait is negative.
  pub can_proceed-lem :
      IsOrdered F fl
      → IsLiteral F fl
      → (is_sl : Bool) (now : F) (s : AdaptiveRateLimiter F)
      → ((of_ℕ 0 ⊑ get_usage_pct s) ≡ true)
        × ((get_usage_pct s ⊑ of_ℕ 1) ≡ true)
        × ((is_sl ≡ false) ⊎ (can_proceed is_sl now s ≡ (true, of_ℕ 0)))
        × (((can_proceed is_sl now s).0 ≡ false)
            ↔ ((is_sl ≡ false) × ((fl.ratio 9 10 ⊑ get_usage_pct s) ≡ true)))
        × ((of_ℕ 0 ⊑ (can_proceed is_sl now s).1) ≡ true)
  unfolding can_proceed
  can_proceed-lem ordered literal is_sl now s =
      let bounds = usage-bounds ordered literal s in
      ground (
        arith,
        bounds,
        wait-nonnegative ordered literal now s,
        literal.ratio_nonneg 2 10,
        literal.ratio_nonneg 0 1,
      )

  max_of-above :
      IsOrdered F fl → (x y : F) (ys : List F) → (x ⊑ y) ≡ true → (x ⊑ max_of y ys) ≡ true
  max_of-above ordered x y [] h = h
  max_of-above ordered x y (z ∷ ys) h =
      max_of-above ordered x (max_f y z) ys
        (ground (arith, ordered.leq_trans x y z, ordered.leq_total y z))

  max_of-Member :
      IsOrdered F fl
      → (x r y : F) (ys : List F) → (x ⊑ r) ≡ true
      → Member r (y ∷ ys)
      → (x ⊑ max_of y ys) ≡ true
  max_of-Member ordered x r y ys h (inl e) = max_of-above ordered x y ys (rw e h)
  max_of-Member ordered x r y [] h (inr m) = elim m [ ]
  max_of-Member ordered x r y (z ∷ ys) h (inr (inl e)) =
      max_of-above ordered x (max_f y z) ys
        (ground (arith, ordered.leq_trans x z y, ordered.leq_total z y))
  max_of-Member ordered x r y (z ∷ ys) h (inr (inr m)) =
      max_of-Member ordered x r (max_f y z) ys h (inr m)

  within_unit-above :
      (x y : F) → IsOrdered F fl → (x ⊑ of_ℕ 1) ≡ true → (x ⊑ y) ≡ true → (x ⊑ within_unit y) ≡ true
  within_unit-above x y ordered h k = ground (
    arith,
    ordered.leq_trans x y (of_ℕ 0),
    ordered.leq_trans x (of_ℕ 1) (of_ℕ 0),
    ordered.leq_total (of_ℕ 0) y,
    ordered.leq_total (of_ℕ 0) (of_ℕ 1),
  )

  usage_of-Member :
      IsOrdered F fl
      → (x r : F) (rs : List F) → (x ⊑ of_ℕ 1) ≡ true
      → (x ⊑ r) ≡ true
      → Member r rs
      → (x ⊑ usage_of rs) ≡ true
  unfolding usage_of
  usage_of-Member ordered x r [] h k m = elim m [ ]
  usage_of-Member ordered x r (y ∷ ys) h k m =
      within_unit-above x (max_of y ys) ordered h (max_of-Member ordered x r y ys k m)

  weight-usage :
      IsOrdered F fl
      → (s : AdaptiveRateLimiter F) (weight : F) → (fl.ratio 9 10 ⊑ of_ℕ 1) ≡ true
      → s.exchange ≡ binance
      → s.counters.weight_used_1m ≡ some weight
      → (fl.ratio 9 10 ⊑ (weight ⊘ of_ℕ 2400)) ≡ true
      → (fl.ratio 9 10 ⊑ get_usage_pct s) ≡ true
  unfolding get_usage_pct ratios over
  weight-usage ordered s weight below e w h =
      let r = weight ⊘ of_ℕ 2400 in
      let own = present (over (of_ℕ 2400) s.counters.weight_used_1m) [] in
      let here : Member r own = rw w (inl refl) in
      let among : Member r (ratios s.counters) =
        present-Member _ r (present (over (of_ℕ 1200) s.counters.order_count_1m) own)
          (present-Member (over (of_ℕ 1200) s.counters.order_count_1m) r own here) in
      rw (e, get_usage_pct)
        (usage_of-Member ordered (fl.ratio 9 10) r (ratios s.counters) below h among)

  module _ ⦃py : Format F⦄ (truncate : F → F) where
    update-weight :
        (now weight : F) (headers : List (List ℕ × Value F)) (s : AdaptiveRateLimiter F)
        → s.exchange ≡ binance
        → to_optional_int truncate (header (codes "x-mbx-used-weight-1m") headers) ≡ some weight
        → let s' = update_from_headers truncate now headers s in
          (s'.exchange ≡ binance) × (s'.counters.weight_used_1m ≡ some weight)
    unfolding update_from_headers parse_binance_headers
    update-weight now weight headers s e w =
        (rw (e, update_from_headers) e, rw (e, update_from_headers) (rw (w, or_old) refl))

    -- Where the floats are ordered and 0.9 is at most 1: after an answer of Binance whose header gives a
    -- weight of at least nine tenths of the limit, an order that protects no position is refused.
    pub update-throttles :
        IsOrdered F fl
        → (fl.ratio 9 10 ⊑ of_ℕ 1) ≡ true
        → (now later weight : F) (headers : List (List ℕ × Value F)) (s : AdaptiveRateLimiter F)
        → s.exchange ≡ binance
        → to_optional_int truncate (header (codes "x-mbx-used-weight-1m") headers) ≡ some weight
        → (fl.ratio 9 10 ⊑ (weight ⊘ of_ℕ 2400)) ≡ true
        → (can_proceed false later (update_from_headers truncate now headers s)).0 ≡ false
    unfolding can_proceed
    update-throttles ordered below now later weight headers s e w h =
        let (e', w') = update-weight now weight headers s e w in
        let s' = update_from_headers truncate now headers s in
        rw (weight-usage ordered s' weight below e' w' h) refl
