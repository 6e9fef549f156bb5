-- ===== src/StopLoss/KillSwitch/Closes.antt =====
-- When the kill switch closes.
use adviser_ai_constructor.Prelude.{
  ◌≡◌, ◌↔◌, ◌⊎◌, inl, inr, refl, true, Option, none, some, arith, Option-cases,
}
use adviser_ai_constructor.Float.{Float, ◌⊗◌, ◌⊏◌, ◌⊑◌, of_ℕ, abs}
use adviser_ai_constructor.StopLoss.KillSwitch.{
  KillSwitchSignal, by_atr, by_move, detect_volatility_spike,
}

module _ {F : Type 0} ⦃fl : Float F⦄ where
  -- All three numbers are there, the baseline is positive, and the ATR has reached its multiple.
  abbrev pub HasAtrSpike : Option F → Option F → Option F → Type 0
  HasAtrSpike current_atr baseline_atr spike_mult =
      (c : F) × (b : F) × (m : F) × (current_atr ≡ some c)
      × (baseline_atr ≡ some b)
      × (spike_mult ≡ some m)
      × ((of_ℕ 0 ⊏ b) ≡ true)
      × (((m ⊗ b) ⊑ c) ≡ true)

  -- Both numbers are there, and the move has reached the threshold.
  abbrev pub HasPriceMove : Option F → Option F → Type 0
  HasPriceMove move limit =
      (x : F) × (l : F) × (move ≡ some x) × (limit ≡ some l) × ((l ⊑ abs x) ≡ true)

  by_atr-spike :
      (c b m : Option F) (s : KillSwitchSignal F)
      → by_atr c b m ≡ some s
      → (HasAtrSpike c b m) × (s.should_close ≡ true)
  unfolding by_atr
  by_atr-spike (some c) (some b) (some m) s h =
      ((c, b, m, refl, refl, refl, ground arith, ground arith), ground arith)
  by_atr-spike none b m s h = ground arith
  by_atr-spike (some c) none m s h = ground arith
  by_atr-spike (some c) (some b) none s h = ground arith

  spike-by_atr : (c b m : Option F) → by_atr c b m ≡ none → HasAtrSpike c b m → ⊥
  unfolding by_atr
  spike-by_atr c b m h (x, y, z, ex, ey, ez, positive, reached) = ground arith

  move-by_move : (x l : Option F) → ((by_move x l).should_close ≡ true) ↔ (HasPriceMove x l)
  unfolding by_move
  move-by_move (some x) (some l) =
      (λ h. (x, l, refl, refl, ground arith), λ (y, k, ey, ek, reached). ground arith)
  move-by_move none l = (λ h. ground arith, λ (y, k, ey, ek, reached). ground arith)
  move-by_move (some x) none = (λ h. ground arith, λ (y, k, ey, ek, reached). ground arith)

  -- The switch closes exactly if there is a spike of the ATR or a move of the price that reaches its
  -- threshold; in particular a missing number or threshold, or a baseline that is not positive,
  -- takes its branch out.
  detect-closes :
      (current_atr baseline_atr spike_mult move limit : Option F)
      → ((detect_volatility_spike current_atr baseline_atr spike_mult move limit).should_close
          ≡ true)
        ↔ ((HasAtrSpike current_atr baseline_atr spike_mult) ⊎ (HasPriceMove move limit))
  unfolding detect_volatility_spike
  detect-closes c b m x l = elim (Option-cases (by_atr c b m)) [
    | inl e ↦
        rw (e, detect_volatility_spike)
          (
            λ h. inr ((move-by_move x l).0 h),
            λ either. elim either [
              | inl spike ↦ elim (spike-by_atr c b m e spike) [ ]
              | inr moved ↦ (move-by_move x l).1 moved
            ],
          )
    | inr (s, e) ↦
        let (spike, closes) = by_atr-spike c b m s e in
        rw (e, detect_volatility_spike) (λ h. inl spike, λ h. closes)
  ]
