-- ===== src/StopLoss/KillSwitch.antt =====
-- app/services/sl_tp/kill_switch.py: when a spike of the volatility closes a position outright.
pub mod Closes
use adviser_ai_constructor.Prelude.{Bool, true, false, not, ◌&&◌, Option, none, some, if◌then◌else◌}
use adviser_ai_constructor.Float.{Float, ◌⊗◌, ◌⊏◌, ◌⊑◌, of_ℕ, abs}

pub data Spike : Type 0 where
  atr_spike price_move : Spike

pub record KillSwitchSignal (F : Type 0) : Type 0 where
  pub should_close : Bool
  pub reason : Option Spike
  pub actual : Option F
  pub threshold : Option F

abbrev pub no_close : {F : Type 0} → KillSwitchSignal F
no_close = record { should_close = false; reason = none; actual = none; threshold = none }

abbrev pub close_on : {F : Type 0} → Spike → F → F → KillSwitchSignal F
close_on why measured limit = record {
  should_close = true;
  reason = some why;
  actual = some measured;
  threshold = some limit;
}

module _ {F : Type 0} ⦃fl : Float F⦄ where
  -- The first branch: `none` where it does not close.
  by_atr : Option F → Option F → Option F → Option (KillSwitchSignal F)
  by_atr (some current) (some baseline) (some mult) =
      if not (baseline ⊑ of_ℕ 0) && ((mult ⊗ baseline) ⊑ current)
      then some (close_on atr_spike current (mult ⊗ baseline))
      else none
  by_atr current baseline mult = none

  by_move : Option F → Option F → KillSwitchSignal F
  by_move (some move) (some limit) =
      if limit ⊑ abs move then close_on price_move (abs move) limit else no_close
  by_move move limit = no_close

  unfoldable pub detect_volatility_spike :
      Option F → Option F → Option F → Option F → Option F → KillSwitchSignal F
  unfolding by_atr by_move
  detect_volatility_spike current_atr baseline_atr spike_mult last_bar_move_pct
        price_move_pct_threshold =
      elim (by_atr current_atr baseline_atr spike_mult) [
        | some signal ↦ signal
        | none ↦ by_move last_bar_move_pct price_move_pct_threshold
      ]
