-- ===== src/LiveTracker/Ticks.antt =====
-- What a tick does to the positions and to the order queue.
use mathlib.Core.Path.{subst}
use adviser_ai_constructor.Prelude.{
  ℕ, ◌≡◌, refl, Bool, true, false, ◌&&◌, ◌⊎◌, inl, inr, Option, none, some, List, [], ◌∷◌, arith,
  Bool-cases, Option-cases, if◌then◌else◌, All, Member,
}
use adviser_ai_constructor.Float.{Float, IsOrdered, ◌⊖◌, ◌⊏◌, ◌⊑◌, of_ℕ}
use adviser_ai_constructor.Text.{text_eq_iff}
use adviser_ai_constructor.StopLoss.{SlAdjustmentResult, apply_state_changes}
use adviser_ai_constructor.StopLoss.Order.{is_no_looser, no_looser_refl}
use adviser_ai_constructor.StopLoss.Protects.{
  IsMonotone, adjust-protects, apply-current, adjust-result,
}
use adviser_ai_constructor.Position.Queue.Task.{replace_sl, OrderTask, Format}
use adviser_ai_constructor.Position.Queue.State.{mem_key}
use adviser_ai_constructor.LiveTracker.{
  Tracked, RealtimeSlAdjuster, Environment, set_clock, clock_of, compute_atr, is_position_eligible,
  cooldown_elapsed, evaluate_pipeline, dispatch_replace_sl, tick_position, tick_unless,
  tick_positions,
}

module _ {F : Type 0} ⦃fl : Float F⦄ where
  -- What is true of each task of a tick.
  abbrev pub IsProper : List (List ℕ) → List ℕ → List (Tracked F) → OrderTask F → Type 0
  IsProper killed symbol positions t =
      (p : Tracked F) × Member p positions
      × (t.position_id ≡ p.position_id)
      × (mem_key p.position_id killed ≡ false)
      × (p.symbol ≡ symbol)
      × ((of_ℕ 0 ⊏ p.current_quantity) ≡ true)
      × (t.action ≡ replace_sl)

  -- Each position stands where it stood, with a stop that is no looser.
  abbrev pub IsProtected : List (Tracked F) → List (Tracked F) → Type 0
  IsProtected [] [] = Unit {0}
  IsProtected [] (q ∷ qs) = ⊥
  IsProtected (p ∷ ps) [] = ⊥
  IsProtected (p ∷ ps) (q ∷ qs) =
      (q.position_id ≡ p.position_id)
      × (is_no_looser p.context.side p.context.current_sl_price q.context.current_sl_price ≡ true)
      × IsProtected ps qs

module _ {F : Type 0} ⦃fl : Float F⦄ ⦃py : Format F⦄ (env : Environment F) where
  -- The adjuster and the position after a result.
  abbrev pub moved_clock : F → RealtimeSlAdjuster F → Tracked F → RealtimeSlAdjuster F
  moved_clock now s p = record s {
    last_adjustment_at = set_clock p.position_id now s.last_adjustment_at;
  }

  abbrev pub moved_stop : SlAdjustmentResult F → Tracked F → Tracked F
  moved_stop r p = record p { context = apply_state_changes r p.context }

  -- A round changes nothing, or applies the result of the pipeline to an eligible position.
  pub tick_position-cases :
      (now price : F) (s : RealtimeSlAdjuster F) (p : Tracked F)
      → (tick_position env now price s p ≡ (s, p, []))
        ⊎ ((r : SlAdjustmentResult F) × (is_position_eligible s p ≡ true)
            × (evaluate_pipeline env price s p ≡ some r)
            × (tick_position env now price s p ≡ (
              moved_clock now s p,
              moved_stop r p,
              dispatch_replace_sl env now (moved_stop r p) r,
            )))
  unfolding tick_position
  tick_position-cases now price s p =
      elim (Bool-cases (is_position_eligible s p && cooldown_elapsed now p.position_id s)) [
        | inr h ↦ inl (rw (h, tick_position) refl)
        | inl h ↦ elim (Option-cases (evaluate_pipeline env price s p)) [
          | inl e ↦ inl (rw (h, tick_position) (rw (e, tick_position) refl))
          | inr (r, e) ↦
              inr (r, ground arith, e, rw (h, tick_position) (rw (e, tick_position) refl))
        ]
      ]

  pub tick_position-moves :
      (now price : F) (s : RealtimeSlAdjuster F) (p : Tracked F) (r : SlAdjustmentResult F)
      → is_position_eligible s p ≡ true
      → cooldown_elapsed now p.position_id s ≡ true
      → evaluate_pipeline env price s p ≡ some r
      → tick_position env now price s p
        ≡ (moved_clock now s p, moved_stop r p, dispatch_replace_sl env now (moved_stop r p) r)
  unfolding tick_position
  tick_position-moves now price s p r ok elapsed e =
      rw (ok, elapsed, tick_position) (rw (e, tick_position) refl)

  tick_position-waits :
      (now price : F) (s : RealtimeSlAdjuster F) (p : Tracked F)
      → cooldown_elapsed now p.position_id s ≡ false
      → tick_position env now price s p ≡ (s, p, [])
  unfolding tick_position
  tick_position-waits now price s p h = ground arith

  clock_of-set :
      (id : List ℕ) (now : F) (clocks : List ℕ → Option F)
      → clock_of id (set_clock id now clocks) ≡ now
  unfolding clock_of
  clock_of-set id now clocks = rw ((text_eq_iff id id).1 refl, clock_of) refl

  -- After a tick that moved the stop of a position, a round for it within the throttle time changes
  -- nothing and enqueues nothing, whatever the price.
  pub tick_position-throttles :
      (now later price price' : F) (s : RealtimeSlAdjuster F) (p : Tracked F)
      (r : SlAdjustmentResult F)
      → is_position_eligible s p ≡ true
      → cooldown_elapsed now p.position_id s ≡ true
      → evaluate_pipeline env price s p ≡ some r
      → (s.throttle_seconds ⊑ (later ⊖ now)) ≡ false
      → let s' = (tick_position env now price s p).0 in
        let p' = (tick_position env now price s p).1 in
        (p'.context.current_sl_price ≡ r.new_sl_price)
        × (tick_position env later price' s' p' ≡ (s', p', []))
  unfolding cooldown_elapsed
  tick_position-throttles now later price price' s p r ok elapsed e soon =
      rw (tick_position-moves now price s p r ok elapsed e) (
        apply-current r p.context,
        tick_position-waits later price' (moved_clock now s p) (moved_stop r p)
            (rw (clock_of-set p.position_id now s.last_adjustment_at) soon),
      )

  stop-protected :
      IsOrdered F fl
      → (price : F) (s : RealtimeSlAdjuster F) (p : Tracked F) (r : SlAdjustmentResult F)
      → (price ⊑ of_ℕ 0) ≡ false
      → IsMonotone p.context
      → evaluate_pipeline env price s p ≡ some r
      → is_no_looser p.context.side p.context.current_sl_price
          (moved_stop r p).context.current_sl_price
        ≡ true
  unfolding evaluate_pipeline
  stop-protected ordered price s p r h off e =
      let atr =
        if p.context.volatility_sl_enabled
        then compute_atr env p.volatility_atr_period s
        else none in
      let (_, _, step) = adjust-protects ordered price atr p.context off in
      subst (λ q. is_no_looser p.context.side p.context.current_sl_price q.current_sl_price ≡ true)
        (adjust-result price atr p.context r h e) step

  round-IsProtected :
      IsOrdered F fl
      → (hit : Bool) (now price : F) (s : RealtimeSlAdjuster F) (p : Tracked F)
      → (price ⊑ of_ℕ 0) ≡ false
      → IsMonotone p.context
      → IsProtected (p ∷ []) ((tick_unless env hit now price s p).1 ∷ [])
  unfolding tick_unless
  round-IsProtected ordered true now price s p h off =
      (refl, no_looser_refl ordered p.context.side p.context.current_sl_price, tt)
  round-IsProtected ordered false now price s p h off = elim (tick_position-cases now price s p) [
    | inl e ↦
        rw (e, tick_unless)
          (refl, no_looser_refl ordered p.context.side p.context.current_sl_price, tt)
    | inr (r, _, v, e) ↦ rw (e, tick_unless) (refl, stop-protected ordered price s p r h off v, tt)
  ]

  -- Where the floats are ordered, at a positive price: over all positions of a tick whose breakeven rule
  -- is off or has fired, in any number, with any of them handed off to the kill switch, each keeps
  -- its place and no stop gets looser.
  pub tick_positions-protects :
      IsOrdered F fl
      → (now price : F) (killed : List (List ℕ)) (s : RealtimeSlAdjuster F)
        (positions : List (Tracked F))
      → (price ⊑ of_ℕ 0) ≡ false
      → All (λ p. IsMonotone p.context) positions
      → IsProtected positions (tick_positions env now price killed s positions).1
  unfolding tick_positions
  tick_positions-protects ordered now price killed s [] h off = tt
  tick_positions-protects ordered now price killed s (p ∷ positions) h off =
      let hit = mem_key p.position_id killed in
      let (id, stop, _) = round-IsProtected ordered hit now price s p h off.0 in
      (
        id,
        stop,
        tick_positions-protects ordered now price killed (tick_unless env hit now price s p).0
            positions h off.1,
      )
